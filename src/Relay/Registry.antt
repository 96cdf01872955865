-- ===== src/Relay/Registry.antt =====
-- Who is registered: the registry names live connections by the key of their certificate.
pub mod Entries
pub mod Handlers
pub mod Identity
pub mod Announcements
