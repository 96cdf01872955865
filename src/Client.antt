-- ===== src/Client.antt =====
-- The daemon's side of the relay, client/: its identity, one supervised connection per broker URL, and
-- the exchange with the broker's OAuth routes.
pub mod Urls
pub mod Backoff
pub mod Mailbox
pub mod Handshake
pub mod Endpoint
pub mod Forwarder
pub mod Identity
pub mod Auth
pub mod Aggregate
pub mod Supervisor
mod Tests
