-- ===== src/Shared.antt =====
-- Code that relay, client and broker share, shared/, and what they call of the platform.
pub mod Platform
pub mod Certs
pub mod Preimage
pub mod SigningKey
pub mod Ecies
pub mod Delivery
pub mod Samples
mod Tests
