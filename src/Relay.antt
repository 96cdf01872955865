-- ===== src/Relay.antt =====
-- relay/server.ts: the registry of connected daemons, the forwarding of requests to them, and the
-- life of a control connection. The children hold the state, the operations and their proofs.
pub mod State
pub mod Pending
pub mod Connection
pub mod Events
pub mod Forwards
pub mod Registry
pub mod Settling
pub mod Admission
pub mod Keepalive
mod Tests
