-- ===== src/Start.antt =====
-- src/start.ts: the options of the server, the TLS certificate of the control channel, the handler of a
-- public request, GET /providers, the listeners of the relay, and the shutdown.
pub mod Forwarding
pub mod ControlCert
pub mod Listeners
pub mod Routes
pub mod Wiring
mod Tests
