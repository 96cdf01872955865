-- ===== src/Broker.antt =====
-- The OAuth broker, broker/: it checks a daemon's signed request, seals the flow into the browser's
-- cookie, and delivers the token that comes back to the daemon alone.
pub mod Query
pub mod Sessions
pub mod FlowState
pub mod Auth
pub mod Callback
pub mod Providers
pub mod FlowSession
pub mod Grant
pub mod E2eMock
pub mod Instances
pub mod Samples
mod Tests
