-- ===== src/Status.antt =====
-- status/: the metrics that the status page shows.
pub mod Ring
pub mod Duration
pub mod Metrics
pub mod Process
mod Tests
