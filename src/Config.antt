-- ===== src/Config.antt =====
-- The configuration of the server, config.ts: texts with ${VAR} references, the schema with its
-- defaults, and the loading of the file.
pub mod Interpolation
pub mod Schema
pub mod Load
pub mod Cli
mod Tests
