-- ===== src/Worker.antt =====
-- The ingest worker, apps/worker-ingest/src/index.js.
pub mod Settings
pub mod Data
pub mod Store
pub mod Process
pub mod Retry
pub mod Failure
pub mod Quota
pub mod Health
pub mod Startup
mod Tests
