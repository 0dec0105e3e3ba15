-- ===== src/Runner.antt =====
-- The supervised runner processes (src/process/manager.rs).
pub mod Watchdog
pub mod Reap
pub mod FirstHealthy
pub mod Lifecycle
pub mod Orphans
pub mod Purge
mod Tests
