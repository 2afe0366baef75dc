-- ===== src/Watchdog.antt =====
-- The stage watchdog: ops/watchdog.py, and the phase wiring of engine/run.py.
pub mod Registry
pub mod Stage
pub mod Upkeep
pub mod Skips
pub mod Threads
pub mod Reach
pub mod Abandoned
mod Tests
