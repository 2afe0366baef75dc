-- ===== src/Notifier.antt =====
-- The notifier of ops/notifier.py, and the endpoints of api/main.py that snooze and acknowledge alerts.
pub mod Push
pub mod Flush
pub mod Digest
pub mod Notices
pub mod Disabled
pub mod Once
pub mod Daily
pub mod Runs
pub mod Silent
mod Tests
