-- ===== src/Lifecycle.antt =====
-- The hype-lifecycle state machine: pump_physics/engine.py, with the alert gate of
-- ops/alert_quality.py.
pub mod Phase
pub mod Store
pub mod Monotone
pub mod History
pub mod Alerts
pub mod Detect
mod Tests
