-- ===== src/Replay.antt =====
-- Point-in-time replay: hours_between of common/time.py, validation/leakage_guard.py and
-- chronological_split of risk_engine/confidence_calibration.py.
pub mod Hours
pub mod Guard
pub mod Split
mod Tests
