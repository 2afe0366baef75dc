-- ===== src/Risk.antt =====
-- The rule-based risk engine: risk_engine/rules.py.
pub mod Band
pub mod Rules
pub mod Assess
pub mod Score
pub mod Order
pub mod Verdict
mod Tests
