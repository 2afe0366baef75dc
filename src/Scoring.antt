-- ===== src/Scoring.antt =====
-- The ensemble of the three scorers: scoring/ensemble.py.
pub mod Scorer
pub mod Decimal
pub mod Ensemble
pub mod Weights
pub mod Outcomes
pub mod Flush
pub mod Blend
pub mod Restart
pub mod Range
mod Tests
