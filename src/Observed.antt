-- ===== src/Observed.antt =====
-- The outcomes of scored tokens: risk_engine/outcomes.py.
pub mod Rows
pub mod Report
pub mod Feed
pub mod Judged
pub mod Bands
pub mod Fed
mod Tests
