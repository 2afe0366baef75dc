-- ===== src/Labels.antt =====
-- The labels of forecast/labels.py.
pub mod Upsert
pub mod Generate
pub mod Real
pub mod Elapsed
pub mod Leak
mod Tests
