-- ===== src/Heuristics.antt =====
-- The heuristics of the night crawler: `HeuristicsEngine` of crawlers/heuristics.py.
pub mod Memory
pub mod Outcomes
mod Tests
