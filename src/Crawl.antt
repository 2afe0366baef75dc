-- ===== src/Crawl.antt =====
-- The night crawlers: crawlers/base.py and crawlers/orchestrator.py.
pub mod Health
pub mod Fetch
pub mod Latch
pub mod Fresh
pub mod Sound
pub mod Orchestrator
pub mod Adaptive
pub mod Fleet
mod Tests
