-- ===== src/Webhooks.antt =====
-- The webhooks of data_lake/webhooks.py and the passes of data_lake/manager.py that dispatch them.
pub mod Policy
pub mod Allowed
pub mod Dispatch
pub mod Pass
pub mod Post
pub mod Runs
mod Tests
