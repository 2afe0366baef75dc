-- ===== src/Narrative.antt =====
-- The clusters of social mentions: narrative/cluster.py.
pub mod Cluster
pub mod Keyed
pub mod Untitled
mod Tests
