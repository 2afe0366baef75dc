-- ===== src/Mempool.antt =====
-- The watcher of a mint's recent signatures: mempool/solana.py, with `upsert_event` of
-- radar/ignition.py.
pub mod Watch
pub mod Cursor
pub mod Burst
mod Tests
