-- ===== src/Evm.antt =====
-- The watcher of a factory's new pairs: mempool/evm.py.
pub mod Node
pub mod Store
pub mod Watch
pub mod Oriented
pub mod Missed
mod Tests
