-- ===== src/Writes.antt =====
-- The single-writer queue: storage/write_queue.py.
pub mod Queue
pub mod Drain
pub mod Lost
pub mod Windows
mod Tests
