-- ===== src/Blk.antt =====
-- blk/: block allocation.
pub mod Allocator
pub mod Avl
pub mod IntervalSet
