-- ===== src/Kv.antt =====
-- kv/: the key-value stores.
pub mod Bytes
pub mod MergeOp
pub mod MemDb
