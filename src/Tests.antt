-- ===== src/Tests.antt =====
-- The theorems at concrete inputs.
mod Journal
mod Durable
mod Space
mod Avl
mod Blk
mod KeyMap
mod ExtentMap
mod Types
mod Kv
mod Engine
mod Migration
mod Denc
