-- ===== src/Btier/Journal.antt =====
-- btier/journal.cc: the write-ahead log on the fast device.
pub mod Codec
pub mod Scan
pub mod Block
pub mod State
pub mod Recover
pub mod Durable
