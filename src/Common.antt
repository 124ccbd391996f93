-- ===== src/Common.antt =====
-- common/: the arithmetic and the checksum that the storage layers share.
pub mod Intarith
pub mod Crc32
pub mod Denc
