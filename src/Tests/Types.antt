-- ===== src/Tests/Types.antt =====
-- btier/btier_types.h, common/crc32.cc and common/intarith.h at concrete values.
use clab.Prelude.{ℕ, ◌+◌, ◌*◌, ◌^◌}

-- 4095 accesses, 7 writes, randomness 3, MIGRATING, the last generation.
abbrev full_word : ℕ
full_word = 4095 + 7 * 2 ^ 12 + 3 * 2 ^ 24 + 1 * 2 ^ 30 + 4294967295 * 2 ^ 32
