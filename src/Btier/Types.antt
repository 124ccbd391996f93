-- ===== src/Btier/Types.antt =====
-- btier/btier_types.h: tiers, locations, the packed metrics word.
pub mod Pack
use clab.Prelude.{
  ℕ, ◌+◌, ◌*◌, ◌/◌, ◌%◌, ◌^◌, bit_and, bit_or, Bool, true, false, List, ◌==◌, if◌then◌else◌,
}

-- A uint8_t enumeration: `other` is what a cast makes of a byte that names no tier.
pub data Tier : Type 0 where
  fast slow : Tier
  other : ℕ → Tier

abbrev pub tier_byte : Tier → ℕ
tier_byte Tier.fast = 0
tier_byte Tier.slow = 1
tier_byte (Tier.other b) = b

-- `(Tier)b`
abbrev pub to_tier : ℕ → Tier
to_tier b = if b == 0 then Tier.fast else if b == 1 then Tier.slow else Tier.other b

-- `tier == Tier::FAST`
abbrev pub is_fast : Tier → Bool
is_fast t = tier_byte t == 0

pub record DiskLocation : Type 0 where
  pub offset : ℕ
  pub length : ℕ
  pub tier : Tier

pub record KeyLocation : Type 0 where
  pub extent_id : ℕ
  pub offset : ℕ
  pub length : ℕ

pub data IoOp : Type 0 where
  read write : IoOp

-- ExtentState
abbrev pub active : ℕ
active = 0

abbrev pub migrating : ℕ
migrating = 1

-- ExtentHeader::HEADER_SIZE
abbrev pub header_size : ℕ
header_size = 4096

-- `(uint64_t)x << k`
abbrev shl64 : ℕ → ℕ → ℕ
shl64 x k = (x * 2 ^ k) % 2 ^ 64

-- ExtentMetrics::pack
pub pack : ℕ → ℕ → ℕ → ℕ → ℕ → ℕ
pack access writes random st gen =
    bit_or
      (bit_or
        (bit_or (bit_or (bit_and access 0xFFF) (shl64 (bit_and writes 0xFFF) 12))
          (shl64 (bit_and random 0x3F) 24))
        (shl64 (bit_and st 0x3) 30))
      (shl64 (bit_and gen 0xFFFF_FFFF) 32)

pub access_count : ℕ → ℕ
access_count v = bit_and v 0xFFF

pub write_count : ℕ → ℕ
write_count v = bit_and (v / 2 ^ 12) 0xFFF

pub randomness : ℕ → ℕ
randomness v = bit_and (v / 2 ^ 24) 0x3F

unfoldable pub state : ℕ → ℕ
state v = bit_and (v / 2 ^ 30) 0x3

pub generation : ℕ → ℕ
generation v = v / 2 ^ 32

pub is_migrating : ℕ → Bool
is_migrating v = state v == migrating
