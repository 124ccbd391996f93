-- ===== src/Common/Intarith.antt =====
-- common/intarith.h at uint64_t. A word is a number below 2 ^ 64, and every operation that can
-- leave that range wraps.
pub mod Rounding
pub mod Powers
use clab.Prelude.{
  ℕ, zero, suc, ◌+◌, ◌-◌, ◌/◌, ◌%◌, ◌^◌, bit_and, Bool, ◌&&◌, ltb, ◌==◌, if◌then◌else◌,
}

abbrev pub u64 : ℕ
u64 = 2 ^ 64

unfoldable pub div_round_up : ℕ → ℕ → ℕ
div_round_up n d = if n == 0 then 0 else (1 + (n - 1) / d) % u64

unfoldable pub round_down_to : ℕ → ℕ → ℕ
round_down_to n d = n - n % d

unfoldable pub round_up_to : ℕ → ℕ → ℕ
round_up_to n d = let rem = n % d in if rem == 0 then n else (n + (d - rem)) % u64

unfoldable pub shift_round_up : ℕ → ℕ → ℕ
shift_round_up x y = ((x + 2 ^ y + u64 - 1) % u64) / 2 ^ y

-- Two's complement `-x`.
unfoldable pub neg64 : ℕ → ℕ
neg64 x = (u64 - x) % u64

unfoldable pub isp2 : ℕ → Bool
isp2 x = ltb 0 x && (bit_and x (x - 1) == 0)

unfoldable pub p2align : ℕ → ℕ → ℕ
unfolding neg64
p2align x align = bit_and x (neg64 align)

unfoldable pub p2phase : ℕ → ℕ → ℕ
p2phase x align = bit_and x (align - 1)

unfoldable pub p2nphase : ℕ → ℕ → ℕ
unfolding neg64
p2nphase x align = bit_and (neg64 x) (align - 1)

unfoldable pub p2roundup : ℕ → ℕ → ℕ
unfolding neg64
p2roundup x align = neg64 (bit_and (neg64 x) (neg64 align))

-- `cbits`: std::bit_width, the number of digits of a word that has at most `fuel` of them.
unfoldable pub bit_width : ℕ → ℕ → ℕ
bit_width zero v = 0
bit_width (suc fuel) v = let rest = bit_width fuel (v / 2) in if v == 0 then 0 else suc rest

unfoldable pub cbits : ℕ → ℕ
unfolding bit_width
cbits v = if v == 0 then 0 else bit_width 64 v
