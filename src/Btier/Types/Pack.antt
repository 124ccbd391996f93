-- ===== src/Btier/Types/Pack.antt =====
-- The fields of the metrics word of btier/btier_types.h.
use native.Mathlib.Nat.{mod-eq_of_lt}
use clab.Prelude.{ℕ, ◌+◌, ◌*◌, ◌/◌, ◌%◌, ◌^◌, ◌<◌, bit_or, ◌≡◌, refl, arith}
use clab.Prelude.Bits.{bit_or-shift, bit_and-ones}
use clab.Btier.Types.{pack, access_count, write_count, randomness, state, generation}

pub access_count-eq : (v : ℕ) → access_count v ≡ v % 2 ^ 12
unfolding access_count
access_count-eq v = bit_and-ones 12 v

pub write_count-eq : (v : ℕ) → write_count v ≡ v / 2 ^ 12 % 2 ^ 12
unfolding write_count
write_count-eq v = bit_and-ones 12 (v / 2 ^ 12)

pub randomness-eq : (v : ℕ) → randomness v ≡ v / 2 ^ 24 % 2 ^ 6
unfolding randomness
randomness-eq v = bit_and-ones 6 (v / 2 ^ 24)

pub state-eq : (v : ℕ) → state v ≡ v / 2 ^ 30 % 2 ^ 2
unfolding state
state-eq v = bit_and-ones 2 (v / 2 ^ 30)

pub generation-eq : (v : ℕ) → generation v ≡ v / 2 ^ 32
unfolding generation
generation-eq v = refl

pub ruleset fields = (access_count-eq, write_count-eq, randomness-eq, state-eq, generation-eq)

or_shl :
    (k a b : ℕ) → a < 2 ^ k → b * 2 ^ k < 2 ^ 64 → bit_or a ((b * 2 ^ k) % 2 ^ 64) ≡ a + b * 2 ^ k
or_shl k a b low fits = rw (mod-eq_of_lt fits) (bit_or-shift k a b low)

-- The `|` of the shifted fields is their sum.
pub pack-eq :
    (a w r s g : ℕ)
    → pack a w r s g
      ≡ a % 2 ^ 12
        + w % 2 ^ 12 * 2 ^ 12
        + r % 2 ^ 6 * 2 ^ 24
        + s % 2 ^ 2 * 2 ^ 30
        + g % 2 ^ 32 * 2 ^ 32
unfolding pack
pack-eq a w r s g = rw (
  bit_and-ones 12 a,
  bit_and-ones 12 w,
  bit_and-ones 6 r,
  bit_and-ones 2 s,
  bit_and-ones 32 g,
  or_shl 12 (a % 2 ^ 12) (w % 2 ^ 12) (omega arith) (omega arith),
  or_shl 24 (a % 2 ^ 12 + w % 2 ^ 12 * 2 ^ 12) (r % 2 ^ 6) (omega arith) (omega arith),
  or_shl 30 (a % 2 ^ 12 + w % 2 ^ 12 * 2 ^ 12 + r % 2 ^ 6 * 2 ^ 24) (s % 2 ^ 2) (omega arith)
      (omega arith),
  or_shl 32 (a % 2 ^ 12 + w % 2 ^ 12 * 2 ^ 12 + r % 2 ^ 6 * 2 ^ 24 + s % 2 ^ 2 * 2 ^ 30)
      (g % 2 ^ 32) (omega arith) (omega arith),
)

pub pack-lt : (a w r s g : ℕ) → pack a w r s g < 2 ^ 64
pack-lt a w r s g = omega (arith, pack-eq a w r s g)

-- What pack was given, cut to the width of each field, is what the accessors read.
pub fields-pack :
    (a w r s g : ℕ)
    → (access_count (pack a w r s g) ≡ a % 2 ^ 12)
      × (write_count (pack a w r s g) ≡ w % 2 ^ 12)
      × (randomness (pack a w r s g) ≡ r % 2 ^ 6)
      × (state (pack a w r s g) ≡ s % 2 ^ 2)
      × (generation (pack a w r s g) ≡ g % 2 ^ 32)
fields-pack a w r s g = omega (
  arith,
  pack-eq a w r s g,
  access_count-eq (pack a w r s g),
  write_count-eq (pack a w r s g),
  randomness-eq (pack a w r s g),
  state-eq (pack a w r s g),
  generation-eq (pack a w r s g),
)

-- Packing the five fields of a 64-bit word gives the word back.
pub pack-fields :
    (v : ℕ)
    → v < 2 ^ 64
    → pack (access_count v) (write_count v) (randomness v) (state v) (generation v) ≡ v
pack-fields v h = omega (
  arith,
  pack-eq (access_count v) (write_count v) (randomness v) (state v) (generation v),
  access_count-eq v,
  write_count-eq v,
  randomness-eq v,
  state-eq v,
  generation-eq v,
)
