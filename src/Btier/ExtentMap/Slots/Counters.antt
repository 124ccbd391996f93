-- ===== src/Btier/ExtentMap/Slots/Counters.antt =====
-- What each update of a metrics word does to its five fields.
use clab.Prelude.{ℕ, ◌+◌, ◌%◌, ◌^◌, ◌<◌, ◌≡◌, min, arith}
use clab.Prelude.Bits.{bit_and-ones}
use clab.Btier.Types.{
  IoOp, read, write, pack, access_count, write_count, randomness, state, generation,
}
use clab.Btier.Types.Pack.{
  access_count-eq, write_count-eq, randomness-eq, state-eq, generation-eq, fields-pack, pack-lt,
}
use clab.Btier.ExtentMap.{bump_generation}
use clab.Btier.ExtentMap.Slots.{count_io, put_randomness}

-- The fields of a 64-bit word lie in their ranges.
pub fields-lt :
    (v : ℕ)
    → v < 2 ^ 64
    → (access_count v < 2 ^ 12)
      × (write_count v < 2 ^ 12)
      × (randomness v < 2 ^ 6)
      × (state v < 2 ^ 2)
      × (generation v < 2 ^ 32)
fields-lt v h =
    omega (arith, access_count-eq v, write_count-eq v, randomness-eq v, state-eq v, generation-eq v)

-- A word that has the five fields.
pub record Fields (v access writes random st gen : ℕ) : Type 0 where
  pub access_field : access_count v ≡ access
  pub write_field : write_count v ≡ writes
  pub random_field : randomness v ≡ random
  pub state_field : state v ≡ st
  pub gen_field : generation v ≡ gen
  pub word : v < 2 ^ 64

-- Packing values that fit their fields.
pub pack-Fields :
    (a w r s g : ℕ)
    → a < 2 ^ 12
    → w < 2 ^ 12
    → r < 2 ^ 6
    → s < 2 ^ 2
    → g < 2 ^ 32
    → Fields (pack a w r s g) a w r s g
pack-Fields a w r s g ha hw hr hs hg =
    let f = fields-pack a w r s g in
    record {
      access_field = omega arith;
      write_field = omega arith;
      random_field = omega arith;
      state_field = omega arith;
      gen_field = omega arith;
      word = pack-lt a w r s g;
    }

-- For a 64-bit metrics word: a use adds one to the access count, a write also one to the write
-- count; both stop at 4095, and the other fields stay.
pub count_io-Fields :
    (v : ℕ) (op : IoOp)
    → v < 2 ^ 64
    → Fields
        (count_io v op)
        (min (access_count v + 1) 4095)
        (elim op [ read ↦ write_count v | write ↦ min (write_count v + 1) 4095 ])
        (randomness v)
        (state v)
        (generation v)
unfolding count_io
count_io-Fields v read h =
    let f = fields-lt v h in
    pack-Fields _ _ _ _ _ (omega arith) (omega arith) (omega arith) (omega arith) (omega arith)
count_io-Fields v write h =
    let f = fields-lt v h in
    pack-Fields _ _ _ _ _ (omega arith) (omega arith) (omega arith) (omega arith) (omega arith)

-- For a 64-bit metrics word: the new word has the six low bits of the given randomness and the
-- other fields of the old word.
pub put_randomness-Fields :
    (v r : ℕ)
    → v < 2 ^ 64
    → Fields
        (put_randomness v r)
        (access_count v)
        (write_count v)
        (r % 2 ^ 6)
        (state v)
        (generation v)
unfolding put_randomness
put_randomness-Fields v r h =
    let f = fields-lt v h in
    let masked = bit_and-ones 6 r in
    rw masked
      (pack-Fields _ _ _ _ _ (omega arith) (omega arith) (omega arith) (omega arith) (omega arith))

-- For a 64-bit metrics word: bump_generation counts the generation modulo 2^32 and keeps the other
-- fields.
pub bump_generation-Fields :
    (v : ℕ)
    → v < 2 ^ 64
    → Fields
        (bump_generation v)
        (access_count v)
        (write_count v)
        (randomness v)
        (state v)
        ((generation v + 1) % 2 ^ 32)
unfolding bump_generation
bump_generation-Fields v h =
    let f = fields-lt v h in
    let p =
      fields-pack (access_count v) (write_count v) (randomness v) (state v) (generation v + 1) in
    record {
      access_field = omega arith;
      write_field = omega arith;
      random_field = omega arith;
      state_field = omega arith;
      gen_field = omega arith;
      word = pack-lt (access_count v) (write_count v) (randomness v) (state v) (generation v + 1);
    }
