-- ===== src/Kv/MergeOp.antt =====
-- kv/merge_op/: the merge operators on values.
pub mod Words
pub mod Xor
use clab.Prelude.{ℕ, zero, suc, ◌+◌, ◌*◌, ◌/◌, ◌%◌, ◌^◌, min, bit_xor, [], ◌∷◌, ◌++◌, length, drop}
use clab.Kv.Bytes.{Bytes}

-- MergeOperator: what a missing value becomes, and how an operand changes a value.
pub record MergeOperator : Type 0 where
  pub merge_nonexistent : Bytes → Bytes
  pub merge : Bytes → Bytes → Bytes

-- XorMergeOperator::merge, over the bytes that both have.
unfoldable pub xor_merge : Bytes → Bytes → Bytes
xor_merge [] r = []
xor_merge (a ∷ l) [] = []
xor_merge (a ∷ l) (b ∷ r) = bit_xor a b ∷ xor_merge l r

abbrev pub xor_operator : MergeOperator
xor_operator = record { merge_nonexistent = λ r. r; merge = xor_merge }

-- An int64_t in memory, as its bit pattern.
unfoldable pub load : ℕ → Bytes → ℕ
load zero bs = 0
load (suc n) [] = 0
load (suc n) (b ∷ bs) = b + 256 * load n bs

unfoldable pub save : ℕ → ℕ → Bytes
save zero v = []
save (suc n) v = (v % 256) ∷ save n (v / 256)

-- The loop of Int64ArrayMergeOperator::merge over `count` words; the sum wraps.
unfoldable pub int64_words : ℕ → Bytes → Bytes → Bytes
unfolding load save
int64_words zero l r = []
int64_words (suc count) l r =
    save 8 ((load 8 l + load 8 r) % 2 ^ 64) ++ int64_words count (drop 8 l) (drop 8 r)

unfoldable pub int64_merge : Bytes → Bytes → Bytes
unfolding int64_words
int64_merge l r = int64_words (min (length l) (length r) / 8) l r

abbrev pub int64_operator : MergeOperator
int64_operator = record { merge_nonexistent = λ r. r; merge = int64_merge }
