-- ===== src/Kv/MergeOp/Words.antt =====
-- Int64ArrayMergeOperator on arrays of words.
use native.Mathlib.Nat.{pow-suc}
use clab.Prelude.{
  ℕ, zero, suc, ◌+◌, ◌*◌, ◌/◌, ◌%◌, ◌^◌, ◌<◌, ◌≡◌, refl, ap, ap₂, ◌∙◌, min, List, [], ◌∷◌, ◌++◌,
  length, drop, drop-append, length-append, arith,
}
use clab.Kv.Bytes.{Bytes}
use clab.Kv.MergeOp.{load, save, int64_words, int64_merge}

-- The first `n` words of an array.
abbrev pub words : ℕ → Bytes → List ℕ
words zero bs = []
words (suc n) bs = load 8 bs ∷ words n (drop 8 bs)

abbrev pub add_words : List ℕ → List ℕ → List ℕ
add_words (a ∷ l) (b ∷ r) = ((a + b) % 2 ^ 64) ∷ add_words l r
add_words _ _ = []

length-save : (n v : ℕ) → length (save n v) ≡ n
unfolding save
length-save zero v = refl
length-save (suc n) v = ap suc (length-save n (v / 256))

load-save : (n v : ℕ) (rest : Bytes) → v < 256 ^ n → load n (save n v ++ rest) ≡ v
unfolding load save
load-save zero v rest h = omega arith
load-save (suc n) v rest h =
    rw (load-save n (v / 256) rest (omega (arith, pow-suc 256 n))) (omega arith)

drop-save : (n v : ℕ) (rest : Bytes) → drop n (save n v ++ rest) ≡ rest
drop-save n v rest =
    ap (λ k. drop k (save n v ++ rest))
      (let e : n ≡ length (save n v) = omega (arith, length-save n v) in e)
    ∙ drop-append (save n v) rest

int64_words-add :
    (n : ℕ) (l r : Bytes) → words n (int64_words n l r) ≡ add_words (words n l) (words n r)
unfolding int64_words
int64_words-add zero l r = refl
int64_words-add (suc n) l r =
    let sum = (load 8 l + load 8 r) % 2 ^ 64 in
    let rest = int64_words n (drop 8 l) (drop 8 r) in
    ap₂ (λ (x : ℕ) (xs : List ℕ). x ∷ xs) (load-save 8 sum rest (omega arith))
      (ap (words n) (drop-save 8 sum rest) ∙ int64_words-add n (drop 8 l) (drop 8 r))

length-int64_words : (n : ℕ) (l r : Bytes) → length (int64_words n l r) ≡ 8 * n
unfolding int64_words
length-int64_words zero l r = omega arith
length-int64_words (suc n) l r =
    let sum = (load 8 l + load 8 r) % 2 ^ 64 in
    omega (
      arith,
      length-append (save 8 sum) (int64_words n (drop 8 l) (drop 8 r)),
      length-save 8 sum,
      length-int64_words n (drop 8 l) (drop 8 r),
    )

-- The merge of two int64 arrays has as many words as both have, and each is the sum of theirs,
-- modulo 2^64.
pub int64_merge-add :
    (l r : Bytes)
    → let n = min (length l) (length r) / 8 in
      (length (int64_merge l r) ≡ 8 * n)
      × (words n (int64_merge l r) ≡ add_words (words n l) (words n r))
unfolding int64_merge
int64_merge-add l r =
    let n = min (length l) (length r) / 8 in (length-int64_words n l r, int64_words-add n l r)
