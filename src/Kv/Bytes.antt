-- ===== src/Kv/Bytes.antt =====
-- std::string as its bytes: the order of std::map, and prefixes.
use clab.Prelude.{
  ℕ, ◌≡◌, refl, Bool, true, false, ◌&&◌, ◌||◌, List, [], ◌∷◌, arith, ltb, ◌==◌, bytes_beq,
}

abbrev pub Bytes : Type 0
Bytes = List ℕ

-- `a < b`
abbrev pub bytes_lt : Bytes → Bytes → Bool
bytes_lt [] [] = false
bytes_lt [] (b ∷ bs) = true
bytes_lt (a ∷ r) [] = false
bytes_lt (a ∷ r) (b ∷ bs) = ltb a b || ((a == b) && bytes_lt r bs)

-- `k.compare(0, p.size(), p) == 0`
abbrev pub starts_with : Bytes → Bytes → Bool
starts_with [] k = true
starts_with (b ∷ bs) [] = false
starts_with (b ∷ bs) (a ∷ r) = (a == b) && starts_with bs r

pub bytes_lt_irrefl : (a : Bytes) → bytes_lt a a ≡ false
bytes_lt_irrefl [] = refl
bytes_lt_irrefl (x ∷ r) = ground (arith, bytes_lt_irrefl r)

pub bytes_lt_trans :
    (a b c : Bytes) → bytes_lt a b ≡ true → bytes_lt b c ≡ true → bytes_lt a c ≡ true
bytes_lt_trans [] [] c h k = ground arith
bytes_lt_trans [] (y ∷ b) [] h k = ground arith
bytes_lt_trans [] (y ∷ b) (z ∷ c) h k = refl
bytes_lt_trans (x ∷ a) [] c h k = ground arith
bytes_lt_trans (x ∷ a) (y ∷ b) [] h k = ground arith
bytes_lt_trans (x ∷ a) (y ∷ b) (z ∷ c) h k = ground (arith, bytes_lt_trans a b c)

-- Of two different strings one is less.
pub bytes_total : (a b : Bytes) → bytes_lt a b ≡ false → bytes_lt b a ≡ false → bytes_beq a b ≡ true
bytes_total [] [] h k = refl
bytes_total [] (y ∷ b) h k = ground arith
bytes_total (x ∷ a) [] h k = ground arith
bytes_total (x ∷ a) (y ∷ b) h k = ground (arith, bytes_total a b)

pub starts_with_ge : (p k : Bytes) → starts_with p k ≡ true → bytes_lt k p ≡ false
starts_with_ge [] [] h = refl
starts_with_ge [] (a ∷ k) h = refl
starts_with_ge (b ∷ p) [] h = ground arith
starts_with_ge (b ∷ p) (a ∷ k) h = ground (arith, starts_with_ge p k)

-- Behind a string that is not below a prefix and does not have it, no string has it.
pub starts_with_over :
    (p k l : Bytes)
    → bytes_lt k p ≡ false
    → starts_with p k ≡ false
    → bytes_lt k l ≡ true
    → starts_with p l ≡ false
starts_with_over [] k l h n lt = ground arith
starts_with_over (b ∷ p) [] l h n lt = ground arith
starts_with_over (b ∷ p) (a ∷ k) [] h n lt = ground arith
starts_with_over (b ∷ p) (a ∷ k) (c ∷ l) h n lt = ground (arith, starts_with_over p k l)
