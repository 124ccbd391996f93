-- ===== src/Kv/MergeOp/Xor.antt =====
-- XorMergeOperator on strings of bytes.
use clab.Prelude.{ℕ, ◌<◌, ◌^◌, ◌≡◌, refl, ap₂, List, [], ◌∷◌, length, take}
use clab.Prelude.Bits.{bit_xor-cancel}
use clab.Kv.Bytes.{Bytes}
use clab.Kv.MergeOp.{xor_merge}

abbrev pub AllBytes : Bytes → Type 0
AllBytes [] = Unit {0}
AllBytes (b ∷ bs) = (b < 2 ^ 8) × AllBytes bs

-- Merging an operand of bytes into a value of bytes twice leaves the bytes of the value that the
-- operand covers.
pub xor_merge-twice :
    (l r : Bytes) → AllBytes l → AllBytes r → xor_merge (xor_merge l r) r ≡ take (length r) l
unfolding xor_merge
xor_merge-twice [] [] hl hr = refl
xor_merge-twice [] (b ∷ r) hl hr = refl
xor_merge-twice (a ∷ l) [] hl hr = refl
xor_merge-twice (a ∷ l) (b ∷ r) hl hr =
    ap₂ (λ (x : ℕ) (xs : List ℕ). x ∷ xs) (bit_xor-cancel 8 a b hl.0 hr.0)
      (xor_merge-twice l r hl.1 hr.1)
