-- ===== src/Common/Intarith/Powers.antt =====
-- p2align and p2roundup of common/intarith.h when the alignment is a power of two.
use native.Mathlib.Nat.{mod-lt, one-le-pow, mod-eq_of_lt, pow-le-pow_right}
use clab.Prelude.{
  ℕ, ◌+◌, ◌-◌, ◌%◌, ◌^◌, ◌<◌, ◌≤◌, ◌≡◌, refl, sym, ap, ◌∙◌, bit_and, inl, inr, arith, ◌==◌,
  Bool-cases,
}
use clab.Prelude.Bits.{bit_and-high}
use clab.Common.Intarith.{u64, neg64, p2align, p2roundup}

neg64-pos : (x : ℕ) → 0 < x → x ≤ u64 → neg64 x ≡ u64 - x
unfolding neg64
neg64-pos x pos le = mod-eq_of_lt (omega arith)

neg64-0 : neg64 0 ≡ 0
unfolding neg64
neg64-0 = refl

-- Taking `neg64` of the alignment as a mask.
mask_of : (k w a : ℕ) → k + w ≡ 64 → a < u64 → bit_and a (u64 - 2 ^ k) ≡ a - a % 2 ^ k
mask_of k w a sum small =
    let width : 2 ^ (k + w) ≡ u64 = ap (λ n. 2 ^ n) sum in
    ap (λ b. bit_and a (b - 2 ^ k)) (sym width) ∙ bit_and-high k w a (omega (arith, width))

power-le : (k w : ℕ) → k + w ≡ 64 → 2 ^ k ≤ u64
power-le k w sum = pow-le-pow_right (omega arith) (let e : k ≤ 64 = omega arith in e)

-- For a power of two, p2align gives the largest multiple of it that is not above the word.
pub p2align-power : (k w x : ℕ) → k + w ≡ 64 → x < u64 → p2align x (2 ^ k) ≡ x - x % 2 ^ k
unfolding p2align
p2align-power k w x sum small =
    ap (bit_and x) (neg64-pos (2 ^ k) (one-le-pow k 2 (omega arith)) (power-le k w sum))
    ∙ mask_of k w x sum small

-- For a power of two and a word whose sum is below 2^64, p2roundup gives a number that is at least
-- the word and less than the power above it.
pub p2roundup-power :
    (k w x : ℕ)
    → k + w ≡ 64
    → x + 2 ^ k < u64
    → (x ≤ p2roundup x (2 ^ k)) × (p2roundup x (2 ^ k) < x + 2 ^ k)
unfolding p2roundup
p2roundup-power k w x sum fits =
    let one = one-le-pow k 2 (omega arith) in
    let mask : neg64 (2 ^ k) ≡ u64 - 2 ^ k = neg64-pos (2 ^ k) one (power-le k w sum) in
    elim (Bool-cases (x == 0)) [
      | inl zero_start ↦
          let none : x ≡ 0 = ground arith in
          let up : p2roundup x (2 ^ k) ≡ 0 =
            ap (λ y. p2roundup y (2 ^ k)) none
            ∙ ap (λ y. neg64 (bit_and y (neg64 (2 ^ k)))) neg64-0
            ∙ ap (λ m. neg64 (bit_and 0 m)) mask
            ∙ ap neg64 (mask_of k w 0 sum (omega arith))
            ∙ ap neg64 (let e : 0 - 0 % 2 ^ k ≡ 0 = omega arith in e)
            ∙ neg64-0 in
          (omega (arith, up), omega (arith, up, one))
      | inr later ↦
          let y = u64 - x in
          let low = mod-lt y one in
          let pos : 0 < x = ground arith in
          let up : p2roundup x (2 ^ k) ≡ u64 - (y - y % 2 ^ k) =
            ap (λ z. neg64 (bit_and z (neg64 (2 ^ k)))) (neg64-pos x pos (omega arith))
            ∙ ap (λ m. neg64 (bit_and y m)) mask
            ∙ ap neg64 (mask_of k w y sum (omega arith))
            ∙ neg64-pos (y - y % 2 ^ k) (omega (arith, low)) (omega arith) in
          (omega (arith, up, low), omega (arith, up, low))
    ]
