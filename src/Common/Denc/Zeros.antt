-- ===== src/Common/Denc/Zeros.antt =====
-- The zeros that ctz of common/intarith.h counts are a power of two in the word.
use native.Mathlib.Nat.{div-eq_of_eq-mul_left, one-le-pow}
use clab.Prelude.Bits.{double_shift}
use clab.Prelude.{
  ℕ, zero, suc, ◌+◌, ◌*◌, ◌/◌, ◌%◌, ◌^◌, ◌≡◌, sym, ap, subst, ◌∙◌, inl, inr, Bool-cases, ◌==◌,
  arith,
}
use clab.Common.Denc.{ctz}

abbrev pub DivisibleBy : ℕ → ℕ → Type 0
DivisibleBy k v = (q : ℕ) × (v ≡ q * 2 ^ k)

pub ctz-divides : (fuel v : ℕ) → DivisibleBy (ctz fuel v) v
unfolding ctz
ctz-divides zero v = (v, omega arith)
ctz-divides (suc fuel) v = elim (Bool-cases (v % 2 == 0)) [
  | inl even ↦
      let (q, path) = ctz-divides fuel (v / 2) in
      rw even (q, ground (arith, even, path, double_shift q (ctz fuel (v / 2))))
  | inr odd ↦ rw odd (v, omega arith)
]

pub divides-fewer : (k j v : ℕ) → DivisibleBy (k + j) v → DivisibleBy j v
divides-fewer zero j v d =
    subst (λ (k : ℕ). DivisibleBy k v) (let e : 0 + j ≡ j = omega arith in e) d
divides-fewer (suc k) j v d =
    let (q, path) =
      subst (λ (k : ℕ). DivisibleBy k v) (let e : suc k + j ≡ suc (k + j) = omega arith in e) d in
    divides-fewer k j v (
      q * 2,
      path
          ∙ omega (
            arith,
            double_shift q (k + j),
            ap (λ (t : ℕ). t * 2 ^ (k + j)) (let e : q * 2 ≡ 2 * q = omega arith in e),
          ),
    )

pub divided : (k v : ℕ) → DivisibleBy k v → v / 2 ^ k * 2 ^ k ≡ v
divided k v d =
    ap (λ (t : ℕ). t * 2 ^ k) (div-eq_of_eq-mul_left (one-le-pow k 2 (omega arith)) d.1) ∙ sym d.1
