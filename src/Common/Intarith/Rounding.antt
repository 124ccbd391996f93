-- ===== src/Common/Intarith/Rounding.antt =====
-- What the rounding functions promise, for a divisor of any size.
use native.Mathlib.Nat.{mod-add-div', mul-mod_left, mod-lt, suc-mul, mod-eq_of_lt}
use clab.Prelude.{
  ℕ, suc, ◌+◌, ◌-◌, ◌*◌, ◌/◌, ◌%◌, ◌^◌, ◌<◌, ◌≤◌, ◌≡◌, ap, ◌∙◌, inl, inr, arith, ◌==◌, Bool-cases,
}
use clab.Common.Intarith.{round_up_to, round_down_to}

-- If the number and a divisor that is not 0 have a sum below 2^64, round_up_to gives a multiple of
-- the divisor that is at least the number and less than a divisor above it.
pub round_up_to_lem :
    (n d : ℕ)
    → 0 < d
    → n + d < 2 ^ 64
    → (round_up_to n d % d ≡ 0) × (n ≤ round_up_to n d) × (round_up_to n d < n + d)
unfolding round_up_to
round_up_to_lem n d pos fits =
    let split = mod-add-div' n d in
    let small = mod-lt n pos in
    elim (Bool-cases (n % d == 0)) [
      | inl whole ↦ rw (round_up_to, whole) (ground arith, omega arith, omega arith)
      | inr part ↦
          let up = n + (d - n % d) in
          let multiple : up ≡ suc (n / d) * d = omega (arith, suc-mul (n / d) d, split, small) in
          let fit : up % 2 ^ 64 ≡ up = mod-eq_of_lt (ground (arith, small)) in
          rw (round_up_to, part, fit)
            (
              ap (λ k. k % d) multiple ∙ mul-mod_left (suc (n / d)) d,
              ground (arith, small),
              ground (arith, small),
            )
    ]

-- For a divisor that is not 0, round_down_to gives a multiple of it that is not above the number
-- and less than a divisor below it.
pub round_down_to_lem :
    (n d : ℕ)
    → 0 < d
    → (round_down_to n d % d ≡ 0) × (round_down_to n d ≤ n) × (n < round_down_to n d + d)
unfolding round_down_to
round_down_to_lem n d pos =
    let split = mod-add-div' n d in
    let small = mod-lt n pos in
    (
      ap (λ k. k % d) (let e : n - n % d ≡ n / d * d = omega (arith, split) in e)
          ∙ mul-mod_left (n / d) d,
      omega (arith, small, split),
      omega (arith, small, split),
    )
