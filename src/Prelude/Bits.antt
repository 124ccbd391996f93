-- ===== src/Prelude/Bits.antt =====
-- What `|` and `&` do to the fields of a word, for every value: the library has these operations
-- only on numerals.
use Prim.Native.Nat.{
  ℕ, zero, suc, ◌+◌, ◌-◌, ◌*◌, ◌/◌, ◌%◌, ◌^◌, ◌≤◌, ◌<◌, min, max, bit_and, bit_or, digits,
  bit_or-bitwise, bit_and-bitwise, bit_xor, bit_xor-bitwise, differ,
}
use mathlib.Core.Path.{◌≡◌, refl, sym, ap, ap₂, ◌∙◌}
use native.Mathlib.Nat.{pow-suc, one-le-pow, mod-eq_of_lt, mod-add-div', mod-lt}
use native.Mathlib.Omega.{arith}

-- The recursion on binary digits behind a native operation, at any two amounts of fuel.
fuel_irrelevant :
    (low : ℕ → ℕ) (bit : ℕ → ℕ → ℕ) (x y a b : ℕ)
    → a ≤ x
    → a ≤ y
    → digits low bit x a b ≡ digits low bit y a b
fuel_irrelevant low bit zero zero a b p q = refl
fuel_irrelevant low bit zero (suc y) zero b p q = refl
fuel_irrelevant low bit zero (suc y) (suc a) b p q = absurd (omega arith)
fuel_irrelevant low bit (suc x) zero zero b p q = refl
fuel_irrelevant low bit (suc x) zero (suc a) b p q = absurd (omega arith)
fuel_irrelevant low bit (suc x) (suc y) zero b p q = refl
fuel_irrelevant low bit (suc x) (suc y) (suc a) b p q =
    ap (λ (t : ℕ). t * 2 + bit (suc a % 2) (b % 2))
      (fuel_irrelevant low bit x y (suc a / 2) (b / 2) (omega arith) (omega arith))

zero-bit_or : (b : ℕ) → bit_or 0 b ≡ b
zero-bit_or b = bit_or-bitwise 0 b

zero-bit_and : (b : ℕ) → bit_and 0 b ≡ 0
zero-bit_and b = bit_and-bitwise 0 b

or_digit : (a b : ℕ) → bit_or a b ≡ bit_or (a / 2) (b / 2) * 2 + max (a % 2) (b % 2)
or_digit zero b = omega (arith, zero-bit_or b, zero-bit_or (b / 2))
or_digit (suc a) b = omega (
  arith,
  bit_or-bitwise (suc a) b,
  bit_or-bitwise (suc a / 2) (b / 2),
  fuel_irrelevant (λ y. y) max a (suc a / 2) (suc a / 2) (b / 2) (omega arith) (omega arith),
)

and_digit : (a b : ℕ) → bit_and a b ≡ bit_and (a / 2) (b / 2) * 2 + min (a % 2) (b % 2)
and_digit zero b = omega (arith, zero-bit_and b, zero-bit_and (b / 2))
and_digit (suc a) b = omega (
  arith,
  bit_and-bitwise (suc a) b,
  bit_and-bitwise (suc a / 2) (b / 2),
  fuel_irrelevant (λ y. 0) min a (suc a / 2) (suc a / 2) (b / 2) (omega arith) (omega arith),
)

pub double_shift : (b k : ℕ) → b * 2 ^ suc k ≡ 2 * (b * 2 ^ k)
double_shift b k = omega (arith, ap (λ (t : ℕ). b * t) (pow-suc 2 k))

-- `a | (b << k)` is a sum when `a` lies below bit `k`.
pub bit_or-shift : (k a b : ℕ) → a < 2 ^ k → bit_or a (b * 2 ^ k) ≡ a + b * 2 ^ k
bit_or-shift zero zero b h = ground (arith, zero-bit_or b)
bit_or-shift zero (suc a) b h = absurd (omega arith)
bit_or-shift (suc k) a b h = ground (
  arith,
  or_digit a (b * 2 ^ suc k),
  double_shift b k,
  pow-suc 2 k,
  bit_or-shift k (a / 2) b (omega (arith, pow-suc 2 k)),
)

bit_or-zero : (n a : ℕ) → a ≤ n → bit_or a 0 ≡ a
bit_or-zero n zero h = zero-bit_or 0
bit_or-zero zero (suc a) h = absurd (omega arith)
bit_or-zero (suc n) (suc a) h =
    ground (arith, or_digit (suc a) 0, bit_or-zero n (suc a / 2) (omega arith))

-- The high field first.
pub bit_or-low : (k a b : ℕ) → b < 2 ^ k → bit_or (a * 2 ^ k) b ≡ a * 2 ^ k + b
bit_or-low zero a zero h = ground (arith, bit_or-zero a a (omega arith))
bit_or-low zero a (suc b) h = absurd (omega arith)
bit_or-low (suc k) a b h = ground (
  arith,
  or_digit (a * 2 ^ suc k) b,
  double_shift a k,
  pow-suc 2 k,
  bit_or-low k a (b / 2) (omega (arith, pow-suc 2 k)),
)

bit_and-comm_zero : (n a : ℕ) → a ≤ n → bit_and a 0 ≡ 0
bit_and-comm_zero n zero h = zero-bit_and 0
bit_and-comm_zero zero (suc a) h = absurd (omega arith)
bit_and-comm_zero (suc n) (suc a) h =
    omega (arith, and_digit (suc a) 0, bit_and-comm_zero n (suc a / 2) (omega arith))

-- A mask of `k` ones takes the low field of a sum, and so the remainder by `2 ^ k`.
mask_low : (k r q : ℕ) → r < 2 ^ k → bit_and (r + q * 2 ^ k) (2 ^ k - 1) ≡ r
mask_low zero r q h = ground (arith, bit_and-comm_zero (r + q) (r + q) (omega arith))
mask_low (suc k) r q h = ground (
  arith,
  and_digit (r + q * 2 ^ suc k) (2 ^ suc k - 1),
  double_shift q k,
  pow-suc 2 k,
  one-le-pow k 2,
  mask_low k (r / 2) q (omega (arith, pow-suc 2 k)),
)

pub bit_and-ones : (k a : ℕ) → bit_and a (2 ^ k - 1) ≡ a % 2 ^ k
bit_and-ones k a = ground (arith, one-le-pow k 2, mask_low k (a % 2 ^ k) (a / 2 ^ k))

zero-bit_xor : (b : ℕ) → bit_xor 0 b ≡ b
zero-bit_xor b = bit_xor-bitwise 0 b

xor_digit : (a b : ℕ) → bit_xor a b ≡ bit_xor (a / 2) (b / 2) * 2 + differ (a % 2) (b % 2)
xor_digit zero b = omega (arith, zero-bit_xor b, zero-bit_xor (b / 2))
xor_digit (suc a) b = omega (
  arith,
  bit_xor-bitwise (suc a) b,
  bit_xor-bitwise (suc a / 2) (b / 2),
  fuel_irrelevant (λ y. y) differ a (suc a / 2) (suc a / 2) (b / 2) (omega arith) (omega arith),
)

differ-le : (x y : ℕ) → x ≤ 1 → y ≤ 1 → differ x y ≤ 1
differ-le zero y p q = q
differ-le (suc x) zero p q = p
differ-le (suc x) (suc y) p q = differ-le x y (omega arith) (omega arith)

-- `^` stays within the width of its operands.
pub bit_xor-lt : (k a b : ℕ) → a < 2 ^ k → b < 2 ^ k → bit_xor a b < 2 ^ k
bit_xor-lt zero zero b p q = ground (arith, zero-bit_xor b)
bit_xor-lt zero (suc a) b p q = absurd (omega arith)
bit_xor-lt (suc k) a b p q = omega (
  arith,
  xor_digit a b,
  pow-suc 2 k,
  differ-le (a % 2) (b % 2) (omega arith) (omega arith),
  bit_xor-lt k (a / 2) (b / 2) (omega (arith, pow-suc 2 k)) (omega (arith, pow-suc 2 k)),
)

differ-cancel : (x y : ℕ) → x ≤ 1 → y ≤ 1 → differ (differ x y) y ≡ x
differ-cancel zero zero p q = refl
differ-cancel zero (suc zero) p q = refl
differ-cancel zero (suc (suc y)) p q = absurd (omega arith)
differ-cancel (suc zero) zero p q = refl
differ-cancel (suc zero) (suc zero) p q = refl
differ-cancel (suc zero) (suc (suc y)) p q = absurd (omega arith)
differ-cancel (suc (suc x)) y p q = absurd (omega arith)

-- A second `^` with the same number undoes the first.
pub bit_xor-cancel : (k a b : ℕ) → a < 2 ^ k → b < 2 ^ k → bit_xor (bit_xor a b) b ≡ a
bit_xor-cancel zero zero zero p q = ground (arith, zero-bit_xor 0)
bit_xor-cancel zero zero (suc b) p q = absurd (omega arith)
bit_xor-cancel zero (suc a) b p q = absurd (omega arith)
bit_xor-cancel (suc k) a b p q =
    let x = bit_xor a b in
    let d = differ (a % 2) (b % 2) in
    let small = differ-le (a % 2) (b % 2) (omega arith) (omega arith) in
    let digit = xor_digit a b in
    let half : x / 2 ≡ bit_xor (a / 2) (b / 2) = omega (arith, digit, small) in
    let odd : x % 2 ≡ d = omega (arith, digit, small) in
    omega (
      arith,
      xor_digit x b,
      ap (λ z. bit_xor z (b / 2)) half,
      ap (λ z. differ z (b % 2)) odd,
      differ-cancel (a % 2) (b % 2) (omega arith) (omega arith),
      bit_xor-cancel k (a / 2) (b / 2) (omega (arith, pow-suc 2 k)) (omega (arith, pow-suc 2 k)),
    )

mask_high :
    (k w r q : ℕ)
    → r < 2 ^ k
    → r + q * 2 ^ k < 2 ^ (k + w)
    → bit_and (r + q * 2 ^ k) (2 ^ (k + w) - 2 ^ k) ≡ q * 2 ^ k
mask_high zero w r q h p =
    let width : 2 ^ (0 + w) ≡ 2 ^ w = ap (λ n. 2 ^ n) (let e : 0 + w ≡ w = omega arith in e) in
    let whole : (r + q) % 2 ^ w ≡ r + q = mod-eq_of_lt (omega (arith, width)) in
    ap₂ bit_and (let e : r + q * 2 ^ 0 ≡ r + q = omega arith in e)
      (let e : 2 ^ (0 + w) - 2 ^ 0 ≡ 2 ^ w - 1 = omega (arith, width) in e)
    ∙ (bit_and-ones w (r + q) ∙ (whole ∙ omega arith))
mask_high (suc k) w r q h p =
    let width : 2 ^ (suc k + w) ≡ 2 * 2 ^ (k + w) =
      ap (λ n. 2 ^ n) (let e : suc k + w ≡ suc (k + w) = omega arith in e)
      ∙ omega (arith, pow-suc 2 (k + w)) in
    ground (
      arith,
      width,
      and_digit (r + q * 2 ^ suc k) (2 ^ (suc k + w) - 2 ^ suc k),
      double_shift q k,
      pow-suc 2 k,
      mask_high k w (r / 2) q (omega (arith, pow-suc 2 k)) (omega (arith, width, double_shift q k)),
    )

-- A mask with `k` zeros below ones takes the low field away.
pub bit_and-high : (k w a : ℕ) → a < 2 ^ (k + w) → bit_and a (2 ^ (k + w) - 2 ^ k) ≡ a - a % 2 ^ k
bit_and-high k w a h =
    let split = mod-add-div' a (2 ^ k) in
    let small = mod-lt a (one-le-pow k 2 (omega arith)) in
    ap (λ b. bit_and b (2 ^ (k + w) - 2 ^ k)) (sym split)
    ∙ mask_high k w (a % 2 ^ k) (a / 2 ^ k) small (omega (arith, split))
    ∙ omega (arith, split)

mod_digit : (k a : ℕ) → a % 2 ^ suc k ≡ a / 2 % 2 ^ k * 2 + a % 2
mod_digit k a = ground (
  arith,
  sym (bit_and-ones (suc k) a),
  and_digit a (2 ^ suc k - 1),
  bit_and-ones k (a / 2),
  pow-suc 2 k,
  one-le-pow k 2,
)

-- A mask of `w` ones above `k` zeros takes a field out.
pub bit_and-field : (k w a : ℕ) → bit_and a (2 ^ (k + w) - 2 ^ k) ≡ a % 2 ^ (k + w) - a % 2 ^ k
bit_and-field zero w a =
    let width : 2 ^ (0 + w) ≡ 2 ^ w = ap (λ n. 2 ^ n) (let e : 0 + w ≡ w = omega arith in e) in
    rw width (bit_and-ones w a ∙ omega arith)
bit_and-field (suc k) w a =
    let width : 2 ^ (suc k + w) ≡ 2 ^ suc (k + w) =
      ap (λ n. 2 ^ n) (let e : suc k + w ≡ suc (k + w) = omega arith in e) in
    rw width (
      ground (
        arith,
        and_digit a (2 ^ suc (k + w) - 2 ^ suc k),
        mod_digit (k + w) a,
        mod_digit k a,
        pow-suc 2 k,
        pow-suc 2 (k + w),
        bit_and-field k w (a / 2),
      ))
