-- ===== src/Common/Denc/Signed.antt =====
-- The round trip of denc_signed_varint_lowz (common/denc.h).
use native.Mathlib.Nat.{mod-eq_of_lt}
use clab.Prelude.Bits.{bit_and-field, bit_or-low}
use clab.Prelude.{
  ℕ, ◌+◌, ◌-◌, ◌*◌, ◌/◌, ◌%◌, ◌^◌, ◌<◌, bit_and, bit_or, ◌≡◌, refl, sym, ap, ap₂, subst, ◌∙◌, inl,
  inr, Bool-cases, leb, ◌==◌, if◌then◌else◌, arith,
}
use clab.Common.Intarith.{u64, neg64}
use clab.Common.Denc.{
  read, map_decoded, shift_i64, ctz, low_nibbles, shift_right, absolute, sign_bit, signed_lowz,
  put_signed_varint_lowz, grown, unsigned_lowz, get_signed_varint_lowz,
}
use clab.Common.Denc.Zeros.{divided}
use clab.Common.Denc.Reading.{Encodes, varint-ReadBack}
use clab.Common.Denc.Words.{shift_i64-div, neg64-sub, low_bit, low_nibbles-divides, at_most_three}

shift_right-div : (v k : ℕ) → v < 2 ^ 63 → shift_right v k ≡ v / 2 ^ k
unfolding shift_right
shift_right-div v k small = ground (arith, small)

nibbles-lt : (v : ℕ) → low_nibbles v < 4
nibbles-lt v = at_most_three (if v == 0 then 0 else ctz 64 v / 4)

-- The word of a value that has `a` behind its zero nibbles.
signed_lowz-sum :
    (v s a : ℕ)
    → v < 2 ^ 63
    → s < 2
    → v / 2 ^ (low_nibbles v * 4) ≡ a
    → a < 2 ^ 60
    → signed_lowz v s ≡ a * 8 + low_nibbles v * 2 + s
unfolding signed_lowz
signed_lowz-sum v s a small sign rest fits =
    let n = low_nibbles v in
    ap (λ (t : ℕ). bit_or (bit_or ((t * 8) % u64) (n * 2)) s)
      (shift_right-div v (n * 4) small ∙ rest)
    ∙ (ap (λ (t : ℕ). bit_or (bit_or t (n * 2)) s) (mod-eq_of_lt (omega arith))
        ∙ (ap (λ (t : ℕ). bit_or t s)
              (bit_or-low 3 a (n * 2) (omega (arith, nibbles-lt v))
                ∙ (let e : a * 8 + n * 2 ≡ (a * 4 + n) * 2 = omega arith in e))
            ∙ (bit_or-low 1 (a * 4 + n) s sign ∙ omega arith)))

grown-sum :
    (a n s : ℕ) → n < 4 → s < 2 → a < 2 ^ 60 → grown (a * 8 + n * 2 + s) ≡ (a * 2 ^ (n * 4)) % u64
unfolding grown
grown-sum a n s nib sign fits =
    let i = a * 8 + n * 2 + s in
    ap₂ (λ (t u : ℕ). (t * 2 ^ (u * 4)) % u64) (shift_right-div i 3 (omega arith) ∙ omega arith)
      (ap (λ (t : ℕ). t / 2) (bit_and-field 1 2 i) ∙ omega arith)

unsigned_lowz-sum :
    (a n s : ℕ)
    → n < 4
    → s < 2
    → a < 2 ^ 60
    → a * 2 ^ (n * 4) < u64
    → unsigned_lowz (a * 8 + n * 2 + s)
      ≡ (if s == 0 then a * 2 ^ (n * 4) else neg64 (a * 2 ^ (n * 4)))
unfolding unsigned_lowz
unsigned_lowz-sum a n s nib sign fits word =
    let i = a * 8 + n * 2 + s in
    let value : grown i ≡ a * 2 ^ (n * 4) = grown-sum a n s nib sign fits ∙ mod-eq_of_lt word in
    let bit : bit_and i 1 ≡ s = low_bit i ∙ omega arith in rw (value, bit) refl

sign_bit-lt : (v : ℕ) → sign_bit v < 2
sign_bit-lt v = ground arith

signed-absolute :
    (v : ℕ) → v < u64 → (if sign_bit v == 0 then absolute v else neg64 (absolute v)) ≡ v
signed-absolute v word = elim (Bool-cases (leb (2 ^ 63) v)) [
  | inl neg ↦
      let path : neg64 v ≡ u64 - v = neg64-sub v (ground (arith, neg)) word in
      rw (neg, path, neg64-sub (u64 - v) (omega arith) (ground (arith, neg))) (omega arith)
  | inr pos ↦ rw pos refl
]

unsigned_lowz-signed_lowz :
    (v a : ℕ)
    → v < u64
    → absolute v < 2 ^ 63
    → absolute v / 2 ^ (low_nibbles (absolute v) * 4) ≡ a
    → a < 2 ^ 60
    → unsigned_lowz (signed_lowz (absolute v) (sign_bit v)) ≡ v
unsigned_lowz-signed_lowz v a word small rest fits =
    let w = absolute v in
    let n = low_nibbles w in
    let whole : a * 2 ^ (n * 4) ≡ w =
      ap (λ (t : ℕ). t * 2 ^ (n * 4)) (sym rest) ∙ divided (n * 4) w (low_nibbles-divides w) in
    ap unsigned_lowz (signed_lowz-sum w (sign_bit v) a small (sign_bit-lt v) rest fits)
    ∙ (unsigned_lowz-sum a n (sign_bit v) (nibbles-lt w) (sign_bit-lt v) fits
          (subst (λ (t : ℕ). t < u64) (sym whole) (omega (arith, small)))
        ∙ (ap (λ (t : ℕ). if sign_bit v == 0 then t else neg64 t) whole ∙ signed-absolute v word))

-- A number other than the least one, of which less than 2 ^ 60 is left without its sign and low
-- nibbles, is written in nine bytes at most and read back with its sign, and the bytes behind it
-- are left.
pub get_signed_varint_lowz-put_signed_varint_lowz :
    (v : ℕ)
    → v < u64
    → absolute v < 2 ^ 63
    → absolute v / 2 ^ (low_nibbles (absolute v) * 4) < 2 ^ 60
    → Encodes (put_signed_varint_lowz 8) get_signed_varint_lowz 9 v
unfolding put_signed_varint_lowz get_signed_varint_lowz
get_signed_varint_lowz-put_signed_varint_lowz v word small fits =
    let w = absolute v in
    let a = w / 2 ^ (low_nibbles w * 4) in
    let code = signed_lowz-sum w (sign_bit v) a small (sign_bit-lt v) refl fits in
    let bounded : signed_lowz w (sign_bit v) < 2 ^ 63 =
      rw code (omega (arith, fits, nibbles-lt w, sign_bit-lt v)) in
    let written =
      varint-ReadBack shift_i64 (2 ^ 63) shift_i64-div 8 (signed_lowz w (sign_bit v)) bounded
        (omega arith) (omega arith) in
    (
      written.0,
      written.1,
      written.2,
      λ rest.
          ap (map_decoded unsigned_lowz) (written.3 rest)
          ∙ ap (λ (t : ℕ). read t rest) (unsigned_lowz-signed_lowz v a word small refl fits),
    )
