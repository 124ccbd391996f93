-- ===== src/Common/Denc/Words.antt =====
-- The round trips of denc_signed_varint and denc_varint_lowz (common/denc.h).
use native.Mathlib.Nat.{mod-eq_of_lt}
use clab.Prelude.Bits.{bit_and-ones, bit_or-low}
use clab.Prelude.{
  ℕ, zero, suc, ◌+◌, ◌-◌, ◌*◌, ◌/◌, ◌%◌, ◌^◌, ◌≤◌, ◌<◌, min, bit_and, bit_or, ◌≡◌, refl, ap, ap₂,
  subst, ◌∙◌, inl, inr, Bool-cases, none, leb, ◌==◌, if◌then◌else◌, arith,
}
use clab.Common.Intarith.{u64, neg64}
use clab.Common.Denc.{
  read, map_decoded, shift_u64, shift_i64, write_bytes, put_varint, put_signed_varint,
  get_signed_varint, sign_word, unsign_word, ctz, low_nibbles, lowz_word, unlowz_word,
  put_varint_lowz, get_varint_lowz,
}
use clab.Common.Denc.Zeros.{DivisibleBy, ctz-divides, divides-fewer, divided}
use clab.Common.Denc.Reading.{Encodes, varint-ReadBack}

-- `|v|` of an int64_t
abbrev pub magnitude : ℕ → ℕ
magnitude v = if leb (2 ^ 63) v then u64 - v else v

pub shift_i64-div : (v : ℕ) → v < 2 ^ 63 → shift_i64 v ≡ v / 128
shift_i64-div v small = ground (arith, small)

pub neg64-sub : (v : ℕ) → 0 < v → v < u64 → neg64 v ≡ u64 - v
unfolding neg64
neg64-sub v h w = mod-eq_of_lt (omega arith)

set_low_bit : (a : ℕ) → bit_or (a * 2) 1 ≡ a * 2 + 1
set_low_bit a = bit_or-low 1 a 1 (omega arith)

pub low_bit : (a : ℕ) → bit_and a 1 ≡ a % 2
low_bit a = bit_and-ones 1 a

sign_word-magnitude :
    (v : ℕ)
    → v < u64
    → magnitude v < 2 ^ 63
    → sign_word v ≡ magnitude v * 2 + (if leb (2 ^ 63) v then 1 else 0)
sign_word-magnitude v word small = elim (Bool-cases (leb (2 ^ 63) v)) [
  | inl neg ↦
      rw (neg, neg64-sub v (ground (arith, neg)) word)
        (ap (λ (t : ℕ). bit_or t 1) (mod-eq_of_lt (ground (arith, neg, small)))
          ∙ set_low_bit (u64 - v))
  | inr pos ↦ rw pos (ground (arith, pos, small))
]

unsign_word-even : (m : ℕ) → m < 2 ^ 62 → unsign_word (m * 2) ≡ m
unsign_word-even m small = rw (low_bit (m * 2)) (ground arith)

unsign_word-odd : (m : ℕ) → 0 < m → m < 2 ^ 62 → unsign_word (m * 2 + 1) ≡ u64 - m
unsign_word-odd m some_left small =
    rw (low_bit (m * 2 + 1)) (ground (arith, neg64-sub m some_left (omega arith)))

unsign_word-sign_word : (v : ℕ) → v < u64 → magnitude v < 2 ^ 62 → unsign_word (sign_word v) ≡ v
unsign_word-sign_word v word small =
    ap unsign_word (sign_word-magnitude v word (omega (arith, small)))
    ∙ elim (Bool-cases (leb (2 ^ 63) v)) [
      | inl neg ↦
          let m = u64 - v in
          ap unsign_word (
            let e : magnitude v * 2 + (if leb (2 ^ 63) v then 1 else 0) ≡ m * 2 + 1 = rw neg refl in
            e)
          ∙ (unsign_word-odd m (omega arith) (ground (arith, neg, small)) ∙ omega arith)
      | inr pos ↦
          ap unsign_word (
            let e : magnitude v * 2 + (if leb (2 ^ 63) v then 1 else 0) ≡ v * 2 =
              rw pos (omega arith) in
            e)
          ∙ unsign_word-even v (ground (arith, pos, small))
    ]

-- A number of magnitude below 2 ^ 62 is written in nine bytes at most and read back with its sign,
-- and the bytes behind it are left.
pub get_signed_varint-put_signed_varint :
    (v : ℕ) → v < u64 → magnitude v < 2 ^ 62 → Encodes (put_signed_varint 8) get_signed_varint 9 v
unfolding put_signed_varint get_signed_varint
get_signed_varint-put_signed_varint v word small =
    let i = sign_word v in
    let fits : i < 2 ^ 63 =
      rw (sign_word-magnitude v word (omega (arith, small))) (ground (arith, small)) in
    let written =
      varint-ReadBack shift_i64 (2 ^ 63) shift_i64-div 8 i fits (omega arith) (omega arith) in
    (
      written.0,
      written.1,
      written.2,
      λ rest.
          ap (map_decoded unsign_word) (written.3 rest)
          ∙ ap (λ (t : ℕ). read t rest) (unsign_word-sign_word v word small),
    )

write_bytes-negative : (fuel byte v : ℕ) → 2 ^ 63 ≤ v → write_bytes shift_i64 fuel byte v ≡ none
unfolding write_bytes
write_bytes-negative zero byte v neg = ground (arith, neg)
write_bytes-negative (suc fuel) byte v neg =
    let rest = write_bytes-negative fuel (bit_and v 0x7F) (shift_i64 v) (ground (arith, neg)) in
    rw rest (ground (arith, neg))

-- For a number of magnitude from 2 ^ 62 on and below 2 ^ 63 the writer does not end, in whatever
-- number of rounds: the word that it shifts is negative and stays so.
pub put_signed_varint-diverges :
    (fuel v : ℕ)
    → v < u64
    → 2 ^ 62 ≤ magnitude v
    → magnitude v < 2 ^ 63
    → put_signed_varint fuel v ≡ none
unfolding put_signed_varint put_varint
put_signed_varint-diverges fuel v word large small =
    let neg : 2 ^ 63 ≤ sign_word v =
      rw (sign_word-magnitude v word small) (ground (arith, large)) in
    write_bytes-negative fuel (bit_and (sign_word v) 0x7F) (shift_i64 (sign_word v))
      (ground (arith, neg))

pub low_nibbles-divides : (v : ℕ) → DivisibleBy (low_nibbles v * 4) v
low_nibbles-divides v = elim (Bool-cases (v == 0)) [
  | inl none_set ↦ (0, ground (arith, none_set))
  | inr set ↦
      divides-fewer (ctz 64 v - low_nibbles v * 4) (low_nibbles v * 4) v
        (subst (λ (k : ℕ). DivisibleBy k v) (ground (arith, set)) (ctz-divides 64 v))
]

pub at_most_three : (n : ℕ) → min n 3 < 4
at_most_three n = omega arith

lowz_word-sum :
    (v : ℕ)
    → v / 2 ^ (low_nibbles v * 4) < 2 ^ 62
    → lowz_word v ≡ v / 2 ^ (low_nibbles v * 4) * 4 + low_nibbles v
unfolding lowz_word
lowz_word-sum v fits =
    let lowznib = low_nibbles v in
    let a = v / 2 ^ (lowznib * 4) in
    ap (λ (t : ℕ). bit_or t lowznib) (mod-eq_of_lt (let e : a * 4 < u64 = omega (arith, fits) in e))
    ∙ bit_or-low 2 a lowznib (at_most_three (if v == 0 then 0 else ctz 64 v / 4))

unlowz_word-sum : (a nib : ℕ) → nib < 4 → unlowz_word (a * 4 + nib) ≡ (a * 2 ^ (nib * 4)) % u64
unfolding unlowz_word
unlowz_word-sum a nib small =
    ap₂ (λ (s t : ℕ). (s * 2 ^ (t * 4)) % u64) (let e : (a * 4 + nib) / 4 ≡ a = omega arith in e)
      (bit_and-ones 2 (a * 4 + nib) ∙ omega arith)

unlowz_word-lowz_word :
    (v : ℕ) → v < u64 → v / 2 ^ (low_nibbles v * 4) < 2 ^ 62 → unlowz_word (lowz_word v) ≡ v
unlowz_word-lowz_word v word fits =
    let lowznib = low_nibbles v in
    ap unlowz_word (lowz_word-sum v fits)
    ∙ (unlowz_word-sum (v / 2 ^ (lowznib * 4)) lowznib
          (at_most_three (if v == 0 then 0 else ctz 64 v / 4))
        ∙ (ap (λ (t : ℕ). t % u64) (divided (lowznib * 4) v (low_nibbles-divides v))
            ∙ mod-eq_of_lt word))

-- A word of which less than 2 ^ 62 is left without its low nibbles is written in ten bytes at most
-- and read back.
pub get_varint_lowz-put_varint_lowz :
    (v : ℕ)
    → v < u64
    → v / 2 ^ (low_nibbles v * 4) < 2 ^ 62
    → Encodes (put_varint_lowz 9) get_varint_lowz 10 v
unfolding put_varint_lowz get_varint_lowz
get_varint_lowz-put_varint_lowz v word fits =
    let fits_word : lowz_word v < u64 =
      rw (lowz_word-sum v fits)
        (omega (arith, fits, at_most_three (if v == 0 then 0 else ctz 64 v / 4))) in
    let written =
      varint-ReadBack shift_u64 u64 (λ w small. refl) 9 (lowz_word v) fits_word fits_word
        (omega arith) in
    (
      written.0,
      written.1,
      written.2,
      λ rest.
          ap (map_decoded unlowz_word) (written.3 rest)
          ∙ ap (λ (t : ℕ). read t rest) (unlowz_word-lowz_word v word fits),
    )
