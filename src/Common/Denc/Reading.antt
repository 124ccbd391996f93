-- ===== src/Common/Denc/Reading.antt =====
-- The round trip of denc_varint (common/denc.h).
use native.Mathlib.Nat.{
  pow-le-pow_right, mul-le-mul_right, pow-suc, one-le-pow, mod-add-div', mod-eq_of_lt,
}
use clab.Prelude.Bits.{bit_and-ones, bit_and-high, bit_or-shift}
use clab.Prelude.{
  ℕ, zero, suc, ◌+◌, ◌*◌, ◌/◌, ◌%◌, ◌^◌, ◌≤◌, ◌<◌, bit_and, bit_or, ◌≡◌, refl, sym, ap, ◌∙◌, inl,
  inr, Bool, true, false, Bool-cases, List, [], ◌∷◌, ◌++◌, Option, none, some, length, ltb, arith,
}
use clab.Common.Intarith.{u64}
use clab.Common.Denc.{
  Decoded, read, shift_u64, consed, write_bytes, put_varint, read_bytes, get_varint,
}

pub low : (b : ℕ) → bit_and b 127 ≡ b % 128
low b = bit_and-ones 7 b

pub flag_clear : (b : ℕ) → b < 128 → bit_and b 128 ≡ 0
flag_clear b h = bit_and-high 7 1 b (omega arith) ∙ omega arith

pub flag_set : (b : ℕ) → b < 128 → bit_or b 128 ≡ b + 128
flag_set b h = bit_or-shift 7 b 1 h

flagged : (b : ℕ) → b < 128 → bit_and (b + 128) 128 ≡ 128
flagged b h = bit_and-high 7 1 (b + 128) (omega arith) ∙ omega arith

pow_128 : (k : ℕ) → 2 ^ (k + 7) ≡ 2 ^ k * 128
pow_128 zero = refl
pow_128 (suc k) =
    ap (λ (t : ℕ). 2 ^ t) (let e : suc k + 7 ≡ suc (k + 7) = omega arith in e)
    ∙ omega (arith, pow-suc 2 (k + 7), pow-suc 2 k, pow_128 k)

-- The two parts of a value at a position.
parts : (v p : ℕ) → v * p ≡ v % 128 * p + v / 128 * (p * 128)
parts v p = ap (λ (t : ℕ). t * p) (sym (mod-add-div' v 128)) ∙ omega arith

-- The bytes of a value, at most `n` behind the first, which the reader takes back.
abbrev pub ReadBack : (ℕ → ℕ) → ℕ → ℕ → ℕ → ℕ → ℕ → Type 0
ReadBack sh n byte v shift acc =
    (b : ℕ) × (bs : List ℕ) × (write_bytes sh n byte v ≡ some (b ∷ bs))
    × (length bs ≤ n)
    × (bit_and b 0x7F ≡ byte)
    × ((rest : List ℕ) → read_bytes b acc shift (bs ++ rest) ≡ read (acc + v * 2 ^ shift) rest)

pub read_last :
    (b v shift : ℕ) (rest : List ℕ) → bit_and b 128 ≡ 0 → read_bytes b v shift rest ≡ read v rest
unfolding read_bytes
read_last b v shift [] h = rw (read_bytes, h) refl
read_last b v shift (c ∷ rest) h = rw (read_bytes, h) refl

pub read_more :
    (b v shift c : ℕ) (rest : List ℕ)
    → bit_and b 128 ≡ 128
    → shift < 64
    → read_bytes b v shift (c ∷ rest)
      ≡ read_bytes c (bit_or v ((bit_and c 0x7F * 2 ^ shift) % u64)) (shift + 7) rest
unfolding read_bytes
read_more b v shift c rest h small = rw (read_bytes, h) (ground arith)

-- The writer ends with at most `n` bytes, and from these bytes with any others behind them the
-- reader takes the value and leaves the others.
abbrev pub Encodes : (ℕ → Option (List ℕ)) → (List ℕ → Decoded) → ℕ → ℕ → Type 0
Encodes put get n v =
    (bytes : List ℕ) × (put v ≡ some bytes)
    × (length bytes ≤ n)
    × ((rest : List ℕ) → get (bytes ++ rest) ≡ read v rest)

module _ (sh : ℕ → ℕ) (m : ℕ) (halves : (v : ℕ) → v < m → sh v ≡ v / 128) where
  write_last : (n byte : ℕ) → byte < 128 → write_bytes sh n byte 0 ≡ some (byte ∷ [])
  unfolding write_bytes
  write_last zero byte h = refl
  write_last (suc n) byte h = refl

  last_ReadBack : (n byte shift acc : ℕ) → byte < 128 → ReadBack sh n byte 0 shift acc
  last_ReadBack n byte shift acc h = (
    byte,
    [],
    write_last n byte h,
    omega arith,
    low byte ∙ omega arith,
    λ rest.
        read_last byte acc shift rest (flag_clear byte h)
        ∙ ap (λ (t : ℕ). read t rest) (let e : acc ≡ acc + 0 * 2 ^ shift = omega arith in e),
  )

  pub write_more :
      (n byte v : ℕ)
      → 0 < v
      → v < m
      → write_bytes sh (suc n) byte v
        ≡ consed (bit_or byte 0x80) (write_bytes sh n (v % 128) (v / 128))
  unfolding write_bytes
  write_more n byte v some_left small = rw (write_bytes, halves v small, low v) (ground arith)

  more_ReadBack :
      (n byte v shift acc : ℕ)
      → byte < 128
      → 0 < v
      → v < m
      → shift < 64
      → v * 2 ^ shift < u64
      → acc < 2 ^ shift
      → ReadBack sh n (v % 128) (v / 128) (shift + 7) (acc + v % 128 * 2 ^ shift)
      → ReadBack sh (suc n) byte v shift acc
  more_ReadBack n byte v shift acc h some_left small at fits low_acc
        (c, cs, writes, short, same, reads) =
      let p = 2 ^ shift in
      let digit : bit_or acc ((bit_and c 0x7F * p) % u64) ≡ acc + v % 128 * p =
        ap (λ (t : ℕ). bit_or acc ((t * p) % u64)) same
        ∙ (ap (bit_or acc)
              (mod-eq_of_lt (let e : v % 128 * p < u64 = omega (arith, parts v p) in e))
            ∙ bit_or-shift shift acc (v % 128) low_acc) in
      let value : acc + v % 128 * p + v / 128 * 2 ^ (shift + 7) ≡ acc + v * p =
        ap (λ (t : ℕ). acc + v % 128 * p + v / 128 * t) (pow_128 shift)
        ∙ omega (arith, parts v p) in
      (
        byte + 128,
        c ∷ cs,
        write_more n byte v some_left small
            ∙ (ap (consed (bit_or byte 0x80)) writes
                ∙ ap (λ (t : ℕ). some (t ∷ c ∷ cs)) (flag_set byte h)),
        omega arith,
        low (byte + 128) ∙ omega arith,
        λ rest.
            read_more (byte + 128) acc shift c (cs ++ rest) (flagged byte h) at
            ∙ (ap (λ (t : ℕ). read_bytes c t (shift + 7) (cs ++ rest)) digit
                ∙ (reads rest ∙ ap (λ (t : ℕ). read t rest) value)),
      )

  exponent_small : (v shift : ℕ) → 0 < v → v * 2 ^ shift < u64 → shift < 64
  exponent_small v shift some_left fits = elim (Bool-cases (ltb shift 64)) [
    | inl small ↦ ground (arith, small)
    | inr large ↦
        let at : 64 ≤ shift = ground (arith, large) in
        let high : 2 ^ 64 ≤ 2 ^ shift = pow-le-pow_right (omega arith) at in
        let whole : 1 * 2 ^ shift ≤ v * 2 ^ shift = mul-le-mul_right (2 ^ shift) some_left in
        absurd (omega (arith, high, whole))
  ]

  pub write_bytes-ReadBack :
      (n byte v shift acc : ℕ)
      → byte < 128
      → v < m
      → v < 128 ^ n
      → v * 2 ^ shift < u64
      → acc < 2 ^ shift
      → ReadBack sh n byte v shift acc
  write_bytes-ReadBack n byte zero shift acc h small length fits low_acc =
      last_ReadBack n byte shift acc h
  write_bytes-ReadBack zero byte (suc v) shift acc h small length fits low_acc =
      absurd (omega (arith, length))
  write_bytes-ReadBack (suc n) byte (suc v) shift acc h small length fits low_acc =
      let p = 2 ^ shift in
      let w = suc v in
      let digit : w % 128 * p ≤ 127 * p =
        mul-le-mul_right p (let e : w % 128 ≤ 127 = omega arith in e) in
      more_ReadBack n byte w shift acc h (omega arith) small
        (exponent_small w shift (omega arith) fits) fits low_acc
        (write_bytes-ReadBack n (w % 128) (w / 128) (shift + 7) (acc + w % 128 * p) (omega arith)
          (omega arith) (omega (arith, pow-suc 128 n))
          (rw (pow_128 shift) (omega (arith, parts w p)))
          (rw (pow_128 shift) (omega (arith, digit))))

  varint_of :
      (n v : ℕ)
      → v < m
      → ReadBack sh n (v % 128) (v / 128) 7 (v % 128)
      → Encodes (put_varint sh n) get_varint (suc n) v
  unfolding put_varint get_varint
  varint_of n v small (b, bs, writes, short, same, reads) = (
    b ∷ bs,
    rw (low v, halves v small) writes,
    omega arith,
    λ rest.
        ap (λ (t : ℕ). read_bytes b t 7 (bs ++ rest)) same
        ∙ (reads rest ∙ ap (λ (t : ℕ). read t rest) (omega arith)),
  )

  pub varint-ReadBack :
      (n v : ℕ)
      → v < m
      → v < u64
      → v / 128 < 128 ^ n
      → Encodes (put_varint sh n) get_varint (suc n) v
  varint-ReadBack n v small word length = varint_of n v small (
      write_bytes-ReadBack n (v % 128) (v / 128) 7 (v % 128) (omega arith) (omega arith) length
        (omega arith) (omega arith))

-- A word is written in ten bytes at most and read back, and the bytes behind it are left.
pub get_varint-put_varint : (v : ℕ) → v < u64 → Encodes (put_varint shift_u64 9) get_varint 10 v
get_varint-put_varint v word =
    varint-ReadBack shift_u64 u64 (λ w small. refl) 9 v word word (omega arith)

write_bytes-long : (n byte v : ℕ) → 128 ^ n ≤ v → write_bytes shift_u64 n byte v ≡ none
unfolding write_bytes
write_bytes-long zero byte v long = ground (arith, long)
write_bytes-long (suc n) byte v long =
    let rest = write_bytes-long n (bit_and v 0x7F) (v / 128) (omega (arith, pow-suc 128 n)) in
    rw rest (ground (arith, pow-suc 128 n, one-le-pow n 128))

-- The writer ends with its bytes.
abbrev pub is_written : Option (List ℕ) → Bool
is_written none = false
is_written (some bytes) = true

-- A word is written within the bound of nine bytes exactly when it is below 2 ^ 63.
pub put_varint-within_bound :
    (v : ℕ) → v < u64 → is_written (put_varint shift_u64 8 v) ≡ ltb v (2 ^ 63)
unfolding put_varint
put_varint-within_bound v word = elim (Bool-cases (ltb v (2 ^ 63))) [
  | inl small ↦
      let written =
        varint-ReadBack shift_u64 u64 (λ w small. refl) 8 v word word (ground (arith, small)) in
      rw written.1 (sym small)
  | inr large ↦
      rw (write_bytes-long 8 (bit_and v 0x7F) (v / 128) (ground (arith, large))) (sym large)
]
