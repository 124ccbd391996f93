-- ===== src/Common/Denc/Lba/RoundTrip.antt =====
-- The round trip of denc_lba (common/denc.h).
use clab.Prelude.Bits.{bit_and-ones, bit_and-field, bit_or-shift}
use clab.Prelude.{
  ℕ, zero, suc, ◌+◌, ◌-◌, ◌*◌, ◌/◌, ◌%◌, ◌^◌, ◌≤◌, ◌<◌, bit_and, bit_or, ◌≡◌, refl, sym, ap, ap₂,
  subst, ◌∙◌, inl, inr, ◌⊎◌, Bool-cases, List, [], ◌∷◌, ◌++◌, Option, none, some, length, ltb, ◌==◌,
  arith,
}
use clab.Common.Intarith.{u64}
use clab.Common.Denc.{ctz, read, shift_u64, consed, write_bytes, put_varint}
use clab.Common.Denc.Reading.{
  Encodes, write_bytes-ReadBack, read_last, flag_clear, flag_set, write_more, low,
}
use clab.Common.Denc.Zeros.{DivisibleBy, ctz-divides, divides-fewer, divided}
use clab.Common.Denc.Lba.{
  low_zero_nibbles, lba_parts, parts_without, le32, put_word, put_parts, put_lba, lba_start,
  read_from, get_lba,
}

-- The tags, with bit 31 set or not.
abbrev IsFlag : ℕ → Type 0
IsFlag f = (f ≡ 0) ⊎ (f ≡ 2 ^ 31)

start_bytes : (m f : ℕ) → m < 2 ^ 28 → IsFlag f → lba_start (7 + m * 8 + f) ≡ (m, 28)
unfolding lba_start
start_bytes m f small flag =
    let word = 7 + m * 8 + f in
    let tag : bit_and word 7 ≡ 7 = bit_and-ones 3 word ∙ ground arith in
    let field : bit_and word 0x7FFF_FFF8 ≡ m * 8 = bit_and-field 3 28 word ∙ ground arith in
    rw (tag, field) (ground arith)

start_20 : (m f : ℕ) → m < 2 ^ 28 → IsFlag f → lba_start (3 + m * 8 + f) ≡ ((m * 2 ^ 20) % u64, 48)
unfolding lba_start
start_20 m f small flag =
    let word = 3 + m * 8 + f in
    let tag : bit_and word 7 ≡ 3 = bit_and-ones 3 word ∙ ground arith in
    let field : bit_and word 0x7FFF_FFF8 ≡ m * 8 = bit_and-field 3 28 word ∙ ground arith in
    rw (tag, field) (ground arith)

-- The two tags of one kind differ in the lowest bit of the value.
start_16 : (m f : ℕ) → m < 2 ^ 29 → IsFlag f → lba_start (1 + m * 4 + f) ≡ ((m * 2 ^ 16) % u64, 45)
unfolding lba_start
start_16 m f small flag =
    let word = 1 + m * 4 + f in
    let tag : bit_and word 7 ≡ 1 + m % 2 * 4 = bit_and-ones 3 word ∙ ground arith in
    let field : bit_and word 0x7FFF_FFFC ≡ m * 4 = bit_and-field 2 29 word ∙ ground arith in
    rw (tag, field) (ground arith)

start_12 : (m f : ℕ) → m < 2 ^ 30 → IsFlag f → lba_start (m * 2 + f) ≡ ((m * 2 ^ 12) % u64, 42)
unfolding lba_start
start_12 m f small flag =
    let word = m * 2 + f in
    let tag : bit_and word 7 ≡ m % 4 * 2 = bit_and-ones 3 word ∙ ground arith in
    let field : bit_and word 0x7FFF_FFFE ≡ m * 2 = bit_and-field 1 30 word ∙ ground arith in
    rw (tag, field) (ground arith)

consed-some :
    (a b : ℕ) (o : Option (List ℕ)) (bs : List ℕ)
    → consed a o ≡ some (b ∷ bs)
    → (a ≡ b) × (o ≡ some bs)
consed-some a b none bs h = absurd (ground (arith, h))
consed-some a b (some cs) bs h = (ground (arith, h), ground (arith, h))

get_lba-word :
    (word : ℕ) (bytes : List ℕ)
    → word < 2 ^ 32
    → get_lba (le32 word bytes) ≡ read_from (word / 16_777_216) bytes (lba_start word)
unfolding get_lba
get_lba-word word bytes small =
    let whole : word % 256
          + 256 * (word / 256 % 256)
          + 65_536 * (word / 65_536 % 256)
          + 16_777_216 * (word / 16_777_216 % 256)
        ≡ word =
      omega arith in
    rw whole refl

abbrev LbaBytes : Option (List ℕ) → ℕ → Type 0
LbaBytes o v =
    (bytes : List ℕ) × (o ≡ some bytes)
    × (length bytes ≤ 10)
    × ((rest : List ℕ) → get_lba (bytes ++ rest) ≡ read v rest)

-- A word of 31 bits and what is left, when the reader's start is the same with the flag and
-- without.
module _ (word v0 shift v : ℕ) (small : word < 2 ^ 31) (low_start : v0 < 2 ^ shift)
    (start : lba_start word ≡ (v0, shift))
    (flagged_start : lba_start (word + 2 ^ 31) ≡ (v0, shift)) where
  one_word : v0 ≡ v → LbaBytes (put_word 5 word 0) v
  unfolding put_word read_from
  one_word value = (
    le32 word [],
    refl,
    omega arith,
    λ rest.
        get_lba-word word rest (omega arith)
        ∙ (ap (read_from (word / 16_777_216) rest) start
            ∙ (read_last (word / 16_777_216) v0 shift rest
                  (flag_clear (word / 16_777_216) (omega arith))
                ∙ ap (λ (t : ℕ). read t rest) value)),
  )

  more_words :
      (left : ℕ)
      → 0 < left
      → left < 128 ^ 6
      → left * 2 ^ shift < u64
      → v0 + left * 2 ^ shift ≡ v
      → LbaBytes (put_word 5 word left) v
  unfolding put_word put_varint read_from
  more_words left some_left length fits value =
      let byte = word / 16_777_216 in
      let back =
        write_bytes-ReadBack shift_u64 (128 ^ 6) (λ w h. refl) 6 byte left shift v0 (omega arith)
          length length fits low_start in
      let (b, bs, writes, short, same, reads) = back in
      let parts =
        consed-some (bit_or byte 0x80) b (write_bytes shift_u64 5 (left % 128) (left / 128)) bs (
          sym (write_more shift_u64 (128 ^ 6) (λ w h. refl) 5 byte left some_left length)
          ∙ writes) in
      let flagged : bit_or word 0x8000_0000 ≡ word + 2 ^ 31 = bit_or-shift 31 word 1 small in
      let top : (word + 2 ^ 31) / 16_777_216 ≡ b =
        (let e : (word + 2 ^ 31) / 16_777_216 ≡ byte + 128 = omega arith in e)
        ∙ (sym (flag_set byte (omega arith)) ∙ parts.0) in
      (
        le32 (word + 2 ^ 31) bs,
        rw (flagged, low left, parts.1) (ground (arith, some_left)),
        omega arith,
        λ rest.
            get_lba-word (word + 2 ^ 31) (bs ++ rest) (omega arith)
            ∙ (ap₂ (λ (t : ℕ) s. read_from t (bs ++ rest) s) top flagged_start
                ∙ (reads rest ∙ ap (λ (t : ℕ). read t rest) value)),
      )

  either :
      (left : ℕ)
      → left < 128 ^ 6
      → left * 2 ^ shift < u64
      → v0 + left * 2 ^ shift ≡ v
      → LbaBytes (put_word 5 word left) v
  either zero length fits value = one_word (omega (arith, value))
  either (suc left) length fits value = more_words (suc left) (omega arith) length fits value

without_flag : (word : ℕ) (s : ℕ × ℕ) → lba_start (word + 0) ≡ s → lba_start word ≡ s
without_flag word s h = ap lba_start (let e : word ≡ word + 0 = omega arith in e) ∙ h

-- The four kinds of parts.
parts_bytes : (v : ℕ) → v < u64 → LbaBytes (put_parts 5 (v, 3, 7)) v
unfolding put_parts
parts_bytes v word =
    let m = v % 2 ^ 28 in
    let small : m < 2 ^ 28 = omega arith in
    let code : bit_or 7 (bit_and ((v * 2 ^ 3) % u64) 0x7FFF_FFFF) ≡ 7 + m * 8 =
      ap (bit_or 7) (bit_and-ones 31 ((v * 2 ^ 3) % u64) ∙ omega arith)
      ∙ bit_or-shift 3 7 m (omega arith) in
    subst (λ (t : ℕ). LbaBytes (put_word 5 t (v / 2 ^ 28)) v) (sym code)
      (either (7 + m * 8) m 28 v (omega arith) (omega arith)
        (without_flag (7 + m * 8) (m, 28) (start_bytes m 0 small (inl refl)))
        (start_bytes m (2 ^ 31) small (inr refl)) (v / 2 ^ 28) (omega arith) (omega arith)
        (omega arith))

parts_12 : (v : ℕ) → v * 2 ^ 12 < u64 → LbaBytes (put_parts 5 (v, 1, 0)) (v * 2 ^ 12)
unfolding put_parts
parts_12 v fits =
    let m = v % 2 ^ 30 in
    let v0 = (m * 2 ^ 12) % u64 in
    let small : m < 2 ^ 30 = omega arith in
    let code : bit_or 0 (bit_and ((v * 2 ^ 1) % u64) 0x7FFF_FFFF) ≡ m * 2 =
      ap (bit_or 0) (bit_and-ones 31 ((v * 2 ^ 1) % u64) ∙ omega arith)
      ∙ (bit_or-shift 1 0 m (omega arith) ∙ omega arith) in
    subst (λ (t : ℕ). LbaBytes (put_word 5 t (v / 2 ^ 30)) (v * 2 ^ 12)) (sym code)
      (either (m * 2) v0 42 (v * 2 ^ 12) (omega arith) (omega arith)
        (without_flag (m * 2) (v0, 42) (start_12 m 0 small (inl refl)))
        (start_12 m (2 ^ 31) small (inr refl)) (v / 2 ^ 30) (omega arith) (omega arith)
        (omega arith))

parts_16 : (v : ℕ) → v * 2 ^ 16 < u64 → LbaBytes (put_parts 5 (v, 2, 1)) (v * 2 ^ 16)
unfolding put_parts
parts_16 v fits =
    let m = v % 2 ^ 29 in
    let v0 = (m * 2 ^ 16) % u64 in
    let small : m < 2 ^ 29 = omega arith in
    let code : bit_or 1 (bit_and ((v * 2 ^ 2) % u64) 0x7FFF_FFFF) ≡ 1 + m * 4 =
      ap (bit_or 1) (bit_and-ones 31 ((v * 2 ^ 2) % u64) ∙ omega arith)
      ∙ bit_or-shift 2 1 m (omega arith) in
    subst (λ (t : ℕ). LbaBytes (put_word 5 t (v / 2 ^ 29)) (v * 2 ^ 16)) (sym code)
      (either (1 + m * 4) v0 45 (v * 2 ^ 16) (omega arith) (omega arith)
        (without_flag (1 + m * 4) (v0, 45) (start_16 m 0 small (inl refl)))
        (start_16 m (2 ^ 31) small (inr refl)) (v / 2 ^ 29) (omega arith) (omega arith)
        (omega arith))

parts_20 : (v : ℕ) → v * 2 ^ 20 < u64 → LbaBytes (put_parts 5 (v, 3, 3)) (v * 2 ^ 20)
unfolding put_parts
parts_20 v fits =
    let m = v % 2 ^ 28 in
    let v0 = (m * 2 ^ 20) % u64 in
    let small : m < 2 ^ 28 = omega arith in
    let code : bit_or 3 (bit_and ((v * 2 ^ 3) % u64) 0x7FFF_FFFF) ≡ 3 + m * 8 =
      ap (bit_or 3) (bit_and-ones 31 ((v * 2 ^ 3) % u64) ∙ omega arith)
      ∙ bit_or-shift 3 3 m (omega arith) in
    subst (λ (t : ℕ). LbaBytes (put_word 5 t (v / 2 ^ 28)) (v * 2 ^ 20)) (sym code)
      (either (3 + m * 8) v0 48 (v * 2 ^ 20) (omega arith) (omega arith)
        (without_flag (3 + m * 8) (v0, 48) (start_20 m 0 small (inl refl)))
        (start_20 m (2 ^ 31) small (inr refl)) (v / 2 ^ 28) (omega arith) (omega arith)
        (omega arith))

shifted :
    (z pos tag v : ℕ)
    → DivisibleBy z v
    → v < u64
    → ((w : ℕ) → w * 2 ^ z < u64 → LbaBytes (put_parts 5 (w, pos, tag)) (w * 2 ^ z))
    → LbaBytes (put_parts 5 (v / 2 ^ z, pos, tag)) v
shifted z pos tag v d word back =
    let path = divided z v d in
    subst (λ (t : ℕ). LbaBytes (put_parts 5 (v / 2 ^ z, pos, tag)) t) path
      (back (v / 2 ^ z) (subst (λ (t : ℕ). t < u64) (sym path) word))

zeros : (v z : ℕ) → z ≤ low_zero_nibbles v * 4 → DivisibleBy z v
zeros v z many = elim (Bool-cases (v == 0)) [
  | inl none_set ↦ (0, ground (arith, none_set))
  | inr set ↦
      divides-fewer (ctz 64 v - z) z v
        (subst (λ (k : ℕ). DivisibleBy k v) (ground (arith, set, many)) (ctz-divides 64 v))
]

middle-LbaBytes :
    (n v : ℕ)
    → 3 ≤ n
    → n < 6
    → v < u64
    → ((z : ℕ) → z ≤ n * 4 → DivisibleBy z v)
    → LbaBytes (put_parts 5 (v / 2 ^ (n * 4), n - 3 + 1, 2 ^ (n - 3) - 1)) v
middle-LbaBytes n v low high word divs = elim (Bool-cases (n == 3)) [
  | inl three ↦
      rw (let e : n ≡ 3 = ground (arith, three) in e)
        (shifted 12 1 0 v (divs 12 (omega arith)) word parts_12)
  | inr not_three ↦ elim (Bool-cases (n == 4)) [
    | inl four ↦
        rw (let e : n ≡ 4 = ground (arith, four) in e)
          (shifted 16 2 1 v (divs 16 (ground (arith, four))) word parts_16)
    | inr not_four ↦
        let five : n ≡ 5 = ground (arith, not_three, not_four) in
        rw five (shifted 20 3 3 v (divs 20 (omega (arith, five))) word parts_20)
  ]
]

parts-LbaBytes :
    (n v : ℕ)
    → v < u64
    → ((z : ℕ) → z ≤ n * 4 → DivisibleBy z v)
    → LbaBytes (put_parts 5 (parts_without n v)) v
parts-LbaBytes n v word divs = elim (Bool-cases (ltb n 3)) [
  | inl few ↦ rw few (parts_bytes v word)
  | inr many ↦ elim (Bool-cases (ltb n 6)) [
    | inl middle ↦
        rw (many, middle)
          (middle-LbaBytes n v (ground (arith, many)) (ground (arith, middle)) word divs)
    | inr high ↦ rw (many, high) (shifted 20 3 3 v (divs 20 (ground (arith, high))) word parts_20)
  ]
]

-- Every word is written in ten bytes at most, which is the bound of denc_lba, and read back, and
-- the bytes behind it are left.
pub get_lba-put_lba : (v : ℕ) → v < u64 → Encodes (put_lba 5) get_lba 10 v
unfolding put_lba lba_parts
get_lba-put_lba v word = parts-LbaBytes (low_zero_nibbles v) v word (zeros v)
