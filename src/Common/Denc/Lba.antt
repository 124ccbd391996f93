-- ===== src/Common/Denc/Lba.antt =====
-- denc_lba (common/denc.h): an offset of a device in four bytes and a varint.
use clab.Prelude.{
  ℕ, ◌+◌, ◌-◌, ◌*◌, ◌/◌, ◌%◌, ◌^◌, bit_and, bit_or, ◌||◌, List, [], ◌∷◌, Option, none, some, ltb,
  ◌==◌, if◌then◌else◌,
}
use clab.Common.Intarith.{u64}
use clab.Common.Denc.{Decoded, end_of_buffer, shift_u64, put_varint, write_bytes, read_bytes, ctz}
pub mod RoundTrip

abbrev pub low_zero_nibbles : ℕ → ℕ
low_zero_nibbles v = if v == 0 then 0 else ctz 64 v / 4

-- What is left of the value when its zeros are gone, the width of the tag, and the tag.
abbrev pub parts_without : ℕ → ℕ → ℕ × ℕ × ℕ
parts_without nibbles v =
    if ltb nibbles 3
    then (v, 3, 7)
    else if ltb nibbles 6
    then (v / 2 ^ (nibbles * 4), nibbles - 3 + 1, 2 ^ (nibbles - 3) - 1)
    else (v / 2 ^ 20, 3, 3)

unfoldable pub lba_parts : ℕ → ℕ × ℕ × ℕ
unfolding ctz
lba_parts v = parts_without (low_zero_nibbles v) v

abbrev pub le32 : ℕ → List ℕ → List ℕ
le32 word bytes =
    word % 256 ∷ word / 256 % 256 ∷ word / 65_536 % 256 ∷ word / 16_777_216 % 256 ∷ bytes

abbrev pub le32_before : ℕ → Option (List ℕ) → Option (List ℕ)
le32_before word none = none
le32_before word (some bytes) = some (le32 word bytes)

-- The word, and what is left of the value behind it.
unfoldable pub put_word : ℕ → ℕ → ℕ → Option (List ℕ)
unfolding put_varint
put_word fuel word left =
    let rest = put_varint shift_u64 fuel left in
    if left == 0 then some (le32 word []) else le32_before (bit_or word 0x8000_0000) rest

unfoldable pub put_parts : ℕ → ℕ × ℕ × ℕ → Option (List ℕ)
unfolding put_word
put_parts fuel (v, pos, tag) =
    put_word fuel (bit_or tag (bit_and ((v * 2 ^ pos) % u64) 0x7FFF_FFFF)) (v / 2 ^ (31 - pos))

-- denc_lba into a buffer.
unfoldable pub put_lba : ℕ → ℕ → Option (List ℕ)
unfolding lba_parts put_parts
put_lba fuel v = put_parts fuel (lba_parts v)

-- The bits of the value in the word, in their place, and the place of the next.
unfoldable pub lba_start : ℕ → ℕ × ℕ
lba_start word =
    let tag = bit_and word 7 in
    if tag == 7
    then (bit_and word 0x7FFF_FFF8 / 2 ^ 3, 28)
    else if tag == 3
    then ((bit_and word 0x7FFF_FFF8 * 2 ^ (20 - 3)) % u64, 20 + 28)
    else if (tag == 1) || (tag == 5)
    then ((bit_and word 0x7FFF_FFFC * 2 ^ (16 - 2)) % u64, 16 + 29)
    else ((bit_and word 0x7FFF_FFFE * 2 ^ (12 - 1)) % u64, 12 + 30)

unfoldable pub read_from : ℕ → List ℕ → ℕ × ℕ → Decoded
unfolding read_bytes
read_from byte bytes (v, shift) = read_bytes byte v shift bytes

-- denc_lba from a buffer.
unfoldable pub get_lba : List ℕ → Decoded
unfolding lba_start read_from
get_lba (b ∷ c ∷ d ∷ e ∷ bytes) =
    let word = b + 256 * c + 65_536 * d + 16_777_216 * e in
    read_from (word / 16_777_216) bytes (lba_start word)
get_lba _ = end_of_buffer
