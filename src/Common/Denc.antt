-- ===== src/Common/Denc.antt =====
-- common/denc.h: the integers of variable length, at 64 bits. A word is a number below 2 ^ 64, and
-- an int64_t is its two's complement.
use clab.Prelude.{
  ℕ, zero, suc, ◌+◌, ◌-◌, ◌*◌, ◌/◌, ◌%◌, ◌^◌, min, bit_and, bit_or, List, [], ◌∷◌, Option, none,
  some, ltb, leb, ◌==◌, if◌then◌else◌,
}
use clab.Common.Intarith.{u64, neg64}
pub mod Reading
pub mod Zeros
pub mod Words
pub mod Signed
pub mod Lba

-- What a reader makes of the bytes from its position on: a value and the bytes behind it, an
-- exception at the end of the buffer, or a shift by 64 or more, which has no meaning.
pub data Decoded : Type 0 where
  read : ℕ → List ℕ → Decoded
  end_of_buffer undefined : Decoded

-- `v >>= 7` of a uint64_t, and of an int64_t, which keeps the sign.
abbrev pub shift_u64 : ℕ → ℕ
shift_u64 v = v / 128

abbrev pub shift_i64 : ℕ → ℕ
shift_i64 v = if leb (2 ^ 63) v then v / 128 + (2 ^ 64 - 2 ^ 57) else v / 128

abbrev pub consed : ℕ → Option (List ℕ) → Option (List ℕ)
consed b none = none
consed b (some bs) = some (b ∷ bs)

-- The loop of the writer, for at most `fuel` bytes more than the one it holds.
unfoldable pub write_bytes : (ℕ → ℕ) → ℕ → ℕ → ℕ → Option (List ℕ)
write_bytes shift zero byte v = if v == 0 then some (byte ∷ []) else none
write_bytes shift (suc fuel) byte v =
    let rest = write_bytes shift fuel (bit_and v 0x7F) (shift v) in
    if v == 0 then some (byte ∷ []) else consed (bit_or byte 0x80) rest

-- denc_varint into a buffer, with the right shift of its type.
unfoldable pub put_varint : (ℕ → ℕ) → ℕ → ℕ → Option (List ℕ)
unfolding write_bytes
put_varint shift fuel v = write_bytes shift fuel (bit_and v 0x7F) (shift v)

-- The loop of the reader behind `byte`.
unfoldable pub read_bytes : ℕ → ℕ → ℕ → List ℕ → Decoded
read_bytes byte v shift [] = if bit_and byte 0x80 == 0 then read v [] else end_of_buffer
read_bytes byte v shift (b ∷ bs) =
    let more = read_bytes b (bit_or v ((bit_and b 0x7F * 2 ^ shift) % u64)) (shift + 7) bs in
    if bit_and byte 0x80 == 0 then read v (b ∷ bs) else if leb 64 shift then undefined else more

-- denc_varint from a buffer.
unfoldable pub get_varint : List ℕ → Decoded
unfolding read_bytes
get_varint [] = end_of_buffer
get_varint (b ∷ bs) = read_bytes b (bit_and b 0x7F) 7 bs

abbrev pub map_decoded : (ℕ → ℕ) → Decoded → Decoded
map_decoded f (read v bs) = read (f v) bs
map_decoded f end_of_buffer = end_of_buffer
map_decoded f undefined = undefined

-- denc_signed_varint
abbrev pub sign_word : ℕ → ℕ
sign_word v = if leb (2 ^ 63) v then bit_or ((neg64 v * 2) % u64) 1 else (v * 2) % u64

unfoldable pub put_signed_varint : ℕ → ℕ → Option (List ℕ)
unfolding put_varint neg64
put_signed_varint fuel v = put_varint shift_i64 fuel (sign_word v)

-- `i >> 1` of an int64_t
abbrev pub half_i64 : ℕ → ℕ
half_i64 i = if leb (2 ^ 63) i then i / 2 + 2 ^ 63 else i / 2

abbrev pub unsign_word : ℕ → ℕ
unsign_word i = if bit_and i 1 == 0 then half_i64 i else neg64 (half_i64 i)

unfoldable pub get_signed_varint : List ℕ → Decoded
unfolding get_varint neg64
get_signed_varint bytes = map_decoded unsign_word (get_varint bytes)

-- ctz of a word of at most `fuel` digits
unfoldable pub ctz : ℕ → ℕ → ℕ
ctz zero v = 0
ctz (suc fuel) v = let rest = ctz fuel (v / 2) in if v % 2 == 0 then suc rest else 0

-- The zero nibbles that are left out: three at most.
abbrev pub low_nibbles : ℕ → ℕ
low_nibbles v = min (if v == 0 then 0 else ctz 64 v / 4) 3

-- denc_varint_lowz
unfoldable pub lowz_word : ℕ → ℕ
unfolding ctz
lowz_word v = let lowznib = low_nibbles v in bit_or (((v / 2 ^ (lowznib * 4)) * 4) % u64) lowznib

unfoldable pub put_varint_lowz : ℕ → ℕ → Option (List ℕ)
unfolding put_varint lowz_word
put_varint_lowz fuel v = put_varint shift_u64 fuel (lowz_word v)

unfoldable pub unlowz_word : ℕ → ℕ
unlowz_word i = ((i / 4) * 2 ^ (bit_and i 3 * 4)) % u64

unfoldable pub get_varint_lowz : List ℕ → Decoded
unfolding get_varint unlowz_word
get_varint_lowz bytes = map_decoded unlowz_word (get_varint bytes)

-- `v >>= k` of an int64_t
unfoldable pub shift_right : ℕ → ℕ → ℕ
shift_right v k = if leb (2 ^ 63) v then v / 2 ^ k + (2 ^ 64 - 2 ^ (64 - k)) else v / 2 ^ k

abbrev pub absolute : ℕ → ℕ
absolute v = if leb (2 ^ 63) v then neg64 v else v

abbrev pub sign_bit : ℕ → ℕ
sign_bit v = if leb (2 ^ 63) v then 1 else 0

-- denc_signed_varint_lowz, of the absolute value and the sign
unfoldable pub signed_lowz : ℕ → ℕ → ℕ
unfolding ctz shift_right
signed_lowz v negative =
    let lowznib = low_nibbles v in
    bit_or (bit_or ((shift_right v (lowznib * 4) * 8) % u64) (lowznib * 2)) negative

unfoldable pub put_signed_varint_lowz : ℕ → ℕ → Option (List ℕ)
unfolding put_varint neg64 signed_lowz
put_signed_varint_lowz fuel v = put_varint shift_i64 fuel (signed_lowz (absolute v) (sign_bit v))

-- The value of a word without its sign, and with it.
unfoldable pub grown : ℕ → ℕ
unfolding shift_right
grown i = (shift_right i 3 * 2 ^ (bit_and i 6 / 2 * 4)) % u64

unfoldable pub unsigned_lowz : ℕ → ℕ
unfolding neg64 grown
unsigned_lowz i = if bit_and i 1 == 0 then grown i else neg64 (grown i)

unfoldable pub get_signed_varint_lowz : List ℕ → Decoded
unfolding get_varint unsigned_lowz
get_signed_varint_lowz bytes = map_decoded unsigned_lowz (get_varint bytes)
