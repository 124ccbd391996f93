-- ===== src/Tests/Denc.antt =====
-- Concrete inputs for the integers of variable length (common/denc.h).
use clab.Prelude.{◌+◌, ◌-◌, ◌*◌, ◌^◌, ◌≡◌, refl, false, [], ◌∷◌, none, some, arith}
use clab.Common.Intarith.{neg64}
use clab.Common.Denc.{
  ctz, put_signed_varint_lowz, get_signed_varint_lowz, undefined, end_of_buffer, shift_u64,
  put_varint, get_varint, put_signed_varint, get_signed_varint,
}
use clab.Common.Denc.Reading.{Encodes, is_written, get_varint-put_varint, put_varint-within_bound}
use clab.Common.Denc.Words.{get_signed_varint-put_signed_varint, put_signed_varint-diverges}
use clab.Common.Denc.Signed.{get_signed_varint_lowz-put_signed_varint_lowz}
use clab.Common.Denc.Lba.{put_lba, get_lba}
use clab.Common.Denc.Lba.RoundTrip.{get_lba-put_lba}

-- Nine bits take two bytes.
put_varint_300 : put_varint shift_u64 9 300 ≡ some (0xAC ∷ 0x02 ∷ [])
unfolding put_varint
put_varint_300 = refl

-- -3 is 7 with the sign in the lowest bit.
put_signed_minus_3 : put_signed_varint 8 (2 ^ 64 - 3) ≡ some (7 ∷ [])
unfolding put_signed_varint
put_signed_minus_3 = refl

-- The offset of an extent, in pages of 4 KiB.
put_lba_page : put_lba 5 (5 * 4096) ≡ some (10 ∷ 0 ∷ 0 ∷ 0 ∷ [])
unfolding put_lba
put_lba_page = refl

-- Ten bytes that all ask for another make the reader shift by 70.
get_varint_overlong :
    get_varint (0x80 ∷ 0x80 ∷ 0x80 ∷ 0x80 ∷ 0x80 ∷ 0x80 ∷ 0x80 ∷ 0x80 ∷ 0x80 ∷ 0x80 ∷ 1 ∷ [])
    ≡ undefined
unfolding get_varint
get_varint_overlong = refl

get_varint_short : get_varint (0x80 ∷ []) ≡ end_of_buffer
unfolding get_varint
get_varint_short = refl

get_varint-put_varint_example : Encodes (put_varint shift_u64 9) get_varint 10 300
get_varint-put_varint_example = get_varint-put_varint 300 (omega arith)

put_varint-within_bound_example : is_written (put_varint shift_u64 8 (2 ^ 63 + 1)) ≡ false
put_varint-within_bound_example = put_varint-within_bound (2 ^ 63 + 1) (omega arith)

get_signed_varint-put_signed_varint_example :
    Encodes (put_signed_varint 8) get_signed_varint 9 (2 ^ 64 - 3)
get_signed_varint-put_signed_varint_example =
    get_signed_varint-put_signed_varint (2 ^ 64 - 3) (omega arith) (omega arith)

put_signed_varint-diverges_example : put_signed_varint 20 (2 ^ 62) ≡ none
put_signed_varint-diverges_example =
    put_signed_varint-diverges 20 (2 ^ 62) (omega arith) (omega arith) (omega arith)

get_lba-put_lba_example : Encodes (put_lba 5) get_lba 10 (5 * 4096)
get_lba-put_lba_example = get_lba-put_lba (5 * 4096) (omega arith)

get_signed_varint_lowz-put_signed_varint_lowz_example :
    Encodes (put_signed_varint_lowz 8) get_signed_varint_lowz 9 (2 ^ 64 - 4096)
unfolding ctz neg64
get_signed_varint_lowz-put_signed_varint_lowz_example =
    get_signed_varint_lowz-put_signed_varint_lowz (2 ^ 64 - 4096) (omega arith) (omega arith)
      (omega arith)
