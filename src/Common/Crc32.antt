-- ===== src/Common/Crc32.antt =====
-- common/crc32.cc: the CRC-32C of a byte string, by the table of the software path.
use clab.Prelude.Bits.{bit_and-ones, bit_xor-lt}
use clab.Prelude.{
  ◌<◌, arith, ℕ, zero, suc, ◌/◌, ◌^◌, bit_and, bit_xor, ◌≡◌, refl, List, [], ◌∷◌, ◌==◌,
  if◌then◌else◌,
}

abbrev poly_castagnoli : ℕ
poly_castagnoli = 0x82F6_3B78

-- One digit of a table entry.
table_digit : ℕ → ℕ
table_digit crc = if bit_and crc 1 == 1 then bit_xor (crc / 2) poly_castagnoli else crc / 2

table_digits : ℕ → ℕ → ℕ
unfolding table_digit
table_digits zero crc = crc
table_digits (suc n) crc = table_digits n (table_digit crc)

-- `g_crc32c_table.table[index]`
table : ℕ → ℕ
unfolding table_digits
table index = table_digits 8 index

-- `~crc` on 32 bits
abbrev flip : ℕ → ℕ
flip crc = bit_xor crc 0xFFFF_FFFF

fold : ℕ → List ℕ → ℕ
unfolding table
fold crc [] = crc
fold crc (b ∷ bs) = fold (bit_xor (crc / 256) (table (bit_and (bit_xor crc b) 0xFF))) bs

unfoldable pub crc32c_software_fallback : List ℕ → ℕ → ℕ
unfolding fold
crc32c_software_fallback bytes previous = flip (fold (flip previous) bytes)

-- `calc_crc32` of a buffer that is there, built without ISA-L.
unfoldable pub calc_crc32 : List ℕ → ℕ → ℕ
unfolding crc32c_software_fallback
calc_crc32 [] previous = previous
calc_crc32 (b ∷ bs) previous = crc32c_software_fallback (b ∷ bs) previous

table_digit-lt : (c : ℕ) → c < 2 ^ 32 → table_digit c < 2 ^ 32
unfolding table_digit
table_digit-lt c h =
    ground (arith, bit_xor-lt 32 (c / 2) poly_castagnoli (omega arith) (omega arith))

table_digits-lt : (n c : ℕ) → c < 2 ^ 32 → table_digits n c < 2 ^ 32
unfolding table_digits
table_digits-lt zero c h = h
table_digits-lt (suc n) c h = table_digits-lt n (table_digit c) (table_digit-lt c h)

table-lt : (i : ℕ) → i < 2 ^ 32 → table i < 2 ^ 32
unfolding table
table-lt i h = table_digits-lt 8 i h

fold-lt : (c : ℕ) (bs : List ℕ) → c < 2 ^ 32 → fold c bs < 2 ^ 32
unfolding fold
fold-lt c [] h = h
fold-lt c (b ∷ bs) h =
    let index = bit_and (bit_xor c b) 0xFF in
    let small : index < 2 ^ 32 = omega (arith, bit_and-ones 8 (bit_xor c b)) in
    fold-lt (bit_xor (c / 256) (table (bit_and (bit_xor c b) 0xFF))) bs
      (bit_xor-lt 32 (c / 256) (table index) (omega arith) (table-lt index small))

-- The checksum of any bytes, from the initial value 0, is a 32-bit word.
pub calc_crc32-lt : (bs : List ℕ) → calc_crc32 bs 0 < 2 ^ 32
unfolding calc_crc32 crc32c_software_fallback
calc_crc32-lt [] = omega arith
calc_crc32-lt (b ∷ bs) =
    bit_xor-lt 32 _ 0xFFFF_FFFF (fold-lt (flip 0) (b ∷ bs) (omega arith)) (omega arith)

-- The check value of the CRC-32C, for the text "123456789".
check_value :
    calc_crc32 (0x31 ∷ 0x32 ∷ 0x33 ∷ 0x34 ∷ 0x35 ∷ 0x36 ∷ 0x37 ∷ 0x38 ∷ 0x39 ∷ []) 0 ≡ 0xE306_9283
unfolding calc_crc32
check_value = refl
