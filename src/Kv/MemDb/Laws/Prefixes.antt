-- ===== src/Kv/MemDb/Laws/Prefixes.antt =====
-- MemDB::encode_key of kv/mem/mem_db.cc, and keys of different prefixes.
use clab.Prelude.{
  ◌≡◌, refl, inl, inr, false, not, ◌&&◌, [], ◌∷◌, arith, ◌==◌, bytes_beq, Bool-cases,
}
use clab.Kv.Bytes.{Bytes, bytes_lt, starts_with, starts_with_ge}
use clab.Kv.MemDb.{encode_key, decode_key}
use clab.Kv.MemDb.Ranges.{in_stretch}

abbrev pub NoZero : Bytes → Type 0
NoZero [] = Unit {0}
NoZero (b ∷ bs) = ((b == 0) ≡ false) × NoZero bs

-- decode_key gives back the prefix and the key that encode_key was given, if the prefix has no
-- zero byte.
pub decode_key-encode_key : (p k : Bytes) → NoZero p → decode_key (encode_key p k) ≡ (p, k)
unfolding decode_key encode_key
decode_key-encode_key [] k n = refl
decode_key-encode_key (b ∷ p) k n = rw (decode_key, n.0, decode_key-encode_key p k n.1) refl

pub encode_key-same :
    (p q k j : Bytes)
    → NoZero p
    → NoZero q
    → bytes_beq (encode_key p k) (encode_key q j) ≡ (bytes_beq p q && bytes_beq k j)
unfolding encode_key
encode_key-same [] [] k j np nq = refl
encode_key-same [] (c ∷ q) k j np nq = ground (arith, nq.0)
encode_key-same (b ∷ p) [] k j np nq = ground (arith, np.0)
encode_key-same (b ∷ p) (c ∷ q) k j np nq = ground (arith, encode_key-same p q k j np.1 nq.1)

starts_with-encode_key :
    (p q j : Bytes)
    → NoZero p
    → NoZero q
    → starts_with (encode_key p []) (encode_key q j) ≡ bytes_beq p q
unfolding encode_key
starts_with-encode_key [] [] j np nq = refl
starts_with-encode_key [] (c ∷ q) j np nq = ground (arith, nq.0)
starts_with-encode_key (b ∷ p) [] j np nq = ground (arith, np.0)
starts_with-encode_key (b ∷ p) (c ∷ q) j np nq =
    ground (arith, starts_with-encode_key p q j np.1 nq.1)

pub in_stretch-prefix :
    (p q j : Bytes)
    → NoZero p
    → NoZero q
    → in_stretch (encode_key p []) (starts_with (encode_key p [])) (encode_key q j) ≡ bytes_beq p q
in_stretch-prefix p q j np nq =
    let s = encode_key p [] in
    let k = encode_key q j in
    let here = starts_with-encode_key p q j np nq in
    elim (Bool-cases (starts_with s k)) [
      | inl holds ↦ ground (arith, here, holds, starts_with_ge s k holds)
      | inr fails ↦ ground (arith, here, fails)
    ]

pub in_stretch-range :
    (p q a b j : Bytes)
    → NoZero p
    → NoZero q
    → in_stretch (encode_key p a) (λ z. bytes_lt z (encode_key p b)) (encode_key q j)
      ≡ (bytes_beq p q && (not (bytes_lt j a) && bytes_lt j b))
unfolding encode_key
in_stretch-range [] [] a b j np nq = ground arith
in_stretch-range [] (c ∷ q) a b j np nq = ground (arith, nq.0)
in_stretch-range (x ∷ p) [] a b j np nq = ground (arith, np.0)
in_stretch-range (x ∷ p) (c ∷ q) a b j np nq = ground (arith, in_stretch-range p q a b j np.1 nq.1)
