-- ===== src/Kv/MemDb/Order.antt =====
-- The map of kv/mem/mem_db.cc by itself: its order and its lookups.
use clab.Prelude.{
  ◌≡◌, refl, inl, inr, true, false, [], ◌∷◌, none, some, arith, if◌then◌else◌, bytes_beq,
  bytes_beq_iff, Bool-cases,
}
use clab.Kv.Bytes.{Bytes, bytes_lt, bytes_lt_irrefl, bytes_lt_trans, bytes_total}
use clab.Kv.MemDb.{Map, get_key, put_key, drop_key}

-- Every key is behind `k`.
abbrev pub IsAbove : Bytes → Map → Type 0
IsAbove k [] = Unit {0}
IsAbove k ((j, w) ∷ m) = (bytes_lt k j ≡ true) × IsAbove k m

abbrev pub IsSorted : Map → Type 0
IsSorted [] = Unit {0}
IsSorted ((j, w) ∷ m) = IsAbove j m × IsSorted m

pub IsAbove-trans : (k j : Bytes) (m : Map) → bytes_lt k j ≡ true → IsAbove j m → IsAbove k m
IsAbove-trans k j [] h a = tt
IsAbove-trans k j ((i, w) ∷ m) h a = (bytes_lt_trans k j i h a.0, IsAbove-trans k j m h a.1)

-- Two keys in order are not the same.
pub lt-ne : (k j : Bytes) → bytes_lt k j ≡ true → (bytes_beq k j ≡ false) × (bytes_beq j k ≡ false)
lt-ne k j h = (
  elim (Bool-cases (bytes_beq k j)) [
    | inl same ↦ let e = (bytes_beq_iff k j).0 same in ground (arith, bytes_lt_irrefl j, rw e at h)
    | inr other ↦ other
  ],
  elim (Bool-cases (bytes_beq j k)) [
    | inl same ↦ let e = (bytes_beq_iff j k).0 same in ground (arith, bytes_lt_irrefl k, rw e at h)
    | inr other ↦ other
  ],
)

pub get_key-above : (k : Bytes) (m : Map) → IsAbove k m → get_key k m ≡ none
unfolding get_key
get_key-above k [] a = refl
get_key-above k ((j, w) ∷ m) a = rw ((lt-ne k j a.0).1) (get_key-above k m a.1)

pub get_key-put_key :
    (k j : Bytes) (v : Bytes) (m : Map)
    → get_key j (put_key k v m) ≡ (if bytes_beq k j then some v else get_key j m)
unfolding get_key put_key
get_key-put_key k j v [] = refl
get_key-put_key k j v ((i, w) ∷ m) = elim (Bool-cases (bytes_lt k i)) [
  | inl below ↦ rw (put_key, below) refl
  | inr not_below ↦ elim (Bool-cases (bytes_lt i k)) [
    | inl behind ↦ ground (
      arith,
      (lt-ne i k behind).0,
      bytes_beq_iff i k,
      bytes_beq_iff k j,
      bytes_beq_iff i j,
      get_key-put_key k j v m,
    )
    | inr not_behind ↦
        let same = bytes_total i k not_behind not_below in
        ground (arith, same, bytes_beq_iff i k, bytes_beq_iff k j, bytes_beq_iff i j)
  ]
]

put_key-IsAbove :
    (i k v : Bytes) (m : Map) → bytes_lt i k ≡ true → IsAbove i m → IsAbove i (put_key k v m)
unfolding put_key
put_key-IsAbove i k v [] h a = (h, tt)
put_key-IsAbove i k v ((j, w) ∷ m) h a = ground (arith, put_key-IsAbove i k v m h a.1)

pub put_key-IsSorted : (k v : Bytes) (m : Map) → IsSorted m → IsSorted (put_key k v m)
unfolding put_key
put_key-IsSorted k v [] s = (tt, tt)
put_key-IsSorted k v ((j, w) ∷ m) s = elim (Bool-cases (bytes_lt k j)) [
  | inl below ↦ rw (put_key, below) ((below, IsAbove-trans k j m below s.0), s)
  | inr not_below ↦ elim (Bool-cases (bytes_lt j k)) [
    | inl behind ↦
        rw (put_key, not_below, behind)
          (put_key-IsAbove j k v m behind s.0, put_key-IsSorted k v m s.1)
    | inr not_behind ↦
        let same = (bytes_beq_iff j k).0 (bytes_total j k not_behind not_below) in
        rw (put_key, not_below, not_behind) (rw same at s)
  ]
]

drop_key-IsAbove : (i k : Bytes) (m : Map) → IsAbove i m → IsAbove i (drop_key k m)
unfolding drop_key
drop_key-IsAbove i k [] a = tt
drop_key-IsAbove i k ((j, w) ∷ m) a = ground (arith, drop_key-IsAbove i k m a.1)

pub drop_key-IsSorted : (k : Bytes) (m : Map) → IsSorted m → IsSorted (drop_key k m)
unfolding drop_key
drop_key-IsSorted k [] s = tt
drop_key-IsSorted k ((j, w) ∷ m) s =
    ground (arith, drop_key-IsAbove j k m s.0, drop_key-IsSorted k m s.1)

pub get_key-drop_key :
    (k j : Bytes) (m : Map)
    → IsSorted m
    → get_key j (drop_key k m) ≡ (if bytes_beq k j then none else get_key j m)
unfolding get_key drop_key
get_key-drop_key k j [] s = ground arith
get_key-drop_key k j ((i, w) ∷ m) s = ground (
  arith,
  bytes_beq_iff i k,
  bytes_beq_iff k j,
  bytes_beq_iff i j,
  get_key-above i m s.0,
  get_key-drop_key k j m s.1,
)
