-- ===== src/Kv/MemDb/Ranges.antt =====
-- Erasing a stretch of the map: from a lower bound, as long as a test on the key holds.
use clab.Prelude.{
  ◌≡◌, refl, ap, inl, inr, Bool, true, false, not, ◌&&◌, [], ◌∷◌, none, arith, if◌then◌else◌,
  bytes_beq, bytes_beq_iff, Bool-cases,
}
use clab.Kv.Bytes.{Bytes, bytes_lt, bytes_lt_trans, starts_with, starts_with_over}
use clab.Kv.MemDb.{Map, get_key, drop_while, drop_from}
use clab.Kv.MemDb.Order.{IsAbove, IsSorted}

-- From `s` on, a test that has failed fails for good.
abbrev pub IsStretch : Bytes → (Bytes → Bool) → Type 0
IsStretch s test =
    (k l : Bytes) → bytes_lt k s ≡ false → test k ≡ false → bytes_lt k l ≡ true → test l ≡ false

drop_while-IsAbove :
    (i : Bytes) (test : Bytes → Bool) (m : Map) → IsAbove i m → IsAbove i (drop_while test m)
unfolding drop_while
drop_while-IsAbove i test [] a = tt
drop_while-IsAbove i test ((j, w) ∷ m) a = ground (arith, drop_while-IsAbove i test m a.1)

drop_while-IsSorted : (test : Bytes → Bool) (m : Map) → IsSorted m → IsSorted (drop_while test m)
unfolding drop_while
drop_while-IsSorted test [] s = tt
drop_while-IsSorted test ((j, w) ∷ m) s = ground (arith, drop_while-IsSorted test m s.1)

drop_from-IsAbove :
    (i s : Bytes) (test : Bytes → Bool) (m : Map) → IsAbove i m → IsAbove i (drop_from s test m)
unfolding drop_from
drop_from-IsAbove i s test [] a = tt
drop_from-IsAbove i s test ((j, w) ∷ m) a =
    ground (arith, drop_from-IsAbove i s test m a.1, drop_while-IsAbove i test ((j, w) ∷ m) a)

pub drop_from-IsSorted :
    (s : Bytes) (test : Bytes → Bool) (m : Map) → IsSorted m → IsSorted (drop_from s test m)
unfolding drop_from
drop_from-IsSorted s test [] h = tt
drop_from-IsSorted s test ((j, w) ∷ m) h = ground (
  arith,
  drop_from-IsAbove j s test m h.0,
  drop_from-IsSorted s test m h.1,
  drop_while-IsSorted test ((j, w) ∷ m) h,
)

-- The keys of a map behind a key for which the test has failed all fail it.
get_key-failed :
    (k j s : Bytes) (test : Bytes → Bool) (m : Map)
    → IsStretch s test
    → bytes_lt j s ≡ false
    → test j ≡ false
    → IsAbove j m
    → test k ≡ true
    → get_key k m ≡ none
unfolding get_key
get_key-failed k j s test [] stretch ge failed a ok = refl
get_key-failed k j s test ((i, w) ∷ m) stretch ge failed a ok =
    let fails = stretch j i ge failed a.0 in
    elim (Bool-cases (bytes_beq i k)) [
      | inl same ↦ ground (arith, ap test ((bytes_beq_iff i k).0 same))
      | inr other ↦ rw other (get_key-failed k j s test m stretch ge failed a.1 ok)
    ]

-- No key is below `s`.
abbrev IsFrom : Bytes → Map → Type 0
IsFrom s [] = Unit {0}
IsFrom s ((j, w) ∷ m) = (bytes_lt j s ≡ false) × IsFrom s m

not_below : (s i k : Bytes) → bytes_lt i s ≡ false → bytes_lt i k ≡ true → bytes_lt k s ≡ false
not_below s i k h lt = elim (Bool-cases (bytes_lt k s)) [
  | inl below ↦ ground (arith, bytes_lt_trans i k s lt below)
  | inr ge ↦ ge
]

IsAbove-IsFrom : (s j : Bytes) (m : Map) → bytes_lt j s ≡ false → IsAbove j m → IsFrom s m
IsAbove-IsFrom s j [] ge a = tt
IsAbove-IsFrom s j ((i, w) ∷ m) ge a = (not_below s j i ge a.0, IsAbove-IsFrom s j m ge a.1)

get_key-below : (k s : Bytes) (m : Map) → bytes_lt k s ≡ true → IsFrom s m → get_key k m ≡ none
unfolding get_key
get_key-below k s [] below from = refl
get_key-below k s ((j, w) ∷ m) below from = elim (Bool-cases (bytes_beq j k)) [
  | inl same ↦
      let e = (bytes_beq_iff j k).0 same in ground (arith, below, ap (λ z. bytes_lt z s) e, from.0)
  | inr other ↦ rw other (get_key-below k s m below from.1)
]

get_key-drop_while :
    (k s : Bytes) (test : Bytes → Bool) (m : Map)
    → IsStretch s test
    → IsSorted m
    → IsFrom s m
    → get_key k (drop_while test m) ≡ (if test k then none else get_key k m)
unfolding get_key drop_while
get_key-drop_while k s test [] stretch sorted from = ground arith
get_key-drop_while k s test ((j, w) ∷ m) stretch sorted from =
    let behind = get_key-drop_while k s test m stretch sorted.1 from.1 in
    elim (Bool-cases (test j)) [
      | inl holds ↦ elim (Bool-cases (bytes_beq j k)) [
        | inl same ↦ ground (arith, behind, holds, ap test ((bytes_beq_iff j k).0 same))
        | inr other ↦ rw (drop_while, holds, other) behind
      ]
      | inr fails ↦ elim (Bool-cases (test k)) [
        | inl ok ↦ elim (Bool-cases (bytes_beq j k)) [
          | inl same ↦ ground (arith, fails, ok, ap test ((bytes_beq_iff j k).0 same))
          | inr other ↦
              rw (drop_while, fails, ok, other)
                (get_key-failed k j s test m stretch from.0 fails sorted.0 ok)
        ]
        | inr stays ↦ rw (drop_while, fails, stays) refl
      ]
    ]

-- What `drop_from` erases.
abbrev pub in_stretch : Bytes → (Bytes → Bool) → Bytes → Bool
in_stretch s test k = not (bytes_lt k s) && test k

pub get_key-drop_from :
    (k s : Bytes) (test : Bytes → Bool) (m : Map)
    → IsStretch s test
    → IsSorted m
    → get_key k (drop_from s test m) ≡ (if in_stretch s test k then none else get_key k m)
unfolding get_key drop_from
get_key-drop_from k s test [] stretch sorted = ground arith
get_key-drop_from k s test ((j, w) ∷ m) stretch sorted =
    let behind = get_key-drop_from k s test m stretch sorted.1 in
    elim (Bool-cases (bytes_lt j s)) [
      | inl below ↦ elim (Bool-cases (bytes_beq j k)) [
        | inl same ↦
            let e = ap (λ z. bytes_lt z s) ((bytes_beq_iff j k).0 same) in
            ground (arith, below, e, same)
        | inr other ↦ rw (drop_from, below, other) behind
      ]
      | inr ge ↦
          let from = IsAbove-IsFrom s j m ge sorted.0 in
          let here = get_key-drop_while k s test ((j, w) ∷ m) stretch sorted (ge, from) in
          elim (Bool-cases (bytes_lt k s)) [
            | inl low ↦
                let gone = get_key-below k s ((j, w) ∷ m) low (ge, from) in
                ground (arith, here, gone, low, ge)
            | inr high ↦ rw (drop_from, ge, high) here
          ]
    ]

pub starts_with-IsStretch : (p : Bytes) → IsStretch p (starts_with p)
starts_with-IsStretch p k l ge fails lt = starts_with_over p k l ge fails lt

pub range-IsStretch : (s e : Bytes) → IsStretch s (λ k. bytes_lt k e)
range-IsStretch s e k l ge fails lt = elim (Bool-cases (bytes_lt l e)) [
  | inl inside ↦ ground (arith, bytes_lt_trans k l e lt inside)
  | inr out ↦ out
]
