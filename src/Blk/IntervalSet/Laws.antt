-- ===== src/Blk/IntervalSet/Laws.antt =====
-- interval_set of blk/extent_types.h in terms of the points that it holds.
use clab.Prelude.{
  ℕ, suc, ◌+◌, ◌-◌, max, ◌≤◌, ◌<◌, ◌≡◌, refl, ◌∙◌, inl, inr, Bool, true, false, not, ◌&&◌, ◌||◌, [],
  ◌∷◌, arith, ltb, leb, ◌==◌, Bool-cases,
}
use clab.Blk.IntervalSet.{
  IntervalSet, absorb, merge_preceding, starts_from, insert_some, insert, erase_until,
  cut_preceding, erase_some, erase,
}

-- The point lies in an interval.
abbrev pub holds : ℕ → IntervalSet → Bool
holds x [] = false
holds x ((first, second) ∷ t) = (leb first x && ltb x (first + second)) || holds x t

-- Intervals from `lo` on, none empty, with a gap between each and the next.
abbrev pub IsSpaced : ℕ → IntervalSet → Type 0
IsSpaced lo [] = Unit {0}
IsSpaced lo ((first, second) ∷ t) = (lo ≤ first) × (0 < second) × IsSpaced (suc (first + second)) t

-- No interval that starts in front of `off` reaches behind `end`.
abbrev pub NoneLonger : ℕ → ℕ → IntervalSet → Type 0
NoneLonger off end [] = Unit {0}
NoneLonger off end ((first, second) ∷ t) =
    ((leb off first || leb (first + second) end) ≡ true) × NoneLonger off end t

pub holds_early : (lo x : ℕ) (m : IntervalSet) → IsSpaced lo m → x < lo → holds x m ≡ false
holds_early lo x [] spaced early = refl
holds_early lo x ((first, second) ∷ t) spaced early =
    ground (arith, holds_early (suc (first + second)) x t spaced.2 (omega arith))

IsSpaced-later : (lo hi : ℕ) (m : IntervalSet) → lo ≤ hi → IsSpaced hi m → IsSpaced lo m
IsSpaced-later lo hi [] le spaced = tt
IsSpaced-later lo hi ((first, second) ∷ t) le spaced = (omega arith, spaced.1, spaced.2)

absorb_lem :
    (x : ℕ) (m : IntervalSet) (off len : ℕ)
    → IsSpaced off m
    → 0 < len
    → (len ≤ (absorb m off len).0)
      × IsSpaced (suc (off + (absorb m off len).0)) (absorb m off len).1
      × (((leb off x && ltb x (off + (absorb m off len).0)) || holds x (absorb m off len).1)
          ≡ ((leb off x && ltb x (off + len)) || holds x m))
unfolding absorb
absorb_lem x [] off len spaced pos = (omega arith, tt, refl)
absorb_lem x ((first, second) ∷ t) off len spaced pos = elim (Bool-cases (leb first (off + len))) [
  | inl meets ↦
      let rest =
        absorb_lem x t off (max len (first + second - off))
          (IsSpaced-later off (suc (first + second)) t (omega arith) spaced.2) (omega arith) in
      rw (absorb, meets) (omega (arith, rest.0), rest.1, rest.2 ∙ ground (arith, meets))
  | inr apart ↦ rw (absorb, apart) (omega arith, (ground (arith, apart), spaced.1, spaced.2), refl)
]

-- An interval in front of `off` whose successor starts at `off` or later.
behind_off :
    (off : ℕ) (hi : ℕ) (t : IntervalSet)
    → starts_from off t ≡ true
    → IsSpaced hi t
    → IsSpaced (max off hi) t
behind_off off hi [] from spaced = tt
behind_off off hi ((first, second) ∷ t) from spaced = (ground (arith, from), spaced.1, spaced.2)

behind_more :
    (off : ℕ) (hi : ℕ) (t : IntervalSet) → starts_from off t ≡ false → IsSpaced hi t → hi ≤ off
behind_more off hi [] more spaced = ground arith
behind_more off hi ((first, second) ∷ t) more spaced = ground arith

insert_some_lem :
    (lo x : ℕ) (m : IntervalSet) (off len : ℕ)
    → IsSpaced lo m
    → lo ≤ off
    → 0 < len
    → NoneLonger off (off + len) m
    → IsSpaced lo (insert_some m off len)
      × (holds x (insert_some m off len) ≡ ((leb off x && ltb x (off + len)) || holds x m))
unfolding insert_some
insert_some_lem lo x [] off len spaced le pos none_longer = ((le, pos, tt), refl)
insert_some_lem lo x ((first, second) ∷ t) off len spaced le pos none_longer =
    elim (Bool-cases (ltb first off)) [
      | inl before ↦ elim (Bool-cases (starts_from off t)) [
        | inl last ↦
            let tail = behind_off off (suc (first + second)) t last spaced.2 in
            let grown =
              absorb_lem x t off len
                (IsSpaced-later off (max off (suc (first + second))) t (omega arith) tail) pos in
            let g = (absorb t off len).0 in
            let rest_of = (absorb t off len).1 in
            elim (Bool-cases (leb off (first + second))) [
              | inl meets ↦
                  rw (insert_some, before, last, merge_preceding, meets)
                    (
                      (
                        spaced.0,
                        omega (arith, grown.0),
                        IsSpaced-later (suc (first + max g (off + g - first))) (suc (off + g))
                            rest_of (ground arith) grown.1,
                      ),
                      ground (arith, grown.0, grown.2, none_longer.0),
                    )
              | inr apart ↦
                  rw (insert_some, before, last, merge_preceding, apart)
                    (
                      (spaced.0, spaced.1, (ground arith, omega (arith, grown.0), grown.1)),
                      ground (arith, grown.2),
                    )
            ]
        | inr more ↦
            let rest =
              insert_some_lem (suc (first + second)) x t off len spaced.2
                (behind_more off (suc (first + second)) t more spaced.2) pos none_longer.1 in
            rw (insert_some, before, more) ((spaced.0, spaced.1, rest.0), ground (arith, rest.1))
      ]
      | inr here ↦
          let grown =
            absorb_lem x ((first, second) ∷ t) off len (ground arith, spaced.1, spaced.2) pos in
          rw (insert_some, here) ((le, omega (arith, grown.0), grown.1), grown.2)
    ]

-- insert keeps the intervals sorted, not empty and with gaps between them, and adds exactly the
-- points of the new range, provided that no interval that starts in front of the range reaches
-- behind its end.
pub insert-holds :
    (x : ℕ) (m : IntervalSet) (off len : ℕ)
    → IsSpaced 0 m
    → NoneLonger off (off + len) m
    → IsSpaced 0 (insert m off len)
      × (holds x (insert m off len) ≡ ((leb off x && ltb x (off + len)) || holds x m))
unfolding insert
insert-holds x m off len spaced none_longer = elim (Bool-cases (len == 0)) [
  | inl empty ↦ rw (insert, empty) (spaced, ground (arith, empty))
  | inr full ↦
      rw (insert, full)
        (insert_some_lem 0 x m off len spaced (omega arith) (ground (arith, full)) none_longer)
]

erase_until_lem :
    (lo x : ℕ) (m : IntervalSet) (end : ℕ)
    → IsSpaced lo m
    → IsSpaced lo (erase_until m end) × (holds x (erase_until m end) ≡ (holds x m && leb end x))
unfolding erase_until
erase_until_lem lo x [] end spaced = (tt, refl)
erase_until_lem lo x ((first, second) ∷ t) end spaced =
    let later = holds_early (suc (first + second)) x t spaced.2 in
    elim (Bool-cases (ltb first end)) [
      | inl reached ↦ elim (Bool-cases (ltb end (first + second))) [
        | inl beyond ↦
            rw (erase_until, reached, beyond)
              (
                (
                  ground (arith, reached),
                  ground (arith, beyond),
                  IsSpaced-later (suc (end + (first + second - end))) (suc (first + second)) t
                      (ground (arith, beyond)) spaced.2,
                ),
                ground (arith, reached, beyond, later),
              )
        | inr inside ↦
            let rest = erase_until_lem (suc (first + second)) x t end spaced.2 in
            rw (erase_until, reached, inside)
              (
                IsSpaced-later lo (suc (first + second)) (erase_until t end) (omega arith) rest.0,
                ground (arith, rest.1, reached, inside),
              )
      ]
      | inr behind ↦ rw (erase_until, behind) (spaced, ground (arith, behind, later))
    ]

cut_preceding_lem :
    (lo x first second off len : ℕ) (t rest : IntervalSet)
    → IsSpaced lo ((first, second) ∷ t)
    → first < off
    → 0 < len
    → starts_from off t ≡ true
    → IsSpaced (suc (first + second)) rest
    → (holds x rest ≡ (holds x t && leb (off + len) x))
    → IsSpaced lo (cut_preceding first second off len rest)
      × (holds x (cut_preceding first second off len rest)
          ≡ (holds x ((first, second) ∷ t) && not (leb off x && ltb x (off + len))))
cut_preceding_lem lo x first second off len t rest spaced before pos last ok same =
    let early = λ (h : x < max off (suc (first + second))).
      holds_early (max off (suc (first + second))) x t
        (behind_off off (suc (first + second)) t last spaced.2) h in
    elim (Bool-cases (ltb off (first + second))) [
      | inl over ↦ elim (Bool-cases (ltb (off + len) (first + second))) [
        | inl both ↦
            rw (cut_preceding, over, both)
              (
                (
                  spaced.0,
                  ground arith,
                  (
                    ground (arith, pos),
                    ground (arith, both),
                    IsSpaced-later (suc (off + len + (first + second - (off + len))))
                        (suc (first + second)) rest (ground (arith, both)) ok,
                  ),
                ),
                ground (arith, same, both, over, early),
              )
        | inr left ↦
            rw (cut_preceding, over, left)
              (
                (
                  spaced.0,
                  ground arith,
                  IsSpaced-later (suc (first + (off - first))) (suc (first + second)) rest
                      (ground (arith, over)) ok,
                ),
                ground (arith, same, left, over, early),
              )
      ]
      | inr apart ↦
          rw (cut_preceding, apart) ((spaced.0, spaced.1, ok), ground (arith, same, apart, early))
    ]

erase_some_lem :
    (lo x : ℕ) (m : IntervalSet) (off len : ℕ)
    → IsSpaced lo m
    → 0 < len
    → IsSpaced lo (erase_some m off len)
      × (holds x (erase_some m off len) ≡ (holds x m && not (leb off x && ltb x (off + len))))
unfolding erase_some
erase_some_lem lo x [] off len spaced pos = (tt, refl)
erase_some_lem lo x ((first, second) ∷ t) off len spaced pos = elim (Bool-cases (ltb first off)) [
  | inl before ↦ elim (Bool-cases (starts_from off t)) [
    | inl last ↦
        let rest = erase_until_lem (suc (first + second)) x t (off + len) spaced.2 in
        rw (erase_some, before, last)
          (cut_preceding_lem lo x first second off len t (erase_until t (off + len)) spaced
            (ground (arith, before)) pos last rest.0 rest.1)
    | inr more ↦
        let rest = erase_some_lem (suc (first + second)) x t off len spaced.2 pos in
        let le = behind_more off (suc (first + second)) t more spaced.2 in
        rw (erase_some, before, more) ((spaced.0, spaced.1, rest.0), ground (arith, rest.1, le))
  ]
  | inr here ↦
      let rest = erase_until_lem lo x ((first, second) ∷ t) (off + len) spaced in
      let early = holds_early first x ((first, second) ∷ t) (omega arith, spaced.1, spaced.2) in
      rw (erase_some, here) (rest.0, rest.1 ∙ ground (arith, here, early))
]

-- erase keeps the intervals sorted, not empty and with gaps between them, and takes exactly the
-- points of the range out.
pub erase-holds :
    (x : ℕ) (m : IntervalSet) (off len : ℕ)
    → IsSpaced 0 m
    → IsSpaced 0 (erase m off len)
      × (holds x (erase m off len) ≡ (holds x m && not (leb off x && ltb x (off + len))))
unfolding erase
erase-holds x m off len spaced = elim (Bool-cases (len == 0)) [
  | inl empty ↦ rw (erase, empty) (spaced, ground (arith, empty))
  | inr full ↦ rw (erase, full) (erase_some_lem 0 x m off len spaced (ground (arith, full)))
]
