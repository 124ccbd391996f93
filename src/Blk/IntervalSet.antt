-- ===== src/Blk/IntervalSet.antt =====
-- interval_set of blk/extent_types.h: a std::map from the start of an interval to its length, as
-- the list of its entries in the order of the starts.
pub mod Laws
use clab.Prelude.{ℕ, ◌+◌, ◌-◌, max, Bool, true, false, List, [], ◌∷◌, ltb, leb, ◌==◌, if◌then◌else◌}
use clab.Blk.Allocator.{PExtent}

abbrev pub IntervalSet : Type 0
IntervalSet = List (ℕ × ℕ)

-- "merge with following": the length that the new interval grows to, and the entries that stay.
unfoldable pub absorb : IntervalSet → ℕ → ℕ → ℕ × IntervalSet
absorb [] off len = (len, [])
absorb ((first, second) ∷ t) off len =
    let rest = absorb t off (max len (first + second - off)) in
    if leb first (off + len) then rest else (len, (first, second) ∷ t)

-- "merge with preceding", for the entry in front of the new interval.
abbrev pub merge_preceding : ℕ → ℕ → ℕ → ℕ × IntervalSet → IntervalSet
merge_preceding first second off grown =
    if leb off (first + second)
    then (first, max grown.0 (off + grown.0 - first)) ∷ grown.1
    else (first, second) ∷ (off, grown.0) ∷ grown.1

-- `lower_bound(off)` is the first of these entries, or `end()`.
abbrev pub starts_from : ℕ → IntervalSet → Bool
starts_from off [] = true
starts_from off ((first, second) ∷ t) = leb off first

unfoldable pub insert_some : IntervalSet → ℕ → ℕ → IntervalSet
unfolding absorb
insert_some [] off len = (off, len) ∷ []
insert_some ((first, second) ∷ t) off len =
    let rest = insert_some t off len in
    if ltb first off
    then (if starts_from off t
        then merge_preceding first second off (absorb t off len)
        else (first, second) ∷ rest)
    else (let grown = absorb ((first, second) ∷ t) off len in (off, grown.0) ∷ grown.1)

-- interval_set::insert(off, len)
unfoldable pub insert : IntervalSet → ℕ → ℕ → IntervalSet
unfolding insert_some
insert m off len = if len == 0 then m else insert_some m off len

-- The second loop of `erase`, from the first entry at `off` or behind it.
unfoldable pub erase_until : IntervalSet → ℕ → IntervalSet
erase_until [] end = []
erase_until ((first, second) ∷ t) end =
    let rest = erase_until t end in
    if ltb first end
    then (if ltb end (first + second) then (end, first + second - end) ∷ t else rest)
    else (first, second) ∷ t

-- What `erase` leaves of the entry in front of the range.
abbrev pub cut_preceding : ℕ → ℕ → ℕ → ℕ → IntervalSet → IntervalSet
cut_preceding first second off len rest =
    if ltb off (first + second)
    then (if ltb (off + len) (first + second)
        then (first, off - first) ∷ (off + len, first + second - (off + len)) ∷ rest
        else (first, off - first) ∷ rest)
    else (first, second) ∷ rest

unfoldable pub erase_some : IntervalSet → ℕ → ℕ → IntervalSet
unfolding erase_until
erase_some [] off len = []
erase_some ((first, second) ∷ t) off len =
    let rest = erase_some t off len in
    if ltb first off
    then (if starts_from off t
        then cut_preceding first second off len (erase_until t (off + len))
        else (first, second) ∷ rest)
    else erase_until ((first, second) ∷ t) (off + len)

-- interval_set::erase(off, len)
unfoldable pub erase : IntervalSet → ℕ → ℕ → IntervalSet
unfolding erase_some
erase m off len = if len == 0 then m else erase_some m off len

abbrev pub range_start : IntervalSet → ℕ
range_start [] = 0
range_start ((first, second) ∷ t) = first

unfoldable pub range_end : IntervalSet → ℕ
range_end [] = 0
range_end ((first, second) ∷ []) = first + second
range_end ((first, second) ∷ e ∷ t) = range_end (e ∷ t)

-- interval_set::insert(other)
unfoldable pub insert_all : IntervalSet → IntervalSet → IntervalSet
unfolding insert
insert_all m [] = m
insert_all m ((off, len) ∷ other) = insert_all (insert m off len) other

-- The set that Allocator::release of blk/allocator.cc makes of a vector of pieces.
unfoldable pub release_set : IntervalSet → List PExtent → IntervalSet
unfolding insert
release_set m [] = m
release_set m (e ∷ v) = release_set (insert m e.offset e.length) v
