-- ===== src/Kv/MemDb/Iterator/Walk.antt =====
-- What the positions of an iterator are in terms of the database, and a walk through all of it.
use clab.Prelude.{
  ℕ, zero, suc, ◌+◌, ◌≤◌, ◌<◌, ◌≡◌, refl, sym, ap, subst, ◌∙◌, inl, inr, ◌⊎◌, Bool, true, false,
  not, List, [], ◌∷◌, Option, none, some, arith, length, get_elem?, drop, leb, if◌then◌else◌,
  bytes_beq, bytes_beq_iff, Bool-cases,
}
use clab.Kv.Bytes.{Bytes, bytes_lt}
use clab.Kv.MemDb.{Map, MemDb, get_key, MergeOps, Op, submit_transaction}
use clab.Kv.MemDb.Order.{IsSorted, IsAbove-trans, get_key-above}
use clab.Kv.MemDb.Submit.{submit_transaction-seqno}
use clab.Kv.MemDb.Iterator.{
  Iterator, get_wholespace_iterator, lower_index, place, entry, refresh, seek_to_first, lower_bound,
  next,
}

-- The copy is that of the database as it is, or the next move by key makes a new one.
abbrev pub IsCurrent : MemDb → Iterator → Type 0
IsCurrent d it = ((it.seqno ≡ d.seqno) × (it.items ≡ d.db)) ⊎ (it.seqno < d.seqno)

pub get_wholespace_iterator-IsCurrent : (d : MemDb) → IsCurrent d (get_wholespace_iterator d)
get_wholespace_iterator-IsCurrent d = inl (refl, refl)

refresh-items : (d : MemDb) (it : Iterator) → IsCurrent d it → (refresh d it).items ≡ d.db
unfolding refresh
refresh-items d it (inl (same, items)) = ground (arith, same, items)
refresh-items d it (inr behind) = ground (arith, behind)

get_elem?_over : (m : Map) (i : ℕ) → length m ≤ i → get_elem? m i ≡ none
get_elem?_over [] i h = refl
get_elem?_over (x ∷ m) zero h = absurd (omega arith)
get_elem?_over (x ∷ m) (suc i) h = get_elem?_over m i (omega arith)

-- An iterator that stands at a place has the item that is there.
entry-place :
    (items : Map) (seqno i : ℕ)
    → entry (record { items = items; seqno = seqno; pos = place i items }) ≡ get_elem? items i
entry-place items seqno i = elim (Bool-cases (leb (length items) i)) [
  | inl over ↦ rw over (sym (get_elem?_over items i (ground arith)))
  | inr inside ↦ rw inside refl
]

-- Looking up `j` by the item that `lower_bound` finds for `to`: keys from `to` on and before the
-- item are missing, the item has its own value, and of the others (answer `o`) it says nothing.
abbrev pub answered : Bytes → Option (Bytes × Bytes) → Bytes → Option Bytes → Option Bytes
answered to none j o = if bytes_lt j to then o else none
answered to (some (k, v)) j o =
    if bytes_lt j to then o else if bytes_lt j k then none else if bytes_beq k j then some v else o

abbrev pub is_from : Bytes → Option (Bytes × Bytes) → Bool
is_from to none = true
is_from to (some (k, v)) = not (bytes_lt k to)

answered_low :
    (to j : Bytes) (e : Option (Bytes × Bytes)) (o : Option Bytes)
    → bytes_lt j to ≡ true
    → answered to e j o ≡ o
answered_low to j none o low = rw low refl
answered_low to j (some (k, v)) o low = rw low refl

lower_index-answered :
    (to j : Bytes) (m : Map)
    → IsSorted m
    → get_key j m ≡ answered to (get_elem? m (lower_index to m)) j (get_key j m)
unfolding get_key lower_index
lower_index-answered to j [] sorted = ground arith
lower_index-answered to j ((i, w) ∷ m) sorted =
    let behind = lower_index-answered to j m sorted.1 in
    elim (Bool-cases (bytes_lt i to)) [
      | inl below ↦ elim (Bool-cases (bytes_beq i j)) [
        | inl same ↦ sym (
            answered_low to j (get_elem? ((i, w) ∷ m) (lower_index to ((i, w) ∷ m)))
              (get_key j ((i, w) ∷ m))
              (ap (λ z. bytes_lt z to) (sym ((bytes_beq_iff i j).0 same)) ∙ below))
        | inr other ↦ rw (lower_index, below, other) behind
      ]
      | inr from ↦ elim (Bool-cases (bytes_lt j i)) [
        | inl before ↦
            let missing =
              get_key-above j ((i, w) ∷ m) (before, IsAbove-trans j i m before sorted.0) in
            ground (arith, from, before, missing)
        | inr not_before ↦ ground (arith, from, not_before)
      ]
    ]

lower_index-is_from : (to : Bytes) (m : Map) → is_from to (get_elem? m (lower_index to m)) ≡ true
unfolding lower_index
lower_index-is_from to [] = refl
lower_index-is_from to ((i, w) ∷ m) = elim (Bool-cases (bytes_lt i to)) [
  | inl below ↦ rw (lower_index, below) (lower_index-is_from to m)
  | inr from ↦ rw (lower_index, from) (rw from refl)
]

-- For an iterator that is current and a database in key order: after lower_bound the iterator
-- stands at the item with the least key that is not below the given one, or at none if there is no
-- such key.
pub lower_bound-answered :
    (d : MemDb) (it : Iterator) (to j : Bytes)
    → IsCurrent d it
    → IsSorted d.db
    → (get_key j d.db ≡ answered to (entry (lower_bound d it to)) j (get_key j d.db))
      × (is_from to (entry (lower_bound d it to)) ≡ true)
unfolding lower_bound
lower_bound-answered d it to j current sorted =
    let r = refresh d it in
    let items = refresh-items d it current in
    let at : get_elem? d.db (lower_index to d.db) ≡ entry (lower_bound d it to) =
      ap (λ m. get_elem? m (lower_index to m)) (sym items)
      ∙ sym (entry-place r.items r.seqno (lower_index to r.items)) in
    (
      lower_index-answered to j d.db sorted ∙ ap (λ e. answered to e j (get_key j d.db)) at,
      ap (is_from to) (sym at) ∙ lower_index-is_from to d.db,
    )

-- `for (; it->valid(); it->next())`, with the items that it meets.
pub walk : ℕ → Iterator → List (Bytes × Bytes)
walk zero it = []
walk (suc fuel) it = elim (entry it) [ none ↦ [] | some e ↦ e ∷ walk fuel (next it) ]

drop_over : (m : Map) (i : ℕ) → length m ≤ i → drop i m ≡ []
drop_over [] zero h = refl
drop_over [] (suc i) h = refl
drop_over (x ∷ m) zero h = absurd (omega arith)
drop_over (x ∷ m) (suc i) h = drop_over m i (omega arith)

drop_step :
    (m : Map) (i : ℕ)
    → i < length m
    → (e : Bytes × Bytes) × (get_elem? m i ≡ some e) × (drop i m ≡ (e ∷ drop (suc i) m))
drop_step [] i h = absurd (omega arith)
drop_step (x ∷ m) zero h = (x, refl, refl)
drop_step (x ∷ m) (suc i) h = drop_step m i (omega arith)

next_inside :
    (items : Map) (seqno i : ℕ)
    → leb (length items) i ≡ false
    → next (record { items = items; seqno = seqno; pos = place i items })
      ≡ record { items = items; seqno = seqno; pos = place (suc i) items }
unfolding next
next_inside items seqno i inside = rw (next, inside) refl

walk-drop :
    (fuel : ℕ) (items : Map) (seqno i : ℕ)
    → length items < i + fuel
    → walk fuel (record { items = items; seqno = seqno; pos = place i items }) ≡ drop i items
unfolding walk
walk-drop zero items seqno i enough = sym (drop_over items i (omega arith))
walk-drop (suc fuel) items seqno i enough = elim (Bool-cases (leb (length items) i)) [
  | inl over ↦ rw (walk, over) (sym (drop_over items i (ground arith)))
  | inr inside ↦
      let (e, at, rest) = drop_step items i (ground arith) in
      rw (walk, inside, at, rest)
        (ap (λ z. e ∷ walk fuel z) (next_inside items seqno i inside)
          ∙ ap (λ l. e ∷ l) (walk-drop fuel items seqno (suc i) (omega (arith, enough))))
]

-- For an iterator that is current (its copy is that of the database as it is, or the next move by
-- key makes a new one): from seek_to_first on, next meets all items of the database, in its order,
-- and then the iterator is not valid any more; one more step than items is enough.
pub walk-seek_to_first :
    (d : MemDb) (it : Iterator)
    → IsCurrent d it
    → walk (suc (length d.db)) (seek_to_first d it) ≡ d.db
unfolding seek_to_first
walk-seek_to_first d it current =
    let r = refresh d it in
    let items = refresh-items d it current in
    walk-drop (suc (length d.db)) r.items r.seqno 0
      (omega (arith, ap (λ (m : Map). length m) items))
    ∙ items

-- An iterator that is current for a database is current after any transaction on it.
pub submit_transaction-IsCurrent :
    (mops : MergeOps) (d : MemDb) (ops : List Op) (it : Iterator)
    → IsCurrent d it
    → IsCurrent (submit_transaction mops d ops).0 it
submit_transaction-IsCurrent mops d ops it current = elim (submit_transaction-seqno mops d ops) [
  | inl same ↦ subst (λ k. IsCurrent k it) (sym same) current
  | inr on ↦
      inr (elim current [
        | inl now ↦ omega (arith, now.0, on)
        | inr behind ↦ omega (arith, behind, on)
      ])
]
