-- ===== src/Btier/ExtentMap/Space/Fresh.antt =====
-- The ids of extents in ExtentMap::allocate_extent of btier/extent_map.cc.
use clab.Prelude.{
  ℕ, ◌+◌, ◌≤◌, ◌<◌, ◌≡◌, refl, sym, ap, subst, ◌∙◌, inl, inr, false, Option, none, some, arith,
  ◌==◌, if◌then◌else◌, nat_eq, Bool-cases, Option-cases,
}
use clab.Prelude.Assoc.{find, insert, find-insert}
use clab.Blk.Allocator.{Allocator}
use clab.Btier.Types.{Tier, DiskLocation}
use clab.Btier.ExtentMap.{ExtentMap, of_tier, lookup, new_entry}
use clab.Btier.ExtentMap.Space.{
  AllocResult, take_space, aligned_size, first_of, falls_back, allocate_raw, enter, allocate_extent,
}

module _ {A : Type 0} where
  -- No entry has an id that is yet to be given.
  abbrev pub IsFresh : ExtentMap A → Type 0
  IsFresh m = (id : ℕ) → m.next_extent_id ≤ id → lookup m id ≡ none

  -- The same entries and the same next id.
  abbrev pub SameEntries : ExtentMap A → ExtentMap A → Type 0
  SameEntries m m' = (m'.entries ≡ m.entries) × (m'.next_extent_id ≡ m.next_extent_id)

  -- What the allocation of an extent means for the entry of `id`.
  abbrev pub Gives : ExtentMap A → ExtentMap A → ℕ → Option AllocResult → Type 0
  Gives m after id none = lookup after id ≡ lookup m id
  Gives m after id (some r) =
      (lookup m r.extent_id ≡ none)
      × (lookup after id ≡ (if r.extent_id == id then some (new_entry r.location) else lookup m id))

  abbrev pub NextOr : ExtentMap A → Option AllocResult → Type 0
  NextOr m none = Unit {0}
  NextOr m (some r) = r.extent_id ≡ m.next_extent_id

module _ {A : Type 0} (alloc : Allocator A) where
  take_space-SameEntries :
      (m : ExtentMap A) (tier : Tier) (size : ℕ) → SameEntries m (take_space alloc m tier size).0
  unfolding take_space
  take_space-SameEntries m tier size = elim (Option-cases (of_tier m.allocators tier none)) [
    | inl missing ↦ rw (take_space, missing) (refl, refl)
    | inr (a, there) ↦
        let want = aligned_size size m.block_size in
        let r = alloc.allocate a want m.block_size want in
        elim (Option-cases (first_of r.1 want r.2)) [
          | inl short ↦ rw (take_space, there, short) (refl, refl)
          | inr (p, first) ↦ rw (take_space, there, first) (refl, refl)
        ]
  ]

  pub allocate_raw-SameEntries :
      (m : ExtentMap A) (tier : Tier) (size : ℕ) → SameEntries m (allocate_raw alloc m tier size).0
  unfolding allocate_raw
  allocate_raw-SameEntries m tier size =
      let one = take_space alloc m tier size in
      let same = take_space-SameEntries m tier size in
      elim (Option-cases one.1) [
        | inr (l, got) ↦ rw (allocate_raw, got) same
        | inl none_left ↦ elim (Bool-cases (falls_back alloc m tier)) [
          | inl back ↦
              let again = take_space-SameEntries one.0 Tier.slow size in
              rw (allocate_raw, none_left, back) (again.0 ∙ same.0, again.1 ∙ same.1)
          | inr stays ↦ rw (allocate_raw, none_left, stays) same
        ]
      ]

  -- What `enter` does to the entries.
  enter-entries :
      (m : ExtentMap A) (loc : DiskLocation)
      → let r = enter alloc m loc in
        (r.1 ≡ record { extent_id = m.next_extent_id; location = loc })
        × (r.0.entries ≡ insert m.next_extent_id (new_entry loc) m.entries)
        × (r.0.next_extent_id ≡ m.next_extent_id + 1)
  unfolding enter
  enter-entries m loc = elim (Bool-cases (of_tier m.has_device loc.tier false)) [
    | inl device ↦ rw (enter, device) (refl, refl, refl)
    | inr no_device ↦ rw (enter, no_device) (refl, refl, refl)
  ]

  -- If the ids of all entries lie below the next one: an extent that allocate_extent gives has an
  -- id that no entry had, is there afterwards with no used and no live bytes at the place that was
  -- given, and the other entries stay; if none is given, all entries stay. Either way the ids stay
  -- below the next one.
  pub allocate_extent-IsFresh :
      (m : ExtentMap A) (tier : Tier) (size id : ℕ)
      → IsFresh m
      → let after = (allocate_extent alloc m tier size).0 in
        IsFresh after × Gives m after id (allocate_extent alloc m tier size).1
  unfolding allocate_extent
  allocate_extent-IsFresh m tier size id fresh =
      let raw = allocate_raw alloc m tier size in
      let same = allocate_raw-SameEntries m tier size in
      let Meant : ExtentMap A × Option AllocResult → Type 0 =
        λ p. IsFresh p.0 × Gives m p.0 id p.1 in
      let kept : (j : ℕ) → lookup raw.0 j ≡ lookup m j = λ j. ap (find j) same.0 in
      elim (Option-cases raw.1) [
        | inl nothing ↦
            let whole : allocate_extent alloc m tier size ≡ (raw.0, none) =
              rw (allocate_extent, nothing) refl in
            subst Meant (sym whole)
              ((λ j le. kept j ∙ fresh j (omega (arith, le, same.1))), kept id)
        | inr (l, place) ↦
            let in_entries = enter-entries raw.0 l in
            let next = raw.0.next_extent_id in
            let now : (j : ℕ)
                → lookup (enter alloc raw.0 l).0 j
                  ≡ (if next == j then some (new_entry l) else lookup m j) =
              λ j.
                ap (find j) in_entries.1
                ∙ find-insert next j (new_entry l) raw.0.entries
                ∙ ap (λ o. if next == j then some (new_entry l) else o) (kept j) in
            let out = enter alloc raw.0 l in
            let whole : allocate_extent alloc m tier size ≡ (out.0, some out.1) =
              rw (allocate_extent, place) refl in
            subst Meant (sym whole) (
              (λ j le. now j ∙ ground (arith, in_entries.2, same.1, le, fresh j)),
              subst (λ r. Gives m out.0 id (some r)) (sym in_entries.0)
                  (fresh next (omega (arith, same.1)), now id),
            )
      ]

  -- An id that was given before keeps its entry, and stays given.
  pub allocate_extent-below :
      (m : ExtentMap A) (tier : Tier) (size id : ℕ)
      → id < m.next_extent_id
      → let after = (allocate_extent alloc m tier size).0 in
        (lookup after id ≡ lookup m id) × (id < after.next_extent_id)
  unfolding allocate_extent
  allocate_extent-below m tier size id given =
      let raw = allocate_raw alloc m tier size in
      let same = allocate_raw-SameEntries m tier size in
      elim (Option-cases raw.1) [
        | inl nothing ↦ rw (allocate_extent, nothing) (ap (find id) same.0, omega (arith, same.1))
        | inr (l, place) ↦
            let next = raw.0.next_extent_id in
            let in_entries = enter-entries raw.0 l in
            let other : (next == id) ≡ false = ground (arith, same.1, given) in
            rw (allocate_extent, place)
              (
                ap (find id) in_entries.1
                    ∙ find-insert next id (new_entry l) raw.0.entries
                    ∙ rw other (ap (find id) same.0),
                omega (arith, in_entries.2, same.1),
              )
      ]

  -- The id of an extent that is given is the next one.
  pub allocate_extent-next :
      (m : ExtentMap A) (tier : Tier) (size : ℕ) → NextOr m (allocate_extent alloc m tier size).1
  unfolding allocate_extent
  allocate_extent-next m tier size =
      let raw = allocate_raw alloc m tier size in
      elim (Option-cases raw.1) [
        | inl nothing ↦ rw (allocate_extent, nothing) tt
        | inr (l, place) ↦
            rw (allocate_extent, place)
              (ap (λ r. r.extent_id) (enter-entries raw.0 l).0
                ∙ (allocate_raw-SameEntries m tier size).1)
      ]
