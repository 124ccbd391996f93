-- ===== src/Btier/Engine/Untouched.antt =====
-- The steps of put in btier/btier.cc that leave the key map as it is.
use clab.Prelude.{
  ℕ, ◌+◌, ◌%◌, ◌^◌, ◌≡◌, refl, ◌∙◌, inl, inr, Bool, true, false, List, [], ◌∷◌, Option, none, some,
  leb, ◌==◌, Bool-cases,
}
use clab.Blk.Allocator.{Allocator}
use clab.Btier.Types.{Tier, DiskLocation, KeyLocation, is_fast, header_size}
use clab.Btier.Device.{Status, ok, error, BlockDevice}
use clab.Btier.ExtentMap.{ExtentMap, HeaderWrite, uint32_max, uint64_max}
use clab.Btier.ExtentMap.Slots.{append_slot, find_extent_with_space, get_location}
use clab.Btier.ExtentMap.Space.{AllocResult, allocate_extent}
use clab.Btier.Journal.Codec.{JournalRecord}
use clab.Btier.Engine.{
  Impl, Slot, Outcome, refused, given, header_bytes, write_tier, write_headers, with_extent_map,
  checkpoint_now, transact, pre_transacted, allocated, new_extent, appended_new, in_new_extent,
  reserve_large, found_new, found_old, find_extent, appended_small, in_found_extent, reserve_small,
  undo, free_in, new_record,
}
use clab.Btier.Engine.Operations.{keep_or_checkpoint, release_if, reserve}

module _ {A D : Type 0} (alloc : Allocator A) (device : BlockDevice D) where
  pub key_map-write_tier :
      (i : Impl A D) (t : Tier) (off : ℕ) (bl : List ℕ)
      → (write_tier alloc device i t off bl).0.key_map ≡ i.key_map
  unfolding write_tier
  key_map-write_tier i t off bl = elim (Bool-cases (is_fast t)) [
    | inl fast ↦ rw (write_tier, fast) refl
    | inr slow ↦ rw (write_tier, slow) refl
  ]

  key_map-write_headers :
      (i : Impl A D) (ws : List HeaderWrite) → (write_headers alloc device i ws).key_map ≡ i.key_map
  unfolding write_headers
  key_map-write_headers i [] = refl
  key_map-write_headers i (w ∷ ws) =
      key_map-write_headers (write_tier alloc device i w.tier w.offset (header_bytes w.header)).0 ws
      ∙ key_map-write_tier i w.tier w.offset (header_bytes w.header)

  pub key_map-with_extent_map :
      (i : Impl A D) (m : ExtentMap A) → (with_extent_map alloc device i m).key_map ≡ i.key_map
  unfolding with_extent_map
  key_map-with_extent_map i m =
      key_map-write_headers (record i { extent_map = record m { header_writes = [] } })
        m.header_writes

  pub key_map-transact :
      (i : Impl A D) (rs : List JournalRecord) → (transact alloc device i rs).0.key_map ≡ i.key_map
  unfolding transact
  key_map-transact i rs = refl

  key_map-pre_transacted :
      (r : AllocResult) (x : Impl A D × Status)
      → (pre_transacted alloc device r x).0.key_map ≡ x.0.key_map
  key_map-pre_transacted r (i, error e) = refl
  key_map-pre_transacted r (i, ok) = refl

  key_map-allocated :
      (i : Impl A D) (x : ExtentMap A × Option AllocResult)
      → (allocated alloc device i x).0.key_map ≡ i.key_map
  unfolding allocated
  key_map-allocated i (m, none) = key_map-with_extent_map i m
  key_map-allocated i (m, some r) =
      let j = with_extent_map alloc device i m in
      let rs = new_record r.extent_id r.location ∷ [] in
      key_map-pre_transacted r (transact alloc device j rs)
      ∙ (key_map-transact j rs ∙ key_map-with_extent_map i m)

  key_map-new_extent :
      (i : Impl A D) (size : ℕ) → (new_extent alloc device i size).0.key_map ≡ i.key_map
  unfolding new_extent
  key_map-new_extent i size =
      key_map-allocated i (allocate_extent alloc i.extent_map Tier.fast size)

  key_map-appended_new :
      (i : Impl A D) (r : AllocResult) (x : ExtentMap A × ℕ)
      → (appended_new alloc device i r x).0.key_map ≡ i.key_map
  key_map-appended_new i r (m, offset) = elim (Bool-cases (offset == uint32_max)) [
    | inl full ↦ rw (appended_new, full) refl
    | inr room ↦ rw (appended_new, room) refl
  ]

  key_map-in_new_extent :
      (size : ℕ) (x : Impl A D × Outcome AllocResult)
      → (in_new_extent alloc device size x).0.key_map ≡ x.0.key_map
  key_map-in_new_extent size (i, refused e) = refl
  key_map-in_new_extent size (i, given r) =
      key_map-appended_new i r (append_slot i.extent_map r.extent_id (size % 2 ^ 32))

  key_map-found_new :
      (x : Impl A D × Outcome AllocResult) → (found_new alloc device x).0.key_map ≡ x.0.key_map
  key_map-found_new (i, refused e) = refl
  key_map-found_new (i, given r) = refl

  key_map-found_old :
      (i : Impl A D) (id : ℕ) (loc : Option DiskLocation)
      → (found_old alloc device i id loc).0.key_map ≡ i.key_map
  key_map-found_old i id none = refl
  key_map-found_old i id (some loc) = refl

  key_map-find_extent :
      (i : Impl A D) (size : ℕ) → (find_extent alloc device i size).0.key_map ≡ i.key_map
  unfolding find_extent
  key_map-find_extent i size =
      let id = find_extent_with_space i.extent_map Tier.fast (size % 2 ^ 32) in
      elim (Bool-cases (id == uint64_max)) [
        | inl missed ↦
            rw (find_extent, missed)
              (key_map-found_new (new_extent alloc device i i.cfg.extent_size)
                ∙ key_map-new_extent i i.cfg.extent_size)
        | inr hit ↦ rw (find_extent, hit) (key_map-found_old i id (get_location i.extent_map id))
      ]

  key_map-retried :
      (i j : Impl A D) (size : ℕ)
      → j.key_map ≡ i.key_map
      → (in_new_extent alloc device size (new_extent alloc device j j.cfg.extent_size)).0.key_map
        ≡ i.key_map
  key_map-retried i j size same =
      key_map-in_new_extent size (new_extent alloc device j j.cfg.extent_size)
      ∙ (key_map-new_extent j j.cfg.extent_size ∙ same)

  key_map-appended_small :
      (i : Impl A D) (s : Slot) (size : ℕ) (x : ExtentMap A × ℕ)
      → (appended_small alloc device i s size x).0.key_map ≡ i.key_map
  unfolding appended_small
  key_map-appended_small i s size (m, offset) =
      let kept : Impl A D = record i { extent_map = m } in
      elim (Bool-cases (offset == uint32_max)) [
        | inl full ↦ elim (Bool-cases s.created) [
          | inl new ↦
              rw (appended_small, full, new)
                (key_map-retried i (free_in alloc device kept s.extent_id) size refl)
          | inr old ↦ rw (appended_small, full, old) (key_map-retried i kept size refl)
        ]
        | inr room ↦ rw (appended_small, room) refl
      ]

  key_map-in_found_extent :
      (size : ℕ) (x : Impl A D × Outcome Slot)
      → (in_found_extent alloc device size x).0.key_map ≡ x.0.key_map
  key_map-in_found_extent size (i, refused e) = refl
  key_map-in_found_extent size (i, given s) =
      key_map-appended_small i s size (append_slot i.extent_map s.extent_id (size % 2 ^ 32))

  key_map-reserve_small :
      (i : Impl A D) (size : ℕ) → (reserve_small alloc device i size).0.key_map ≡ i.key_map
  unfolding reserve_small
  key_map-reserve_small i size =
      key_map-in_found_extent size (find_extent alloc device i size) ∙ key_map-find_extent i size

  key_map-reserve_large :
      (i : Impl A D) (size : ℕ) → (reserve_large alloc device i size).0.key_map ≡ i.key_map
  unfolding reserve_large
  key_map-reserve_large i size =
      key_map-in_new_extent size (new_extent alloc device i (size + header_size))
      ∙ key_map-new_extent i (size + header_size)

  pub key_map-undo :
      (i : Impl A D) (s : Slot) (size : ℕ) → (undo alloc device i s size).key_map ≡ i.key_map
  key_map-undo i s size = elim (Bool-cases s.created) [
    | inl new ↦ rw (undo, new) refl
    | inr old ↦ rw (undo, old) refl
  ]

  pub key_map-keep_or_checkpoint :
      (b : Bool) (i : Impl A D) → (keep_or_checkpoint alloc device b i).key_map ≡ i.key_map
  unfolding checkpoint_now
  key_map-keep_or_checkpoint true i = refl
  key_map-keep_or_checkpoint false i = refl

  pub key_map-release_if :
      (i : Impl A D) (old : Option KeyLocation)
      → (release_if alloc device i old).key_map ≡ i.key_map
  unfolding release_if
  key_map-release_if i none = refl
  key_map-release_if i (some old) = refl

  pub journal-release_if :
      (i : Impl A D) (old : Option KeyLocation)
      → (release_if alloc device i old).journal ≡ i.journal
  unfolding release_if
  journal-release_if i none = refl
  journal-release_if i (some old) = refl

  pub key_map-reserve :
      (i : Impl A D) (size : ℕ) → (reserve alloc device i size).0.key_map ≡ i.key_map
  unfolding reserve
  key_map-reserve i size = elim (Bool-cases (leb i.cfg.large_value_threshold size)) [
    | inl large ↦ rw (reserve, large) (key_map-reserve_large i size)
    | inr small ↦ rw (reserve, small) (key_map-reserve_small i size)
  ]
