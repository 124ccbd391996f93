-- ===== src/Btier/ExtentMap/Space.antt =====
-- The methods of btier/extent_map.cc that take space from the allocators and give it back.
pub mod Deferred
pub mod Fresh
use clab.Prelude.{
  ℕ, ◌+◌, ◌-◌, ◌%◌, ◌^◌, Bool, true, false, List, [], ◌∷◌, Option, none, some, ltb, leb, ◌==◌,
  if◌then◌else◌, nat_eq,
}
use clab.Prelude.Assoc.{erase}
use clab.Common.Intarith.{round_up_to}
use clab.Blk.Allocator.{Allocator, PExtent}
use clab.Btier.Types.{Tier, DiskLocation, header_size}
use clab.Btier.ExtentMap.{
  ExtentMap, DeferredFree, of_tier, with_tier, sub32, new_entry, lookup, store, add_deferred_free,
  change_free_list, write_header, free_bytes_of, free_insert, free_erase,
}

pub record AllocResult : Type 0 where
  pub extent_id : ℕ
  pub location : DiskLocation

-- The amount that is asked for: whole blocks, and at least one.
abbrev pub aligned_size : ℕ → ℕ → ℕ
aligned_size size block_size =
    let aligned = round_up_to size block_size in if aligned == 0 then block_size else aligned

abbrev first_of : ℕ → ℕ → List PExtent → Option PExtent
first_of got wanted [] = none
first_of got wanted (p ∷ ps) = if ltb got wanted then none else some p

abbrev at_extent : Tier → PExtent → DiskLocation
at_extent tier p = record { offset = p.offset; length = p.length; tier = tier }

-- `current_seq - it->added_at_seqno >= 2`, on 64 bits
abbrev pub is_due : ℕ → DeferredFree → Bool
is_due current d = leb 2 ((current + 2 ^ 64 - d.added_at_seqno) % 2 ^ 64)

module _ {A : Type 0} (alloc : Allocator A) where
  pub add_allocator : ExtentMap A → Tier → Option A → ExtentMap A
  add_allocator m tier a = record m { allocators = with_tier m.allocators tier a }

  pub add_block_device : ExtentMap A → Tier → Bool → ExtentMap A
  add_block_device m tier d = record m { has_device = with_tier m.has_device tier d }

  abbrev all_free : Option A → Option A
  all_free none = none
  all_free (some a) = some (alloc.init_add_free a 0 (alloc.get_capacity a))

  pub init_free_space : ExtentMap A → ExtentMap A
  init_free_space m = record m {
    allocators = record {
      on_fast = all_free m.allocators.on_fast;
      on_slow = all_free m.allocators.on_slow;
    };
  }

  -- The call of the tier's allocator, and the first piece if it gave all that was asked for.
  pub take_space : ExtentMap A → Tier → ℕ → ExtentMap A × Option DiskLocation
  take_space m tier size = elim (of_tier m.allocators tier none) [
    | none ↦ (m, none)
    | some a ↦
        let want = aligned_size size m.block_size in
        let (a', got, extents) = alloc.allocate a want m.block_size want in
        let m' = record m { allocators = with_tier m.allocators tier (some a') } in
        elim (first_of got want extents) [
          | none ↦ (m', none)
          | some p ↦ (m', some (at_extent tier p))
        ]
  ]

  -- Without an allocator the call fails; a FAST device that is full falls back to SLOW.
  abbrev falls_back : ExtentMap A → Tier → Bool
  falls_back m Tier.fast = elim m.allocators.on_fast [ none ↦ false | some a ↦ true ]
  falls_back m Tier.slow = false
  falls_back m (Tier.other b) = false

  pub allocate_raw : ExtentMap A → Tier → ℕ → ExtentMap A × Option DiskLocation
  unfolding take_space
  allocate_raw m tier size =
      let (m', loc) = take_space m tier size in
      elim loc [
        | some l ↦ (m', some l)
        | none ↦ if falls_back m tier then take_space m' Tier.slow size else (m', none)
      ]

  -- The entry, its place in the free list and its header.
  pub enter : ExtentMap A → DiskLocation → ExtentMap A × AllocResult
  enter m loc =
      let id = m.next_extent_id in
      let e = new_entry loc in
      let known = record (store m id e) { next_extent_id = id + 1 } in
      let listed =
        change_free_list known loc.tier (free_insert (sub32 loc.length header_size, id)) in
      (
        write_header listed loc (record {
          extent_id = id;
          length = loc.length;
          used_bytes = 0;
          live_bytes = 0;
          generation = 0;
        }),
        record { extent_id = id; location = loc },
      )

  pub allocate_extent : ExtentMap A → Tier → ℕ → ExtentMap A × Option AllocResult
  unfolding allocate_raw enter
  allocate_extent m tier size =
      let (m', loc) = allocate_raw m tier size in
      elim loc [ none ↦ (m', none) | some l ↦ let (m'', r) = enter m' l in (m'', some r) ]

  pub process_one : ExtentMap A → DeferredFree → ExtentMap A
  process_one m d = elim (of_tier m.allocators d.loc.tier none) [
    | none ↦ m
    | some a ↦ record m {
      allocators =
          with_tier m.allocators d.loc.tier
            (some (alloc.release a ((d.loc.offset, d.loc.length) ∷ [])));
    }
  ]

  pub process_list : ExtentMap A → ℕ → List DeferredFree → ExtentMap A × List DeferredFree
  unfolding process_one
  process_list m current [] = (m, [])
  process_list m current (d ∷ ds) =
      let (m', kept) = process_list (if is_due current d then process_one m d else m) current ds in
      (m', (if is_due current d then kept else d ∷ kept))

  pub process_deferred_free : ExtentMap A → ExtentMap A
  unfolding process_list
  process_deferred_free m =
      let (m', kept) = process_list m m.seqno m.deferred_free in
      record m' { deferred_free = kept; seqno = (m.seqno + 1) % 2 ^ 64 }

module _ {A : Type 0} where
  -- ExtentMap::free
  unfoldable pub free_extent : ExtentMap A → ℕ → ExtentMap A
  free_extent m id = elim (lookup m id) [
    | none ↦ m
    | some e ↦
        let gone = record m { entries = erase id m.entries } in
        let unlisted = change_free_list gone e.location.tier (free_erase (free_bytes_of e, id)) in
        add_deferred_free unlisted e.location
  ]

  pub clear_deferred_free : ExtentMap A → ExtentMap A
  clear_deferred_free m = record m { deferred_free = [] }
