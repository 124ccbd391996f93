-- ===== src/Btier/ExtentMap/Migration/Calls.antt =====
-- What put, get, del and sync of btier/btier.cc call on the extent map (btier/extent_map.cc), as
-- steps that may come between those of a migration.
use clab.Prelude.{
  ℕ, suc, ◌<◌, ◌≡◌, refl, ◌∙◌, inl, inr, Bool, false, ◌||◌, List, [], ◌∷◌, none, arith, ◌==◌,
  if◌then◌else◌, nat_eq, Bool-cases, Option-cases,
}
use clab.Prelude.Assoc.{find-erase}
use clab.Blk.Allocator.{Allocator}
use clab.Btier.Types.{Tier, IoOp, active, state}
use clab.Btier.ExtentMap.{ExtentMap, lookup, of_tier}
use clab.Btier.ExtentMap.Slots.{
  append_slot, mark_dead_slot, record_io, set_randomness, io_ref_inc, io_ref_dec, fits,
}
use clab.Btier.ExtentMap.Space.{allocate_extent, free_extent}
use clab.Btier.ExtentMap.Space.Fresh.{allocate_extent-below}
use clab.Btier.ExtentMap.Recovery.{flush_one, flush_all, flush_dirty_headers}

-- record_io, set_randomness, append_slot, mark_dead_slot, io_ref_inc, io_ref_dec, free,
-- allocate_extent and flush_dirty_headers, on any extent.
pub data IoCall : Type 0 where
  uses : ℕ → IoOp → ℕ → IoCall
  strides : ℕ → ℕ → IoCall
  appends : ℕ → ℕ → IoCall
  deaths : ℕ → ℕ → IoCall
  pins unpins frees : ℕ → IoCall
  allocates : Tier → ℕ → IoCall
  flushes : IoCall

module _ {A : Type 0} (alloc : Allocator A) where
  abbrev pub io_step : ExtentMap A → IoCall → ExtentMap A
  io_step m (uses id op now) = record_io m id op now
  io_step m (strides id r) = set_randomness m id r
  io_step m (appends id n) = (append_slot m id n).0
  io_step m (deaths id n) = mark_dead_slot m id n
  io_step m (pins id) = io_ref_inc m id
  io_step m (unpins id) = io_ref_dec m id
  io_step m (frees id) = free_extent m id
  io_step m (allocates tier size) = (allocate_extent alloc m tier size).0
  io_step m flushes = flush_dirty_headers m

  abbrev pub io_run : ExtentMap A → List IoCall → ExtentMap A
  io_run m [] = m
  io_run m (c ∷ cs) = io_run (io_step m c) cs

-- One more for each call that marks a slot of the extent dead.
abbrev pub age : ℕ → IoCall → ℕ → ℕ
age id (deaths j n) k = if j == id then suc k else k
age id _ k = k

abbrev pub aged : ℕ → List IoCall → ℕ → ℕ
aged id [] k = k
aged id (c ∷ cs) k = aged id cs (age id c k)

abbrev pub deaths_on : ℕ → List IoCall → ℕ
deaths_on id cs = aged id cs 0

-- The extent is gone once a call frees it.
abbrev pub lose : ℕ → IoCall → Bool → Bool
lose id (frees j) gone = (j == id) || gone
lose id _ gone = gone

abbrev pub lost : ℕ → List IoCall → Bool → Bool
lost id [] gone = gone
lost id (c ∷ cs) gone = lost id cs (lose id c gone)

abbrev pub is_freed : ℕ → List IoCall → Bool
is_freed id cs = lost id cs false

module _ {A : Type 0} where
  pub lookup-free_extent :
      (m : ExtentMap A) (id j : ℕ)
      → lookup (free_extent m id) j ≡ (if id == j then none else lookup m j)
  unfolding free_extent
  lookup-free_extent m id j = elim (Option-cases (lookup m id)) [
    | inl missing ↦ rw (free_extent, missing) (ground (arith, missing))
    | inr (e, there) ↦ rw (free_extent, there) (find-erase id j m.entries)
  ]

  flush_one-kept :
      (m : ExtentMap A) (id : ℕ)
      → ((flush_one m id).entries ≡ m.entries)
        × ((flush_one m id).next_extent_id ≡ m.next_extent_id)
  unfolding flush_one
  flush_one-kept m id = elim (Option-cases (lookup m id)) [
    | inl missing ↦ rw (flush_one, missing) (refl, refl)
    | inr (e, there) ↦ elim (Bool-cases (of_tier m.has_device e.location.tier false)) [
      | inl device ↦ rw (flush_one, there, device) (refl, refl)
      | inr no_device ↦ rw (flush_one, there, no_device) (refl, refl)
    ]
  ]

  flush_all-kept :
      (m : ExtentMap A) (ids : List ℕ)
      → ((flush_all m ids).entries ≡ m.entries)
        × ((flush_all m ids).next_extent_id ≡ m.next_extent_id)
  unfolding flush_all
  flush_all-kept m [] = (refl, refl)
  flush_all-kept m (id ∷ ids) =
      let one = flush_one-kept m id in
      let rest = flush_all-kept (flush_one m id) ids in (rest.0 ∙ one.0, rest.1 ∙ one.1)

  pub flush_dirty_headers-kept :
      (m : ExtentMap A)
      → ((flush_dirty_headers m).entries ≡ m.entries)
        × ((flush_dirty_headers m).next_extent_id ≡ m.next_extent_id)
  unfolding flush_dirty_headers
  flush_dirty_headers-kept m = flush_all-kept (record m { dirty_headers = [] }) m.dirty_headers

  append_slot-next :
      (m : ExtentMap A) (j n : ℕ) → (append_slot m j n).0.next_extent_id ≡ m.next_extent_id
  unfolding append_slot
  append_slot-next m j n = elim (Option-cases (lookup m j)) [
    | inl missing ↦ rw (append_slot, missing) refl
    | inr (e, there) ↦ elim (Bool-cases (state e.raw == active)) [
      | inl on ↦ elim (Bool-cases (fits e n)) [
        | inl room ↦ rw (append_slot, there, on, room) refl
        | inr full ↦ rw (append_slot, there, on, full) refl
      ]
      | inr off ↦ rw (append_slot, there, off) refl
    ]
  ]

  -- The ids that are given out only grow.
  pub io_step-next :
      (alloc : Allocator A) (m : ExtentMap A) (c : IoCall) (id : ℕ)
      → id < m.next_extent_id
      → id < (io_step alloc m c).next_extent_id
  unfolding record_io set_randomness mark_dead_slot io_ref_inc io_ref_dec free_extent
  io_step-next alloc m (uses j op now) id h = elim (Option-cases (lookup m j)) [
    | inl missing ↦ rw (record_io, missing) h
    | inr (e, there) ↦ rw (record_io, there) h
  ]
  io_step-next alloc m (strides j r) id h = elim (Option-cases (lookup m j)) [
    | inl missing ↦ rw (set_randomness, missing) h
    | inr (e, there) ↦ rw (set_randomness, there) h
  ]
  io_step-next alloc m (appends j n) id h = omega (arith, append_slot-next m j n)
  io_step-next alloc m (deaths j n) id h = elim (Option-cases (lookup m j)) [
    | inl missing ↦ rw (mark_dead_slot, missing) h
    | inr (e, there) ↦ rw (mark_dead_slot, there) h
  ]
  io_step-next alloc m (pins j) id h = elim (Option-cases (lookup m j)) [
    | inl missing ↦ rw (io_ref_inc, missing) h
    | inr (e, there) ↦ rw (io_ref_inc, there) h
  ]
  io_step-next alloc m (unpins j) id h = elim (Option-cases (lookup m j)) [
    | inl missing ↦ rw (io_ref_dec, missing) h
    | inr (e, there) ↦ rw (io_ref_dec, there) h
  ]
  io_step-next alloc m (frees j) id h = elim (Option-cases (lookup m j)) [
    | inl missing ↦ rw (free_extent, missing) h
    | inr (e, there) ↦ rw (free_extent, there) h
  ]
  io_step-next alloc m (allocates tier size) id h = (allocate_extent-below alloc m tier size id h).1
  io_step-next alloc m flushes id h = omega (arith, (flush_dirty_headers-kept m).1)
