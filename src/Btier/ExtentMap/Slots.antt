-- ===== src/Btier/ExtentMap/Slots.antt =====
-- The methods of btier/extent_map.cc that read an extent, record its use and pack values into it.
pub mod Packing
pub mod Counters
pub mod Effects
pub mod History
use clab.Prelude.{
  ℕ, ◌+◌, ◌-◌, ◌%◌, ◌^◌, min, Bool, true, false, not, List, [], ◌∷◌, Option, none, some, length,
  ltb, leb, ◌==◌, if◌then◌else◌, nat_eq, bit_and,
}
use clab.Prelude.Assoc.{find, insert}
use clab.Btier.Types.{
  Tier, DiskLocation, IoOp, read, write, header_size, active, pack, access_count, write_count,
  randomness, state, generation,
}
use clab.Btier.ExtentMap.{
  ExtentEntry, ExtentMap, FreeList, PerTier, of_tier, add32, sub32, uint32_max, uint64_max, lookup,
  store, mark_dirty, update_free_list, bump_generation, capacity_of, free_from, free_insert,
  free_erase, id_insert,
}

-- What `append_slot` does to the entry and to the map when there is room.
abbrev pub appended : ExtentEntry → ℕ → ExtentEntry
appended e n = record e {
  used_bytes = add32 e.used_bytes n;
  live_bytes = add32 e.live_bytes n;
  raw = bump_generation e.raw;
}

abbrev pub died : ExtentEntry → ℕ → ExtentEntry
died e n = record e {
  live_bytes = if leb n e.live_bytes then e.live_bytes - n else 0;
  raw = bump_generation e.raw;
}

-- The metrics word after one more use: the counters stop at 4095.
pub count_io : ℕ → IoOp → ℕ
count_io old op =
    let new_access = min (access_count old + 1) 4095 in
    let new_write : ℕ = elim op [
      | read ↦ write_count old
      | write ↦ min (write_count old + 1) 4095
    ] in
    pack new_access new_write (randomness old) (state old) (generation old)

pub put_randomness : ℕ → ℕ → ℕ
put_randomness old r =
    pack (access_count old) (write_count old) (bit_and r 0x3F) (state old) (generation old)

-- `used_bytes + size > capacity`, on 32 bits.
abbrev pub fits : ExtentEntry → ℕ → Bool
fits e n = leb (add32 e.used_bytes n) (capacity_of e)

module _ {A : Type 0} where
  pub get_location : ExtentMap A → ℕ → Option DiskLocation
  get_location m id = elim (lookup m id) [ none ↦ none | some e ↦ some e.location ]

  pub get_raw_metrics : ExtentMap A → ℕ → ℕ
  get_raw_metrics m id = elim (lookup m id) [ none ↦ 0 | some e ↦ e.raw ]

  unfoldable pub get_live_bytes : ExtentMap A → ℕ → ℕ
  get_live_bytes m id = elim (lookup m id) [ none ↦ 0 | some e ↦ e.live_bytes ]

  pub get_used_bytes : ExtentMap A → ℕ → ℕ
  get_used_bytes m id = elim (lookup m id) [ none ↦ 0 | some e ↦ e.used_bytes ]

  unfoldable pub record_io : ExtentMap A → ℕ → IoOp → ℕ → ExtentMap A
  record_io m id op now = elim (lookup m id) [
    | none ↦ m
    | some e ↦ store m id (record e { raw = count_io e.raw op; last_access_time = now })
  ]

  unfoldable pub set_randomness : ExtentMap A → ℕ → ℕ → ExtentMap A
  set_randomness m id r = elim (lookup m id) [
    | none ↦ m
    | some e ↦ store m id (record e { raw = put_randomness e.raw r })
  ]

  unfoldable pub io_ref_inc : ExtentMap A → ℕ → ExtentMap A
  io_ref_inc m id = elim (lookup m id) [
    | none ↦ m
    | some e ↦ store m id (record e { io_refs = add32 e.io_refs 1 })
  ]

  unfoldable pub io_ref_dec : ExtentMap A → ℕ → ExtentMap A
  io_ref_dec m id = elim (lookup m id) [
    | none ↦ m
    | some e ↦ store m id (record e { io_refs = sub32 e.io_refs 1 })
  ]

  -- Does the entry stand for an extent that takes new values?
  abbrev pub takes_values : ExtentMap A → ℕ → Bool
  takes_values m id = elim (lookup m id) [ none ↦ false | some e ↦ state e.raw == active ]

  pub first_active : ExtentMap A → FreeList → ℕ
  first_active m [] = uint64_max
  first_active m ((free, id) ∷ l) =
      let rest = first_active m l in if takes_values m id then id else rest

  pub find_extent_with_space : ExtentMap A → Tier → ℕ → ℕ
  find_extent_with_space m tier needed =
      first_active m (free_from (needed, 0) (of_tier m.free_lists tier []))

  -- The offset of the slot, or UINT32_MAX.
  unfoldable pub append_slot : ExtentMap A → ℕ → ℕ → ExtentMap A × ℕ
  append_slot m id n = elim (lookup m id) [
    | none ↦ (m, uint32_max)
    | some e ↦
        let e' = appended e n in
        let kept = mark_dirty (store m id e') id in
        let done =
          update_free_list kept id e.location.tier (sub32 (capacity_of e) e.used_bytes)
            (sub32 (capacity_of e) e'.used_bytes) in
        if not (state e.raw == active)
        then (m, uint32_max)
        else if not (fits e n)
        then (m, uint32_max)
        else (done, e.used_bytes)
  ]

  unfoldable pub mark_dead_slot : ExtentMap A → ℕ → ℕ → ExtentMap A
  mark_dead_slot m id n = elim (lookup m id) [
    | none ↦ m
    | some e ↦
        let free = sub32 (capacity_of e) e.used_bytes in
        update_free_list (mark_dirty (store m id (died e n)) id) id e.location.tier free free
  ]
