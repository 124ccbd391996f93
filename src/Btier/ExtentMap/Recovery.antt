-- ===== src/Btier/ExtentMap/Recovery.antt =====
-- The methods of btier/extent_map.cc that recovery and checkpoints use.
use clab.Prelude.{ℕ, ◌+◌, List, [], ◌∷◌, none, some, length, leb, if◌then◌else◌, nat_eq}
use clab.Btier.Types.{DiskLocation, header_size, generation}
use clab.Btier.ExtentMap.{
  ExtentEntry, ExtentMap, sub32, new_entry, lookup, store, mark_dirty, change_free_list,
  update_free_list, write_header, capacity_of, free_insert,
}

pub record SnapshotEntry : Type 0 where
  pub extent_id : ℕ
  pub location : DiskLocation
  pub raw_metrics : ℕ
  pub last_access_time : ℕ
  pub used_bytes : ℕ
  pub live_bytes : ℕ

abbrev snapshot_entry : ℕ × ExtentEntry → SnapshotEntry
snapshot_entry (id, e) = record {
  extent_id = id;
  location = e.location;
  raw_metrics = e.raw;
  last_access_time = e.last_access_time;
  used_bytes = e.used_bytes;
  live_bytes = e.live_bytes;
}

-- The order of an unordered map is not specified; the model has one.
unfoldable pub snapshot_of : List (ℕ × ExtentEntry) → List SnapshotEntry
snapshot_of [] = []
snapshot_of (x ∷ xs) = snapshot_entry x ∷ snapshot_of xs

module _ {A : Type 0} where
  pub size : ExtentMap A → ℕ
  size m = length m.entries

  unfoldable pub snapshot : ExtentMap A → List SnapshotEntry
  unfolding snapshot_of
  snapshot m = snapshot_of m.entries

  unfoldable pub create_entry_from_journal : ExtentMap A → ℕ → DiskLocation → ExtentMap A
  create_entry_from_journal m id loc =
      let known = store m id (new_entry loc) in
      let numbered : ExtentMap A =
        if leb m.next_extent_id id then record known { next_extent_id = id + 1 } else known in
      change_free_list numbered loc.tier (free_insert (sub32 loc.length header_size, id))

  pub restore_extent_state : ExtentMap A → ℕ → ℕ → ℕ → ExtentMap A
  restore_extent_state m id used live = elim (lookup m id) [
    | none ↦ m
    | some e ↦
        let stored = store m id (record e { used_bytes = used; live_bytes = live }) in
        mark_dirty
          (update_free_list stored id e.location.tier (sub32 (capacity_of e) e.used_bytes)
            (sub32 (capacity_of e) used))
          id
  ]

  unfoldable pub flush_one : ExtentMap A → ℕ → ExtentMap A
  flush_one m id = elim (lookup m id) [
    | none ↦ m
    | some e ↦ write_header m e.location (record {
      extent_id = id;
      length = e.location.length;
      used_bytes = e.used_bytes;
      live_bytes = e.live_bytes;
      generation = generation e.raw;
    })
  ]

  unfoldable pub flush_all : ExtentMap A → List ℕ → ExtentMap A
  unfolding flush_one
  flush_all m [] = m
  flush_all m (id ∷ ids) = flush_all (flush_one m id) ids

  unfoldable pub flush_dirty_headers : ExtentMap A → ExtentMap A
  unfolding flush_all
  flush_dirty_headers m = flush_all (record m { dirty_headers = [] }) m.dirty_headers
