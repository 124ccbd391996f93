-- ===== src/Btier/ExtentMap/Migration.antt =====
-- The migration handles of btier/extent_map.cc: claim, commit, abort, check.
pub mod Calls
pub mod Held
pub mod Protocol
use clab.Prelude.{
  ℕ, ◌+◌, Bool, true, false, not, List, [], ◌∷◌, ◌++◌, Option, none, some, ltb, ◌==◌, if◌then◌else◌,
  nat_eq,
}
use clab.Prelude.Assoc.{find, insert}
use clab.Btier.Types.{
  DiskLocation, active, migrating, pack, access_count, write_count, randomness, state, generation,
}
use clab.Btier.ExtentMap.{
  ExtentEntry, ExtentMap, lookup, store, mark_dirty, add_deferred_free, id_insert,
}

pub record MigrationHandle : Type 0 where
  pub extent_id : ℕ
  pub src_loc : DiskLocation
  pub gen_before : ℕ

-- The word with another state and generation.
pub restate : ℕ → ℕ → ℕ → ℕ
restate raw st gen = pack (access_count raw) (write_count raw) (randomness raw) st gen

module _ {A : Type 0} where
  unfoldable pub begin_migration : ExtentMap A → ℕ → ExtentMap A × Option MigrationHandle
  begin_migration m id = elim (lookup m id) [
    | none ↦ (m, none)
    | some e ↦
        let gen = generation e.raw in
        let claimed = store m id (record e { raw = restate e.raw migrating gen }) in
        if state e.raw == active
        then (claimed, some (record { extent_id = id; src_loc = e.location; gen_before = gen }))
        else (m, none)
  ]

  unfoldable pub commit_migration :
      ExtentMap A → MigrationHandle → DiskLocation → ExtentMap A × Bool
  commit_migration m h new_loc = elim (lookup m h.extent_id) [
    | none ↦ (m, false)
    | some e ↦
        let e' = record e { location = new_loc; raw = restate e.raw active (h.gen_before + 1) } in
        let moved =
          mark_dirty (add_deferred_free (store m h.extent_id e') e.location) h.extent_id in
        if generation e.raw == h.gen_before then (moved, true) else (m, false)
  ]

  unfoldable pub abort_migration : ExtentMap A → MigrationHandle → ExtentMap A
  abort_migration m h = elim (lookup m h.extent_id) [
    | none ↦ m
    | some e ↦
        if state e.raw == migrating
        then store m h.extent_id (record e { raw = restate e.raw active (generation e.raw) })
        else m
  ]

  unfoldable pub check_migration : ExtentMap A → MigrationHandle → Bool
  check_migration m h = elim (lookup m h.extent_id) [
    | none ↦ false
    | some e ↦ generation e.raw == h.gen_before
  ]

  unfoldable pub release_source : ExtentMap A → DiskLocation → ExtentMap A
  release_source m loc = add_deferred_free m loc
