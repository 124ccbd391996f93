-- ===== src/Btier/MigrationEngine/Moving.antt =====
-- migrate_tier of btier/migration_engine.cc on devices that work, while other threads use the extents.
use clab.Prelude.{
  ℕ, ◌+◌, ◌%◌, ◌^◌, ◌≤◌, ◌≡◌, Bool, true, false, not, ◌&&◌, List, none, some, length, ◌==◌,
  if◌then◌else◌, nat_eq,
}
use clab.Blk.Allocator.{Allocator}
use clab.Btier.Types.{Tier, DiskLocation, is_fast, active, state}
use clab.Btier.Device.{BlockDevice}
use clab.Btier.Device.Disk.{window, IsDisk}
use clab.Btier.ExtentMap.{ExtentEntry, ExtentMap, lookup}
use clab.Btier.ExtentMap.Migration.{MigrationHandle}
use clab.Btier.ExtentMap.Migration.Calls.{IoCall, deaths_on, is_freed}
use clab.Btier.ExtentMap.Migration.Held.{HeldAs}
use clab.Btier.Engine.{Impl}
use clab.Btier.MigrationEngine.{Migrator, MigrationResult, committed, interrupted, failure}

-- An aborted migration leaves the extent ACTIVE at its place.
abbrev pub IsBack : {A : Type 0} → ExtentMap A → MigrationHandle → Type 0
IsBack m h =
    (e : ExtentEntry) × (lookup m h.extent_id ≡ some e)
    × (e.location ≡ h.src_loc)
    × (state e.raw ≡ active)

-- ... or has gone, freed by another thread.
abbrev pub IsBackOr : {A : Type 0} → ExtentMap A → MigrationHandle → Bool → Type 0
IsBackOr m h true = lookup m h.extent_id ≡ none
IsBackOr m h false = IsBack m h

-- A commit either moves the extent or leaves it claimed, by the generations that have passed.
abbrev pub Commits :
    {A : Type 0} → MigrationHandle → ℕ → Bool → DiskLocation → ExtentMap A × Bool → Type 0
Commits h k gone dst (m, true) =
    (((k % 2 ^ 32 == 0) && not gone) ≡ true)
    × ((e : ExtentEntry) × (lookup m h.extent_id ≡ some e)
        × (e.location ≡ dst)
        × (state e.raw ≡ active))
Commits h k gone dst (m, false) = (((k % 2 ^ 32 == 0) && not gone) ≡ false) × HeldAs m h k gone

module _ {A D : Type 0} (alloc : Allocator A) (device : BlockDevice D) {size : ℕ}
    {bytes : D → ℕ → ℕ} (disk : IsDisk device size bytes) (cs : List IoCall) where
  abbrev pub dev_of : Impl A D → Tier → D
  dev_of i tier = if is_fast tier then i.journal.dev else i.slow_dev

  -- How a migration ends, for the content that was read: `to` is the tier that is asked for.
  abbrev pub Ends : MigrationHandle → Tier → List ℕ → Migrator A D × MigrationResult → Type 0
  Ends h to content (m, committed) =
      (((deaths_on h.extent_id cs % 2 ^ 32 == 0) && not (is_freed h.extent_id cs)) ≡ true)
      × ((e : ExtentEntry) × (lookup m.engine.extent_map h.extent_id ≡ some e)
          × (state e.raw ≡ active)
          × (e.location.offset + length content ≤ size
              → window (length content) e.location.offset (bytes (dev_of m.engine to)) ≡ content))
  Ends h to content (m, interrupted) =
      (((deaths_on h.extent_id cs % 2 ^ 32 == 0) && not (is_freed h.extent_id cs)) ≡ false)
      × IsBackOr m.engine.extent_map h (is_freed h.extent_id cs)
  Ends h to content (m, failure) = IsBack m.engine.extent_map h

  abbrev Written : Impl A D → Tier → ℕ → List ℕ → Type 0
  Written i to off content =
      off + length content ≤ size → window (length content) off (bytes (dev_of i to)) ≡ content
