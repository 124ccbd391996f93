-- ===== src/Btier/MigrationEngine.antt =====
-- btier/migration_engine.h and btier/migration_engine.cc over the state of the engine. The worker
-- thread holds no lock between the steps of a migration: what other threads do to the extent map
-- between the last copy and the check of the generation is the argument `meanwhile`. A task's score,
-- which nothing reads, and the log of the observer are left out.
pub mod Cycle
pub mod Moving
pub mod Compacting
pub mod Queueing
use clab.Prelude.{
  ℕ, ◌+◌, ◌%◌, ◌^◌, Bool, true, false, List, [], ◌∷◌, ◌++◌, Option, none, some, ◌==◌, if◌then◌else◌,
}
use clab.Blk.Allocator.{Allocator}
use clab.Btier.Types.{Tier, DiskLocation, KeyLocation, is_fast, header_size}
use clab.Btier.Device.{Status, ok, error, Read, got, failed, BlockDevice}
use clab.Btier.KeyMap.{Key, KeyMap, lookup, keys_in_extent, batch_update}
use clab.Btier.ExtentMap.{ExtentMap, uint32_max}
use clab.Btier.ExtentMap.Slots.{append_slot}
use clab.Btier.ExtentMap.Space.{AllocResult, allocate_raw, allocate_extent, free_extent}
use clab.Btier.ExtentMap.Migration.{
  MigrationHandle, begin_migration, commit_migration, abort_migration, check_migration,
  release_source,
}
use clab.Btier.Engine.{Impl, filled, write_tier, with_extent_map, free_in}

pub data MigrationResult : Type 0 where
  committed interrupted failure : MigrationResult

pub data TaskType : Type 0 where
  tier_migrate compact : TaskType

pub record MigrationTask : Type 0 where
  pub type : TaskType
  pub extent_id : ℕ
  pub from : Tier
  pub to : Tier

-- The counters, each a uint64_t.
pub record Stats : Type 0 where
  pub promotions_committed : ℕ
  pub demotions_committed : ℕ
  pub compactions_committed : ℕ
  pub interruptions : ℕ
  pub io_errors : ℕ

-- The engine's parts, the queue and the counters.
pub record Migrator (A D : Type 0) : Type 0 where
  pub engine : Impl A D
  pub queue : List MigrationTask
  pub stats : Stats

-- fetch_add(1)
abbrev pub one_more : ℕ → ℕ
one_more n = (n + 1) % 2 ^ 64

abbrev pub count_io_error : Stats → Stats
count_io_error s = record s { io_errors = one_more s.io_errors }

abbrev pub count_interruption : Stats → Stats
count_interruption s = record s { interruptions = one_more s.interruptions }

abbrev pub count_compaction : Stats → Stats
count_compaction s = record s { compactions_committed = one_more s.compactions_committed }

abbrev pub count_move : Tier → Tier → Stats → Stats
count_move Tier.slow Tier.fast s = record s {
  promotions_committed = one_more s.promotions_committed;
}
count_move Tier.fast Tier.slow s = record s { demotions_committed = one_more s.demotions_committed }
count_move from to s = s

-- One round of the copy loop of compact: the new place of the key, or how it failed.
pub data Copied : Type 0 where
  copied : KeyLocation → Copied
  no_room : Copied
  broken : Copied

-- The updates of the key map, or which failure ended the loop.
pub data Copies : Type 0 where
  all_copied : List (Key × KeyLocation) → Copies
  stopped : (Stats → Stats) → Copies

module _ {A D : Type 0} (alloc : Allocator A) (device : BlockDevice D) where
  -- `device_for(tier)->read(...)`
  abbrev pub read_for : Impl A D → Tier → ℕ → ℕ → Read
  read_for i tier off n =
      if is_fast tier then device.read i.journal.dev off n else device.read i.slow_dev off n

  abbrev pub set_map : Migrator A D → ExtentMap A → Migrator A D
  set_map m e = record m { engine = record (m.engine) { extent_map = e } }

  abbrev pub tally : Migrator A D → (Stats → Stats) → Migrator A D
  tally m f = record m { stats = f m.stats }

  abbrev pub abort_in : Migrator A D → MigrationHandle → Migrator A D
  abort_in m h = set_map m (abort_migration m.engine.extent_map h)

  abbrev pub release_in : Migrator A D → DiskLocation → Migrator A D
  release_in m loc = set_map m (release_source m.engine.extent_map loc)

  -- The end of migrate_tier: commit, or abort.
  abbrev pub after_commit :
      Tier
      → Tier
      → MigrationHandle
      → DiskLocation
      → Migrator A D
      → ExtentMap A × Bool
      → Migrator A D × MigrationResult
  after_commit from to h dst m (e, true) = (tally (set_map m e) (count_move from to), committed)
  after_commit from to h dst m (e, false) =
      (tally (release_in (abort_in (set_map m e) h) dst) count_interruption, interrupted)

  module _ (meanwhile : ExtentMap A → ExtentMap A) where
    abbrev pub after_write :
        Tier
        → Tier
        → MigrationHandle
        → DiskLocation
        → Migrator A D
        → Impl A D × Status
        → Migrator A D × MigrationResult
    after_write from to h dst m (i, error e) =
        (tally (release_in (abort_in (record m { engine = i }) h) dst) count_io_error, failure)
    after_write from to h dst m (i, ok) =
        let later = meanwhile i.extent_map in
        after_commit from to h dst (set_map (record m { engine = i }) later)
          (commit_migration later h dst)

    unfoldable pub after_allocate :
        Tier
        → Tier
        → MigrationHandle
        → List ℕ
        → Migrator A D
        → ExtentMap A × Option DiskLocation
        → Migrator A D × MigrationResult
    unfolding write_tier
    after_allocate from to h content m (e, none) = (abort_in (set_map m e) h, failure)
    after_allocate from to h content m (e, some dst) =
        after_write from to h dst m
          (write_tier alloc device (set_map m e).engine to dst.offset content)

    unfoldable pub after_read :
        Tier → Tier → MigrationHandle → Migrator A D → Read → Migrator A D × MigrationResult
    unfolding after_allocate
    after_read from to h m (failed e) = (tally (abort_in m h) count_io_error, failure)
    after_read from to h m (got content) =
        after_allocate from to h content m
          (allocate_raw alloc m.engine.extent_map to h.src_loc.length)

    unfoldable pub after_begin :
        Tier
        → Tier
        → Migrator A D
        → ExtentMap A × Option MigrationHandle
        → Migrator A D × MigrationResult
    unfolding after_read
    after_begin from to m (e, none) = (set_map m e, interrupted)
    after_begin from to m (e, some h) =
        after_read from to h (set_map m e)
          (read_for m.engine from h.src_loc.offset h.src_loc.length)

    -- MigrationEngine::Impl::migrate_tier
    unfoldable pub migrate_tier : Migrator A D → ℕ → Tier → Tier → Migrator A D × MigrationResult
    unfolding after_begin
    migrate_tier m id from to = after_begin from to m (begin_migration m.engine.extent_map id)

  abbrev pub copy_written : ℕ → ℕ → ℕ → Impl A D × Status → Impl A D × Copied
  copy_written id offset n (i, error e) = (i, broken)
  copy_written id offset n (i, ok) =
      (i, copied (record { extent_id = id; offset = offset; length = n }))

  unfoldable pub copy_appended :
      Tier → AllocResult → ℕ → List ℕ → Impl A D → ExtentMap A × ℕ → Impl A D × Copied
  unfolding write_tier
  copy_appended tier r n value i (e, offset) =
      let kept = record i { extent_map = e } in
      if offset == uint32_max
      then (kept, no_room)
      else copy_written r.extent_id offset n
          (write_tier alloc device kept tier (r.location.offset + header_size + offset) value)

  unfoldable pub copy_read : Tier → AllocResult → ℕ → Impl A D → Read → Impl A D × Copied
  unfolding copy_appended
  copy_read tier r n i (failed e) = (i, broken)
  copy_read tier r n i (got value) =
      copy_appended tier r n value i (append_slot i.extent_map r.extent_id n)

  unfoldable pub copy_key :
      MigrationHandle → AllocResult → KeyLocation → Impl A D → Impl A D × Copied
  unfolding copy_read
  copy_key h r old i =
      let tier = h.src_loc.tier in
      copy_read tier r old.length i
        (read_for i tier (h.src_loc.offset + header_size + old.offset) old.length)

  abbrev pub with_update : Key → KeyLocation → Impl A D × Copies → Impl A D × Copies
  with_update key kloc (i, all_copied us) = (i, all_copied ((key, kloc) ∷ us))
  with_update key kloc (i, stopped f) = (i, stopped f)

  unfoldable pub copy_keys : MigrationHandle → AllocResult → List Key → Impl A D → Impl A D × Copies
  unfolding copy_key
  copy_keys h r [] i = (i, all_copied [])
  copy_keys h r (key ∷ keys) i =
      let one = copy_key h r (filled (lookup i.key_map key)) i in
      elim one.1 [
        | copied kloc ↦ with_update key kloc (copy_keys h r keys one.0)
        | no_room ↦ (one.0, stopped (λ s. s))
        | broken ↦ (one.0, stopped count_io_error)
      ]

  abbrev pub drop_copy : Migrator A D → MigrationHandle → ℕ → (Stats → Stats) → Migrator A D
  drop_copy m h new_id f =
      let aborted = abort_in m h in
      tally (record aborted { engine = free_in alloc device aborted.engine new_id }) f

  module _ (meanwhile : ExtentMap A → ExtentMap A) where
    abbrev pub after_copies :
        MigrationHandle
        → AllocResult
        → Migrator A D
        → Impl A D × Copies
        → Migrator A D × MigrationResult
    after_copies h r m (i, stopped f) =
        (drop_copy (record m { engine = i }) h r.extent_id f, failure)
    after_copies h r m (i, all_copied us) =
        let later = meanwhile i.extent_map in
        let at = record i { extent_map = later } in
        let moved = record at {
          key_map = batch_update at.key_map us;
          extent_map = free_extent later h.extent_id;
        } in
        if check_migration later h
        then (tally (record m { engine = moved }) count_compaction, committed)
        else (drop_copy (record m { engine = at }) h r.extent_id count_interruption, interrupted)

    unfoldable pub compact_into :
        MigrationHandle
        → List Key
        → Migrator A D
        → ExtentMap A × Option AllocResult
        → Migrator A D × MigrationResult
    unfolding copy_keys with_extent_map
    compact_into h keys m (e, none) =
        (abort_in (record m { engine = with_extent_map alloc device m.engine e }) h, failure)
    compact_into h keys m (e, some r) =
        let started = with_extent_map alloc device m.engine e in
        after_copies h r (record m { engine = started }) (copy_keys h r keys started)

    unfoldable pub compact_keys :
        MigrationHandle → List Key → Migrator A D → Migrator A D × MigrationResult
    unfolding compact_into
    compact_keys h [] m = (
      tally (record m { engine = free_in alloc device m.engine h.extent_id }) count_compaction,
      committed,
    )
    compact_keys h (key ∷ keys) m =
        compact_into h (key ∷ keys) m
          (allocate_extent alloc m.engine.extent_map h.src_loc.tier h.src_loc.length)

    unfoldable pub compact_begun :
        Migrator A D → ExtentMap A × Option MigrationHandle → Migrator A D × MigrationResult
    unfolding compact_keys
    compact_begun m (e, none) = (set_map m e, interrupted)
    compact_begun m (e, some h) =
        compact_keys h (keys_in_extent m.engine.key_map h.extent_id) (set_map m e)

    -- MigrationEngine::Impl::compact
    unfoldable pub compact_extent : Migrator A D → ℕ → Migrator A D × MigrationResult
    unfolding compact_begun
    compact_extent m id = compact_begun m (begin_migration m.engine.extent_map id)
