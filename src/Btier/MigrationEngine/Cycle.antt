-- ===== src/Btier/MigrationEngine/Cycle.antt =====
-- btier/migration_engine.cc: the queue and one cycle of the worker. Scores are floating point, so
-- they are a parameter, with the order that sorts them and the comparisons with the thresholds.
use clab.Prelude.{
  ℕ, suc, Bool, true, false, ◌&&◌, ◌||◌, List, [], ◌∷◌, ◌++◌, Option, none, some, ltb, leb, ◌==◌,
  if◌then◌else◌,
}
use clab.Blk.Allocator.{Allocator}
use clab.Btier.Types.{Tier, DiskLocation, header_size}
use clab.Btier.Device.{BlockDevice}
use clab.Btier.KeyMap.{Key, KeyMap, keys_in_extent, get_consecutive_sequential}
use clab.Btier.ExtentMap.{ExtentMap, sub32}
use clab.Btier.ExtentMap.Slots.{get_location, set_randomness}
use clab.Btier.ExtentMap.Space.{process_deferred_free}
use clab.Btier.ExtentMap.Recovery.{SnapshotEntry, snapshot}
use clab.Btier.MigrationEngine.{
  MigrationTask, TaskType, tier_migrate, compact, Migrator, set_map, migrate_tier, compact_extent,
}

-- ScoringEngine::score at the time of the cycle, std::sort by falling score, and what BtierConfig
-- compares with.
pub record Scoring (S : Type 0) : Type 0 where
  pub score : ℕ → ℕ → S
  pub sorted : List (ℕ × S) → List (ℕ × S)
  pub above_promote : S → Bool
  pub below_demote : S → Bool
  pub over_dead_ratio : ℕ → ℕ → Bool
  pub over_usage_ratio : ℕ → ℕ → Bool
  pub max_migrations : ℕ
  pub max_compactions : ℕ

-- Some key of the extent is not in a sequential run.
unfoldable pub has_random_key : KeyMap → List Key → Bool
unfolding get_consecutive_sequential
has_random_key k [] = false
has_random_key k (key ∷ keys) = (get_consecutive_sequential k key == 0) || has_random_key k keys

-- Step 2.
unfoldable pub refresh_randomness :
    {A : Type 0} → KeyMap → List SnapshotEntry → ExtentMap A → ExtentMap A
unfolding has_random_key
refresh_randomness k [] m = m
refresh_randomness k (s ∷ snaps) m = refresh_randomness k snaps (
    set_randomness m s.extent_id
      (if has_random_key k (keys_in_extent k s.extent_id) then 63 else 0))

module _ {S : Type 0} (scoring : Scoring S) where
  -- Step 4.
  unfoldable pub scored : List SnapshotEntry → List (ℕ × S)
  scored [] = []
  scored (s ∷ snaps) = (s.extent_id, scoring.score s.raw_metrics s.last_access_time) ∷ scored snaps

  -- The task for an extent on a tier with a score, if there is one.
  abbrev pub task_for : ℕ → S → Tier → Option MigrationTask
  task_for id s Tier.slow =
      if scoring.above_promote s
      then some (record { type = tier_migrate; extent_id = id; from = Tier.slow; to = Tier.fast })
      else none
  task_for id s Tier.fast =
      if scoring.below_demote s
      then some (record { type = tier_migrate; extent_id = id; from = Tier.fast; to = Tier.slow })
      else none
  task_for id s (Tier.other b) = none

  abbrev pub task_at : ℕ → S → Option DiskLocation → Option MigrationTask
  task_at id s none = none
  task_at id s (some loc) = task_for id s loc.tier

  -- Step 5: the tasks that are put into the queue, at most `max_migrations` of them.
  unfoldable pub migrations : {A : Type 0} → ExtentMap A → List (ℕ × S) → ℕ → List MigrationTask
  migrations m [] migrated = []
  migrations m ((id, s) ∷ rest) migrated = elim (leb scoring.max_migrations migrated) [
    | true ↦ []
    | false ↦ elim (task_at id s (get_location m id)) [
      | none ↦ migrations m rest migrated
      | some task ↦ task ∷ migrations m rest (suc migrated)
    ]
  ]

  -- Step 6.
  abbrev pub wants_compaction : SnapshotEntry → Bool
  wants_compaction s =
      let dead_bytes = sub32 s.used_bytes s.live_bytes in
      let capacity = sub32 s.location.length header_size in
      (ltb 0 s.used_bytes && ltb 0 capacity)
      && (scoring.over_dead_ratio dead_bytes s.used_bytes
          && scoring.over_usage_ratio s.used_bytes capacity)

  unfoldable pub compactions : List SnapshotEntry → ℕ → List MigrationTask
  compactions [] compacted = []
  compactions (s ∷ snaps) compacted = elim (leb scoring.max_compactions compacted) [
    | true ↦ []
    | false ↦ elim (wants_compaction s) [
      | true ↦
          record {
            type = compact;
            extent_id = s.extent_id;
            from = s.location.tier;
            to = s.location.tier;
          }
          ∷ compactions snaps (suc compacted)
      | false ↦ compactions snaps compacted
    ]
  ]

module _ {A D : Type 0} (alloc : Allocator A) (device : BlockDevice D)
    (meanwhile : ExtentMap A → ExtentMap A) where
  abbrev pub enqueue : Migrator A D → List MigrationTask → Migrator A D
  enqueue m tasks = record m { queue = m.queue ++ tasks }

  unfoldable pub run_task : TaskType → MigrationTask → Migrator A D → Migrator A D
  unfolding migrate_tier compact_extent
  run_task tier_migrate t m = (migrate_tier alloc device meanwhile m t.extent_id t.from t.to).0
  run_task compact t m = (compact_extent alloc device meanwhile m t.extent_id).0

  unfoldable pub run_tasks : List MigrationTask → Migrator A D → Migrator A D
  unfolding run_task
  run_tasks [] m = m
  run_tasks (t ∷ ts) m = run_tasks ts (run_task t.type t m)

  -- process_queue
  unfoldable pub process_queue : Migrator A D → Migrator A D
  unfolding run_tasks
  process_queue m = run_tasks m.queue (record m { queue = [] })

  -- run_cycle_inline
  unfoldable pub run_cycle : {S : Type 0} → Scoring S → Migrator A D → Migrator A D
  unfolding refresh_randomness scored migrations compactions process_queue snapshot
  run_cycle scoring m =
      let freed = process_deferred_free alloc m.engine.extent_map in
      let snaps = snapshot freed in
      let refreshed = refresh_randomness m.engine.key_map snaps freed in
      let ranked = scoring.sorted (scored scoring snaps) in
      process_queue (
        enqueue (set_map alloc device m refreshed)
          (migrations scoring refreshed ranked 0 ++ compactions scoring snaps 0))
