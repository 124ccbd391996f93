-- ===== src/Btier/MigrationEngine/Queueing.antt =====
-- The tasks that a cycle of btier/migration_engine.cc puts into its queue.
use clab.Prelude.{
  ℕ, suc, ◌+◌, ◌≤◌, ◌≡◌, refl, subst, inl, inr, max, List, [], ◌∷◌, Option, none, some, length, leb,
  Bool-cases, Option-cases, arith,
}
use clab.Btier.Types.{Tier, DiskLocation}
use clab.Btier.ExtentMap.{ExtentMap}
use clab.Btier.ExtentMap.Slots.{get_location}
use clab.Btier.ExtentMap.Recovery.{SnapshotEntry}
use clab.Btier.MigrationEngine.{MigrationTask, tier_migrate}
use clab.Btier.MigrationEngine.Cycle.{
  Scoring, task_for, task_at, migrations, wants_compaction, compactions,
}

abbrev pub opposite : Tier → Tier
opposite Tier.fast = Tier.slow
opposite Tier.slow = Tier.fast
opposite (Tier.other b) = Tier.other b

-- A migration starts from the tier that the extent is on, and goes to the other one.
abbrev pub IsMove : {A : Type 0} → ExtentMap A → MigrationTask → Type 0
IsMove m t =
    (loc : DiskLocation) × (get_location m t.extent_id ≡ some loc)
    × (t.from ≡ loc.tier)
    × (t.type ≡ tier_migrate)
    × (t.to ≡ opposite t.from)

abbrev pub AllMoves : {A : Type 0} → ExtentMap A → List MigrationTask → Type 0
AllMoves m [] = Unit {0}
AllMoves m (t ∷ ts) = IsMove m t × AllMoves m ts

abbrev MaybeMove : {A : Type 0} → ExtentMap A → Option MigrationTask → Type 0
MaybeMove m none = Unit {0}
MaybeMove m (some t) = IsMove m t

task_for-MaybeMove :
    {A S : Type 0} (scoring : Scoring S) (m : ExtentMap A) (id : ℕ) (s : S) (loc : DiskLocation)
    (tier : Tier)
    → get_location m id ≡ some loc
    → tier ≡ loc.tier
    → MaybeMove m (task_for scoring id s tier)
task_for-MaybeMove scoring m id s loc Tier.slow there same =
    elim (Bool-cases (scoring.above_promote s)) [
      | inl hot ↦ rw (task_for, hot) (loc, there, same, refl, refl)
      | inr cool ↦ rw (task_for, cool) tt
    ]
task_for-MaybeMove scoring m id s loc Tier.fast there same =
    elim (Bool-cases (scoring.below_demote s)) [
      | inl cold ↦ rw (task_for, cold) (loc, there, same, refl, refl)
      | inr warm ↦ rw (task_for, warm) tt
    ]
task_for-MaybeMove scoring m id s loc (Tier.other b) there same = tt

task_at-MaybeMove :
    {A S : Type 0} (scoring : Scoring S) (m : ExtentMap A) (id : ℕ) (s : S)
    (o : Option DiskLocation)
    → get_location m id ≡ o
    → MaybeMove m (task_at scoring id s o)
task_at-MaybeMove scoring m id s none there = tt
task_at-MaybeMove scoring m id s (some loc) there =
    task_for-MaybeMove scoring m id s loc loc.tier there refl

migrations-bounded :
    {A S : Type 0} (scoring : Scoring S) (m : ExtentMap A) (ranked : List (ℕ × S)) (migrated : ℕ)
    → (length (migrations scoring m ranked migrated) + migrated
        ≤ max scoring.max_migrations migrated)
      × AllMoves m (migrations scoring m ranked migrated)
unfolding migrations
migrations-bounded scoring m [] migrated = (omega arith, tt)
migrations-bounded scoring m ((id, s) ∷ rest) migrated =
    elim (Bool-cases (leb scoring.max_migrations migrated)) [
      | inl full ↦ rw (migrations, full) (omega arith, tt)
      | inr room ↦ elim (Option-cases (task_at scoring id s (get_location m id))) [
        | inl idle ↦ rw (migrations, room, idle) (migrations-bounded scoring m rest migrated)
        | inr (t, made) ↦
            let more = migrations-bounded scoring m rest (suc migrated) in
            rw (migrations, room, made)
              (
                ground (arith, more.0, room),
                (
                  subst (MaybeMove m) made
                      (task_at-MaybeMove scoring m id s (get_location m id) refl),
                  more.1,
                ),
              )
      ]
    ]

compactions-bounded :
    {S : Type 0} (scoring : Scoring S) (snaps : List SnapshotEntry) (compacted : ℕ)
    → length (compactions scoring snaps compacted) + compacted
      ≤ max scoring.max_compactions compacted
unfolding compactions
compactions-bounded scoring [] compacted = omega arith
compactions-bounded scoring (s ∷ snaps) compacted =
    elim (Bool-cases (leb scoring.max_compactions compacted)) [
      | inl full ↦ rw (compactions, full) (omega arith)
      | inr room ↦ elim (Bool-cases (wants_compaction scoring s)) [
        | inl due ↦
            let more = compactions-bounded scoring snaps (suc compacted) in
            rw (compactions, room, due) (ground (arith, more, room))
        | inr fine ↦ rw (compactions, room, fine) (compactions-bounded scoring snaps compacted)
      ]
    ]

-- A cycle queues no more migrations and no more compactions than the configuration allows, and
-- each migration is of an extent that is there, from the tier that it is on to the other one.
pub migrations-AllMoves :
    {A S : Type 0} (scoring : Scoring S) (m : ExtentMap A) (ranked : List (ℕ × S))
    (snaps : List SnapshotEntry)
    → (length (migrations scoring m ranked 0) ≤ scoring.max_migrations)
      × (length (compactions scoring snaps 0) ≤ scoring.max_compactions)
      × AllMoves m (migrations scoring m ranked 0)
migrations-AllMoves scoring m ranked snaps =
    let moves = migrations-bounded scoring m ranked 0 in
    (omega (arith, moves.0), omega (arith, compactions-bounded scoring snaps 0), moves.1)
