-- ===== src/Btier/MigrationEngine/Compacting.antt =====
-- compact of btier/migration_engine.cc: what it leaves in the key map, whatever the devices answer
-- and other threads do to the extents.
use clab.Prelude.{
  ℕ, ◌+◌, ◌≡◌, refl, sym, ap, subst, ◌∙◌, ◌⊎◌, inl, inr, true, false, List, [], ◌∷◌, Option, none,
  some, ◌==◌, if◌then◌else◌, nat_eq, bytes_eq, bytes_beq, bytes_beq_iff, Bool-cases, Option-cases,
  arith,
}
use clab.Prelude.Assoc.{has, find, beq_self}
use clab.Blk.Allocator.{Allocator}
use clab.Btier.Types.{Tier, KeyLocation, header_size, active, state}
use clab.Btier.Device.{Status, ok, error, Read, got, failed, BlockDevice}
use clab.Btier.KeyMap.{Key, KeyMap, lookup, keys_in_extent, batch_update}
use clab.Btier.KeyMap.Laws.{IsIndexed, latest, lookup-batch_update, batch_update-IsIndexed}
use clab.Btier.ExtentMap.{ExtentMap, uint32_max}
use clab.Btier.ExtentMap.Slots.{append_slot}
use clab.Btier.ExtentMap.Space.{AllocResult, allocate_extent, free_extent}
use clab.Btier.ExtentMap.Space.Fresh.{NextOr, allocate_extent-next}
use clab.Btier.ExtentMap.Migration.Calls.{lookup-free_extent}
use clab.Btier.ExtentMap.Migration.{MigrationHandle, begin_migration, check_migration}
use clab.Btier.Engine.{Impl, filled, write_tier, with_extent_map}
use clab.Btier.Engine.Untouched.{key_map-write_tier, key_map-with_extent_map}
use clab.Btier.MigrationEngine.{
  Migrator, MigrationResult, committed, interrupted, failure, Copied, copied, no_room, broken,
  Copies, all_copied, stopped, copy_written, copy_appended, copy_read, copy_key, with_update,
  copy_keys, after_copies, compact_into, compact_keys, compact_begun, compact_extent, read_for,
  set_map,
}

-- What a new location of a value in the extent `id` is.
abbrev pub IsCopy : ℕ → ℕ → Option KeyLocation → Type 0
IsCopy id n o = (kloc : KeyLocation) × (o ≡ some kloc) × (kloc.extent_id ≡ id) × (kloc.length ≡ n)

-- The updates move each of the keys to the extent `id`, and no other key.
abbrev pub Moves : KeyMap → ℕ → List Key → List (Key × KeyLocation) → Type 0
Moves k id keys us =
    (j : Key) (old : Option KeyLocation)
    → (has j keys ≡ true → IsCopy id (filled (lookup k j)).length (latest j us old))
      × (has j keys ≡ false → latest j us old ≡ old)

Moves-nil : (k : KeyMap) (id : ℕ) → Moves k id [] []
unfolding has
Moves-nil k id j old = (λ hit. absurd (ground (arith, hit)), λ miss. refl)

Moves-cons :
    (k : KeyMap) (id : ℕ) (key : Key) (keys : List Key) (kloc : KeyLocation)
    (us : List (Key × KeyLocation))
    → kloc.extent_id ≡ id
    → kloc.length ≡ (filled (lookup k key)).length
    → Moves k id keys us
    → Moves k id (key ∷ keys) ((key, kloc) ∷ us)
unfolding has
Moves-cons k id key keys kloc us there long rest j old =
    let tail = rest j (if bytes_beq key j then some kloc else old) in
    elim (Bool-cases (has j keys)) [
      | inl again ↦ (λ hit. tail.0 again, λ miss. absurd (ground (arith, again, miss)))
      | inr last ↦ elim (Bool-cases (bytes_beq key j)) [
        | inl same ↦
            let path : key ≡ j = (bytes_beq_iff key j).0 same in
            (
              λ hit. (
                kloc,
                tail.1 last ∙ rw same refl,
                there,
                long ∙ ap (λ x. (filled (lookup k x)).length) path,
              ),
              λ miss. absurd (ground (arith, same, miss)),
            )
        | inr other ↦
            (λ hit. absurd (ground (arith, other, last, hit)), λ miss. tail.1 last ∙ rw other refl)
      ]
    ]

has-nil : (j : Key) → has j [] ≡ false
unfolding has
has-nil j = refl

-- A handle is of the extent that was asked for, and no id is given out.
abbrev Begins : {A : Type 0} → ExtentMap A → ℕ → ExtentMap A × Option MigrationHandle → Type 0
Begins m id (e, none) = Unit {0}
Begins m id (e, some h) = (h.extent_id ≡ id) × (e.next_extent_id ≡ m.next_extent_id)

begin-Begins : {A : Type 0} (m : ExtentMap A) (id : ℕ) → Begins m id (begin_migration m id)
unfolding begin_migration
begin-Begins m id = elim (Option-cases (find id m.entries)) [
  | inl missing ↦ rw (begin_migration, missing) tt
  | inr (e, there) ↦ elim (Bool-cases (state e.raw == active)) [
    | inl on ↦ rw (begin_migration, there, on) (refl, refl)
    | inr off ↦ rw (begin_migration, there, off) tt
  ]
]

Copied-cases :
    (c : Copied) → ((kloc : KeyLocation) × (c ≡ copied kloc)) ⊎ ((c ≡ no_room) ⊎ (c ≡ broken))
Copied-cases (copied kloc) = inl (kloc, refl)
Copied-cases no_room = inr (inl refl)
Copied-cases broken = inr (inr refl)

module _ {A D : Type 0} (alloc : Allocator A) (device : BlockDevice D) where
  -- A copied value is in the new extent, and the key map is as it was.
  abbrev pub CopiesOne : KeyMap → ℕ → ℕ → Impl A D × Copied → Type 0
  CopiesOne k id n (i, copied kloc) = (i.key_map ≡ k) × (kloc.extent_id ≡ id) × (kloc.length ≡ n)
  CopiesOne k id n (i, no_room) = i.key_map ≡ k
  CopiesOne k id n (i, broken) = i.key_map ≡ k

  copy_written-CopiesOne :
      (k : KeyMap) (id offset n : ℕ) (x : Impl A D × Status)
      → x.0.key_map ≡ k
      → CopiesOne k id n (copy_written alloc device id offset n x)
  copy_written-CopiesOne k id offset n (i, error e) same = same
  copy_written-CopiesOne k id offset n (i, ok) same = (same, refl, refl)

  copy_appended-CopiesOne :
      (tier : Tier) (r : AllocResult) (n : ℕ) (value : List ℕ) (i : Impl A D) (x : ExtentMap A × ℕ)
      → CopiesOne i.key_map r.extent_id n (copy_appended alloc device tier r n value i x)
  unfolding copy_appended
  copy_appended-CopiesOne tier r n value i (e, offset) =
      let kept : Impl A D = record i { extent_map = e } in
      let at = r.location.offset + header_size + offset in
      elim (Bool-cases (offset == uint32_max)) [
        | inl full ↦ rw (copy_appended, full) refl
        | inr room ↦
            rw (copy_appended, room)
              (copy_written-CopiesOne i.key_map r.extent_id offset n
                (write_tier alloc device kept tier at value)
                (key_map-write_tier alloc device kept tier at value))
      ]

  copy_read-CopiesOne :
      (tier : Tier) (r : AllocResult) (n : ℕ) (i : Impl A D) (x : Read)
      → CopiesOne i.key_map r.extent_id n (copy_read alloc device tier r n i x)
  unfolding copy_read
  copy_read-CopiesOne tier r n i (failed e) = refl
  copy_read-CopiesOne tier r n i (got value) =
      copy_appended-CopiesOne tier r n value i (append_slot i.extent_map r.extent_id n)

  copy_key-CopiesOne :
      (h : MigrationHandle) (r : AllocResult) (old : KeyLocation) (i : Impl A D)
      → CopiesOne i.key_map r.extent_id old.length (copy_key alloc device h r old i)
  unfolding copy_key
  copy_key-CopiesOne h r old i = copy_read-CopiesOne h.src_loc.tier r old.length i (
      read_for alloc device i h.src_loc.tier (h.src_loc.offset + header_size + old.offset)
        old.length)

  abbrev pub CopiesAll : KeyMap → ℕ → List Key → Impl A D × Copies → Type 0
  CopiesAll k id keys (i, all_copied us) = (i.key_map ≡ k) × Moves k id keys us
  CopiesAll k id keys (i, stopped f) = i.key_map ≡ k

  with_update-CopiesAll :
      (k : KeyMap) (id : ℕ) (key : Key) (keys : List Key) (kloc : KeyLocation)
      (x : Impl A D × Copies)
      → kloc.extent_id ≡ id
      → kloc.length ≡ (filled (lookup k key)).length
      → CopiesAll k id keys x
      → CopiesAll k id (key ∷ keys) (with_update alloc device key kloc x)
  with_update-CopiesAll k id key keys kloc (i, all_copied us) there long all =
      (all.0, Moves-cons k id key keys kloc us there long all.1)
  with_update-CopiesAll k id key keys kloc (i, stopped f) there long all = all

  copy_keys-CopiesAll :
      (h : MigrationHandle) (r : AllocResult) (keys : List Key) (i : Impl A D) (k : KeyMap)
      → i.key_map ≡ k
      → CopiesAll k r.extent_id keys (copy_keys alloc device h r keys i)
  unfolding copy_keys
  copy_keys-CopiesAll h r [] i k same = (same, Moves-nil k r.extent_id)
  copy_keys-CopiesAll h r (key ∷ keys) i k same =
      let old = filled (lookup i.key_map key) in
      let one = copy_key alloc device h r old i in
      let fact = copy_key-CopiesOne h r old i in
      elim (Copied-cases one.1) [
        | inl (kloc, done) ↦
            let moved =
              subst (λ c. CopiesOne i.key_map r.extent_id old.length (one.0, c)) done fact in
            rw (copy_keys, done)
              (with_update-CopiesAll k r.extent_id key keys kloc
                (copy_keys alloc device h r keys one.0) moved.1
                (moved.2 ∙ ap (λ m. (filled (lookup m key)).length) same)
                (copy_keys-CopiesAll h r keys one.0 k (moved.0 ∙ same)))
        | inr (inl full) ↦
            rw (copy_keys, full)
              (subst (λ c. CopiesOne i.key_map r.extent_id old.length (one.0, c)) full fact ∙ same)
        | inr (inr failing) ↦
            rw (copy_keys, failing)
              (subst (λ c. CopiesOne i.key_map r.extent_id old.length (one.0, c)) failing fact
                ∙ same)
      ]

  -- How compact ends: the keys are in the extent `new_id` and the old one is gone, or the key map
  -- is as it was.
  abbrev pub Compacts : KeyMap → ℕ → ℕ → Migrator A D × MigrationResult → Type 0
  Compacts k new_id id (m, committed) =
      ((j : Key)
        → (has j (keys_in_extent k id) ≡ true
            → IsCopy new_id (filled (lookup k j)).length (lookup m.engine.key_map j))
          × (has j (keys_in_extent k id) ≡ false → lookup m.engine.key_map j ≡ lookup k j))
      × (IsIndexed k → IsIndexed m.engine.key_map)
      × (find id m.engine.extent_map.entries ≡ none)
  Compacts k new_id id (m, interrupted) = m.engine.key_map ≡ k
  Compacts k new_id id (m, failure) = m.engine.key_map ≡ k

  freed_is_gone : (m : ExtentMap A) (id : ℕ) → find id (free_extent m id).entries ≡ none
  freed_is_gone m id = lookup-free_extent m id id ∙ rw (beq_self id) refl

  module _ (meanwhile : ExtentMap A → ExtentMap A) where
    updated-Compacts :
        (k n : KeyMap) (id new_id : ℕ) (keys : List Key) (us : List (Key × KeyLocation))
        → n ≡ k
        → Moves k new_id keys us
        → (j : Key)
        → (has j keys ≡ true
            → IsCopy new_id (filled (lookup k j)).length (lookup (batch_update n us) j))
          × (has j keys ≡ false → lookup (batch_update n us) j ≡ lookup k j)
    updated-Compacts k n id new_id keys us same moves j =
        let effect = lookup-batch_update n us j ∙ ap (λ x. latest j us (lookup x j)) same in
        let both = moves j (lookup k j) in
        (
          λ hit. subst (IsCopy new_id (filled (lookup k j)).length) (sym effect) (both.0 hit),
          λ miss. effect ∙ both.1 miss,
        )

    after_copies-Compacts :
        (h : MigrationHandle) (r : AllocResult) (m : Migrator A D) (k : KeyMap)
        (x : Impl A D × Copies)
        → CopiesAll k r.extent_id (keys_in_extent k h.extent_id) x
        → Compacts k r.extent_id h.extent_id (after_copies alloc device meanwhile h r m x)
    after_copies-Compacts h r m k (i, stopped f) all = all
    after_copies-Compacts h r m k (i, all_copied us) all =
        elim (Bool-cases (check_migration (meanwhile i.extent_map) h)) [
          | inl quiet ↦
              rw (after_copies, quiet)
                (
                  updated-Compacts k i.key_map h.extent_id r.extent_id
                      (keys_in_extent k h.extent_id) us all.0 all.1,
                  λ v. batch_update-IsIndexed i.key_map us (subst IsIndexed (sym all.0) v),
                  freed_is_gone (meanwhile i.extent_map) h.extent_id,
                )
          | inr changed ↦ rw (after_copies, changed) all.0
        ]

    compact_into-Compacts :
        (h : MigrationHandle) (m : Migrator A D) (x : ExtentMap A × Option AllocResult)
        → NextOr m.engine.extent_map x.1
        → Compacts m.engine.key_map m.engine.extent_map.next_extent_id h.extent_id (
            compact_into alloc device meanwhile h (keys_in_extent m.engine.key_map h.extent_id) m x)
    unfolding compact_into
    compact_into-Compacts h m (e, none) fresh = key_map-with_extent_map alloc device m.engine e
    compact_into-Compacts h m (e, some r) fresh =
        let started = with_extent_map alloc device m.engine e in
        let keys = keys_in_extent m.engine.key_map h.extent_id in
        let at = record m { engine = started } in
        subst
          (λ (n : ℕ).
            Compacts m.engine.key_map n h.extent_id
              (compact_into alloc device meanwhile h keys m (e, some r)))
          fresh
          (after_copies-Compacts h r at m.engine.key_map (copy_keys alloc device h r keys started) (
            copy_keys-CopiesAll h r keys started m.engine.key_map
              (key_map-with_extent_map alloc device m.engine e)))

    compact_keys-Compacts :
        (h : MigrationHandle) (m : Migrator A D) (keys : List Key)
        → keys_in_extent m.engine.key_map h.extent_id ≡ keys
        → Compacts m.engine.key_map m.engine.extent_map.next_extent_id h.extent_id
            (compact_keys alloc device meanwhile h keys m)
    unfolding compact_keys
    compact_keys-Compacts h m [] bucket = (
      λ j. (λ hit. absurd (ground (arith, sym (ap (has j) bucket) ∙ hit, has-nil j)), λ miss. refl),
      λ v. v,
      freed_is_gone m.engine.extent_map h.extent_id,
    )
    compact_keys-Compacts h m (key ∷ keys) bucket =
        let x = allocate_extent alloc m.engine.extent_map h.src_loc.tier h.src_loc.length in
        let next = m.engine.extent_map.next_extent_id in
        subst
          (λ l.
            Compacts m.engine.key_map next h.extent_id
              (compact_into alloc device meanwhile h l m x))
          bucket
          (compact_into-Compacts h m x
            (allocate_extent-next alloc m.engine.extent_map h.src_loc.tier h.src_loc.length))

    compact_begun-Compacts :
        (m : Migrator A D) (id : ℕ) (x : ExtentMap A × Option MigrationHandle)
        → Begins m.engine.extent_map id x
        → Compacts m.engine.key_map m.engine.extent_map.next_extent_id id
            (compact_begun alloc device meanwhile m x)
    unfolding compact_begun
    compact_begun-Compacts m id (e, none) begun = refl
    compact_begun-Compacts m id (e, some h) begun =
        let out = compact_begun alloc device meanwhile m (e, some h) in
        subst (λ n. Compacts m.engine.key_map m.engine.extent_map.next_extent_id n out) begun.0
          (subst (λ n. Compacts m.engine.key_map n h.extent_id out) begun.1
            (compact_keys-Compacts h (set_map alloc device m e)
              (keys_in_extent m.engine.key_map h.extent_id) refl))

    -- Whatever the devices and the allocator answer and other threads do to the extent map between
    -- the last copy and the check: when compact ends with success, each key of the extent has a
    -- location of the length that its value had in the extent with the id that the extent map was
    -- to give next, every other key has the location that it had, the reverse index agrees with
    -- the key map if it did before, and the old extent is gone from the extent map; when it is
    -- interrupted or fails, the key map is as it was.
    pub compact_extent-Compacts :
        (m : Migrator A D) (id : ℕ)
        → Compacts m.engine.key_map m.engine.extent_map.next_extent_id id
            (compact_extent alloc device meanwhile m id)
    unfolding compact_extent
    compact_extent-Compacts m id =
        compact_begun-Compacts m id (begin_migration m.engine.extent_map id)
          (begin-Begins m.engine.extent_map id)
