-- ===== src/Tests/ExtentMap.antt =====
-- btier/extent_map.cc on a map with one extent.
use clab.Prelude.{
  ◌&&◌, not, ◌+◌, ◌%◌, ◌^◌, ◌≡◌, refl, arith, false, List, [], ◌∷◌, ◌++◌, none, some, ◌==◌, nat_eq,
}
use clab.Prelude.Assoc.{find}
use clab.Btier.Types.{Tier, DiskLocation, read, write, active, state, generation}
use clab.Btier.ExtentMap.{ExtentEntry, ExtentMap, lookup, new_entry}
use clab.Btier.ExtentMap.Slots.Packing.{IsSound}
use clab.Btier.ExtentMap.Slots.History.{
  SlotCall, appends, deaths, uses, Packs, run_slots, run_slots-Packs,
}
use clab.Btier.ExtentMap.Migration.{begin_migration, commit_migration, check_migration}
use clab.Btier.ExtentMap.Migration.Calls.{IoCall, io_run, deaths_on, is_freed}
use clab.Btier.ExtentMap.Migration.Held.{handle_of}
use clab.Btier.ExtentMap.Migration.Protocol.{migration_verdict, commit_moves}
use clab.Blk.Allocator.{Allocator}

abbrev old_place : DiskLocation
old_place = record { offset = 8192; length = 65536; tier = Tier.fast }

abbrev new_place : DiskLocation
new_place = record { offset = 131072; length = 65536; tier = Tier.slow }

-- 100 bytes of the extent are used.
abbrev an_extent : ExtentEntry
an_extent = record (new_entry old_place) { used_bytes = 100; live_bytes = 100 }

-- An allocator that has no space.
abbrev no_space : Allocator (Unit {0})
no_space = record {
  allocate = λ a want unit max. (a, 0, []);
  release = λ a set. a;
  init_add_free = λ a off len. a;
  init_rm_free = λ a off len. a;
  get_free = λ a. 0;
  get_capacity = λ a. 0;
}

abbrev one_extent : ExtentMap (Unit {0})
one_extent = record {
  block_size = 4096;
  entries = ((5, an_extent) ∷ []);
  next_extent_id = 6;
  allocators = record { on_fast = none; on_slow = none };
  has_device = record { on_fast = false; on_slow = false };
  free_lists = record { on_fast = []; on_slow = [] };
  deferred_free = [];
  seqno = 0;
  dirty_headers = [];
  header_writes = [];
}

found_5 : lookup one_extent 5 ≡ some an_extent
unfolding find
found_5 = refl

an_extent-IsSound : IsSound an_extent
an_extent-IsSound = record {
  header = omega arith;
  word = omega arith;
  used = omega arith;
  live = omega arith;
}

an_extent_active : state an_extent.raw ≡ active
unfolding state
an_extent_active = refl

abbrev slot_calls : List SlotCall
slot_calls = appends 10 ∷ uses write 3 ∷ deaths 100 ∷ appends 70000 ∷ appends 20 ∷ []

run_slots-Packs_example : Packs 5 an_extent (run_slots one_extent 5 slot_calls)
run_slots-Packs_example =
    run_slots-Packs one_extent 5 an_extent slot_calls found_5 an_extent-IsSound
      (omega arith, (omega arith, (omega arith, tt)))

-- A slot of the extent dies, another extent is freed, and then the extent itself.
abbrev meanwhile : List IoCall
meanwhile =
    IoCall.uses 5 read 1 ∷ IoCall.deaths 5 10 ∷ IoCall.frees 4 ∷ IoCall.frees 5 ∷ IoCall.pins 5 ∷ []

abbrev quiet : List IoCall
quiet =
    IoCall.uses 5 write 1
    ∷ IoCall.appends 5 10
    ∷ IoCall.deaths 4 10
    ∷ IoCall.allocates Tier.fast 4096
    ∷ IoCall.flushes
    ∷ []

migration_verdict_example :
    ((begin_migration one_extent 5).1 ≡ some (handle_of 5 an_extent))
    × (check_migration
          (io_run no_space (begin_migration one_extent 5).0 meanwhile)
          (handle_of 5 an_extent)
        ≡ ((deaths_on 5 meanwhile % 2 ^ 32 == 0) && not (is_freed 5 meanwhile)))
    × ((commit_migration
          (io_run no_space (begin_migration one_extent 5).0 meanwhile)
          (handle_of 5 an_extent)
          new_place).1
        ≡ ((deaths_on 5 meanwhile % 2 ^ 32 == 0) && not (is_freed 5 meanwhile)))
migration_verdict_example =
    migration_verdict no_space one_extent 5 an_extent meanwhile new_place found_5 an_extent_active
      (omega arith) (omega arith)

commit_moves_example :
    let later = io_run no_space (begin_migration one_extent 5).0 quiet in
    let after = (commit_migration later (handle_of 5 an_extent) new_place).0 in
    (old new : ExtentEntry) × (lookup later 5 ≡ some old)
    × (lookup after 5 ≡ some new)
    × (new.location ≡ new_place)
    × (state new.raw ≡ active)
    × (generation new.raw ≡ (generation an_extent.raw + 1) % 2 ^ 32)
    × (new.used_bytes ≡ old.used_bytes)
    × (new.live_bytes ≡ old.live_bytes)
    × (after.deferred_free
        ≡ later.deferred_free ++ (record { loc = old_place; added_at_seqno = later.seqno } ∷ []))
commit_moves_example =
    commit_moves no_space one_extent 5 an_extent quiet new_place found_5 an_extent_active
      (omega arith) (omega arith) refl refl
