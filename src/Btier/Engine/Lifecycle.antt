-- ===== src/Btier/Engine/Lifecycle.antt =====
-- btier/btier.cc: init, recover, shutdown and get_stats of BtierEngine. The migration engine, which
-- runs between these calls, is not here, and neither are the numbers that it and the floating-point
-- watermark add to the statistics.
use clab.Prelude.{ℕ, ◌+◌, ◌/◌, true, List, [], ◌∷◌, none, some, length, ltb, if◌then◌else◌}
use clab.Blk.Allocator.{Allocator}
use clab.Btier.Types.{Tier, is_fast}
use clab.Btier.Device.{Status, ok, error, einval, BlockDevice}
use clab.Btier.KeyMap.{empty, size}
use clab.Btier.ExtentMap.{ExtentMap, construct}
use clab.Btier.ExtentMap.Space.{
  add_allocator, add_block_device, init_free_space, process_deferred_free,
}
use clab.Btier.ExtentMap.Recovery.{SnapshotEntry, snapshot}
use clab.Btier.Journal.Scan.{Recovered, records, end_of_buffer, out_of_fuel}
use clab.Btier.Journal.State.{Journal, sync, write_checkpoint, get_used_bytes}
use clab.Btier.Journal.State
use clab.Btier.Journal.Recover.{recover}
use clab.Btier.Engine.{Config, Impl, Engine, build_checkpoint_state}
use clab.Btier.Engine.Operations.{sync_in}
use clab.Btier.Engine.Replay.{recover_internal, rm_from}

-- What BlockDevice::open gives: the device with its size, or an errno.
pub data Opened (D : Type 0) : Type 0 where
  opened : D → ℕ → Opened D
  unopened : ℕ → Opened D

-- How a call ends: with its result, or by the exception that reading past the end of a buffer is.
pub data Ended (A D : Type 0) : Type 0 where
  returned : Engine A D → Status → Ended A D
  thrown : Ended A D

pub record Stats : Type 0 where
  pub num_keys : ℕ
  pub num_extents : ℕ
  pub fast_extents : ℕ
  pub slow_extents : ℕ
  pub journal_bytes : ℕ

module _ {A D : Type 0} (alloc : Allocator A) (device : BlockDevice D) where
  abbrev pub journal_size_on : Config → ℕ → ℕ
  journal_size_on config fast_size =
      if ltb fast_size config.journal_size then fast_size / 2 else config.journal_size

  -- Steps 2 and 3 of init: the allocators, `new_alloc` for a size and a block size, and the extent
  -- map over them.
  unfoldable pub init_extent_map : (ℕ → ℕ → A) → Config → ℕ → ℕ → ExtentMap A
  init_extent_map new_alloc config fast_size slow_size =
      let fast = some (new_alloc fast_size config.block_size) in
      let slow = some (new_alloc slow_size config.block_size) in
      let bare = construct config.block_size in
      let m = init_free_space alloc (
        add_block_device alloc
          (add_block_device alloc
            (add_allocator alloc (add_allocator alloc bare Tier.fast fast) Tier.slow slow) Tier.fast
            true)
          Tier.slow true) in
      let tiers = m.allocators in
      record m {
        allocators = record tiers {
          on_fast =
              rm_from alloc device tiers.on_fast (record {
                offset = 0;
                length = journal_size_on config fast_size;
                tier = Tier.fast;
              });
        };
      }

  -- Step 6 of init.
  unfoldable pub started : Impl A D → Journal D × Recovered → Ended A D
  unfolding recover_internal write_checkpoint
  started i (j, records []) =
      returned (some (record i { journal = (write_checkpoint device j []).0 })) ok
  started i (j, records (r ∷ rs)) =
      returned (some (recover_internal alloc device (record i { journal = j }) (r ∷ rs))) ok
  started i (j, end_of_buffer) = thrown
  started i (j, out_of_fuel) = thrown

  unfoldable pub init_on : (ℕ → ℕ → A) → Config → D → ℕ → D → ℕ → Ended A D
  unfolding init_extent_map recover recover_internal write_checkpoint empty
  init_on new_alloc config fast_dev fast_size slow_dev slow_size =
      let journal = State.construct device fast_dev (journal_size_on config fast_size) in
      started
        (record {
          cfg = config;
          slow_dev = slow_dev;
          extent_map = init_extent_map new_alloc config fast_size slow_size;
          key_map = empty;
          journal = journal;
        })
        (recover device journal)

  -- BtierEngine::init
  unfoldable pub init : (ℕ → ℕ → A) → Config → Opened D → Opened D → Ended A D
  unfolding init_on
  init new_alloc config (unopened e) slow = returned none (error e)
  init new_alloc config (opened fast_dev fast_size) (unopened e) = returned none (error e)
  init new_alloc config (opened fast_dev fast_size) (opened slow_dev slow_size) =
      init_on new_alloc config fast_dev fast_size slow_dev slow_size

  -- BtierEngine::recover
  unfoldable pub recovered : Impl A D → Journal D × Recovered → Ended A D
  unfolding recover_internal
  recovered i (j, records rs) =
      returned (some (recover_internal alloc device (record i { journal = j }) rs)) ok
  recovered i (j, end_of_buffer) = thrown
  recovered i (j, out_of_fuel) = thrown

  unfoldable pub recover_engine : Engine A D → Ended A D
  unfolding recover recover_internal
  recover_engine none = returned none (error einval)
  recover_engine (some i) = recovered i (recover device i.journal)

  -- BtierEngine::shutdown, once the migration engine has stopped: the devices that it leaves.
  unfoldable pub shutdown_in : Impl A D → Impl A D
  unfolding sync_in build_checkpoint_state write_checkpoint
  shutdown_in i =
      let synced = sync_in alloc device i in
      let j =
        sync device (write_checkpoint device synced.journal (build_checkpoint_state synced)).0 in
      record synced { journal = j; extent_map = process_deferred_free alloc synced.extent_map }

unfoldable pub count_fast : List SnapshotEntry → ℕ
count_fast [] = 0
count_fast (s ∷ snaps) = (if is_fast s.location.tier then 1 else 0) + count_fast snaps

unfoldable pub count_slow : List SnapshotEntry → ℕ
count_slow [] = 0
count_slow (s ∷ snaps) = (if is_fast s.location.tier then 0 else 1) + count_slow snaps

-- BtierEngine::get_stats
unfoldable pub get_stats : {A D : Type 0} → Engine A D → Stats
unfolding count_fast count_slow
get_stats none = record {
  num_keys = 0;
  num_extents = 0;
  fast_extents = 0;
  slow_extents = 0;
  journal_bytes = 0;
}
get_stats (some i) = record {
  num_keys = size i.key_map;
  num_extents = length (snapshot i.extent_map);
  fast_extents = count_fast (snapshot i.extent_map);
  slow_extents = count_slow (snapshot i.extent_map);
  journal_bytes = get_used_bytes i.journal;
}
