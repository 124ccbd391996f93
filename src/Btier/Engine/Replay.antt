-- ===== src/Btier/Engine/Replay.antt =====
-- btier/btier.cc: BtierEngine::Impl::recover_internal.
use clab.Prelude.{
  ℕ, Bool, true, false, List, [], ◌∷◌, Option, none, some, length, take, drop, ltb, ◌==◌,
  if◌then◌else◌,
}
use clab.Common.Crc32.{calc_crc32}
use clab.Blk.Allocator.{Allocator}
use clab.Btier.Types.{Tier, DiskLocation, is_fast, header_size}
use clab.Btier.Device.{Read, got, failed, BlockDevice}
use clab.Btier.KeyMap.{Key, KeyMap, lookup, put, remove_key, keys_in_extent}
use clab.Btier.ExtentMap.{ExtentMap, of_tier, with_tier, add32}
use clab.Btier.ExtentMap.Slots.{mark_dead_slot}
use clab.Btier.ExtentMap.Space.{free_extent, clear_deferred_free}
use clab.Btier.ExtentMap.Recovery.{
  SnapshotEntry, snapshot, create_entry_from_journal, restore_extent_state,
}
use clab.Btier.Journal.Codec.{
  JournalRecord, JournalOp, key_put, key_del, mark_dead, extent_new, extent_free, get_u32, get_u64,
}
use clab.Btier.Engine.{Impl, filled, extent_magic}

-- The rounds over the records that change the key map.
abbrev pub put_one : JournalOp → JournalRecord → KeyMap → KeyMap
put_one key_put r m = put m r.key r.key_loc 0
put_one _ r m = m

unfoldable pub replay_puts : List JournalRecord → KeyMap → KeyMap
replay_puts [] m = m
replay_puts (r ∷ rs) m = replay_puts rs (put_one r.op r m)

abbrev pub del_one : JournalOp → JournalRecord → KeyMap → KeyMap
del_one key_del r m = remove_key m r.key
del_one _ r m = m

unfoldable pub replay_dels : List JournalRecord → KeyMap → KeyMap
replay_dels [] m = m
replay_dels (r ∷ rs) m = replay_dels rs (del_one r.op r m)

unfoldable pub remove_all : KeyMap → List Key → KeyMap
remove_all m [] = m
remove_all m (key ∷ keys) = remove_all (remove_key m key) keys

-- `total_live`, on 32 bits.
unfoldable pub live_total : KeyMap → List Key → ℕ → ℕ
live_total m [] total = total
live_total m (key ∷ keys) total = live_total m keys (add32 total (filled (lookup m key)).length)

module _ {A : Type 0} where
  abbrev pub create_one : JournalOp → JournalRecord → ExtentMap A → ExtentMap A
  create_one extent_new r m = create_entry_from_journal m r.extent_id r.extent_loc
  create_one _ r m = m

  unfoldable pub replay_extents : List JournalRecord → ExtentMap A → ExtentMap A
  replay_extents [] m = m
  replay_extents (r ∷ rs) m = replay_extents rs (create_one r.op r m)

  abbrev pub dead_one : JournalOp → JournalRecord → ExtentMap A → ExtentMap A
  dead_one mark_dead r m = mark_dead_slot m r.extent_id r.dead_length
  dead_one _ r m = m

  unfoldable pub replay_deaths : List JournalRecord → ExtentMap A → ExtentMap A
  replay_deaths [] m = m
  replay_deaths (r ∷ rs) m = replay_deaths rs (dead_one r.op r m)

  abbrev pub free_one : JournalOp → JournalRecord → ExtentMap A → ExtentMap A
  free_one extent_free r m = free_extent m r.extent_id
  free_one _ r m = m

  unfoldable pub replay_frees : List JournalRecord → ExtentMap A → ExtentMap A
  replay_frees [] m = m
  replay_frees (r ∷ rs) m = replay_frees rs (free_one r.op r m)

  -- The bytes in use, counted again from the key map; an extent without live bytes goes.
  unfoldable pub recount : KeyMap → List SnapshotEntry → ExtentMap A → ExtentMap A
  unfolding live_total
  recount k [] m = m
  recount k (s ∷ snaps) m =
      let total = live_total k (keys_in_extent k s.extent_id) 0 in
      recount k snaps (
        if total == 0
        then free_extent m s.extent_id
        else restore_extent_state m s.extent_id total total)

module _ {A D : Type 0} (alloc : Allocator A) (device : BlockDevice D) where
  -- `tier == Tier::FAST ? fast_alloc : slow_alloc`
  abbrev pub rm_from : Option A → DiskLocation → Option A
  rm_from none loc = none
  rm_from (some a) loc = some (alloc.init_rm_free a loc.offset loc.length)

  abbrev pub side : DiskLocation → Tier
  side loc = if is_fast loc.tier then Tier.fast else Tier.slow

  unfoldable pub reserve_all : List SnapshotEntry → ExtentMap A → ExtentMap A
  reserve_all [] m = m
  reserve_all (s ∷ snaps) m = reserve_all snaps (record m {
    allocators =
        with_tier m.allocators (side s.location)
          (rm_from (of_tier m.allocators (side s.location) none) s.location);
  })

  -- Is a header read whose magic number is right and whose checksum is wrong?
  abbrev pub magic_of : List ℕ → ℕ
  magic_of bl = elim (get_u64 bl) [ none ↦ 0 | some (v, rest) ↦ v ]

  abbrev pub crc_field : List ℕ → ℕ
  crc_field bl = elim (get_u32 (drop 40 bl)) [ none ↦ 0 | some (v, rest) ↦ v ]

  unfoldable pub is_corrupt : Read → Bool
  is_corrupt (failed e) = false
  is_corrupt (got bl) =
      if ltb (length bl) header_size
      then false
      else (if magic_of bl == extent_magic
          then (if crc_field bl == calc_crc32 (take 40 bl) 0 then false else true)
          else false)

  abbrev pub read_header : Impl A D → DiskLocation → Read
  read_header i loc =
      if is_fast loc.tier
      then device.read i.journal.dev loc.offset header_size
      else device.read i.slow_dev loc.offset header_size

  unfoldable pub verify_all : List SnapshotEntry → Impl A D → Impl A D
  unfolding remove_all is_corrupt
  verify_all [] i = i
  verify_all (s ∷ snaps) i = verify_all snaps (
      if is_corrupt (read_header i s.location)
      then record i {
        key_map = remove_all i.key_map (keys_in_extent i.key_map s.extent_id);
        extent_map = free_extent i.extent_map s.extent_id;
      }
      else i)

  -- BtierEngine::Impl::recover_internal, which always returns 0.
  unfoldable pub replayed : List JournalRecord → Impl A D → Impl A D
  unfolding replay_extents replay_puts replay_dels replay_deaths replay_frees
  replayed rs i = record i {
    key_map = replay_dels rs (replay_puts rs i.key_map);
    extent_map = replay_frees rs (replay_deaths rs (replay_extents rs i.extent_map));
  }

  unfoldable pub recounted : Impl A D → Impl A D
  unfolding recount
  recounted i = record i { extent_map = recount i.key_map (snapshot i.extent_map) i.extent_map }

  unfoldable pub reserved : Impl A D → Impl A D
  unfolding reserve_all
  reserved i = record i { extent_map = reserve_all (snapshot i.extent_map) i.extent_map }

  unfoldable pub verified : Impl A D → Impl A D
  unfolding verify_all
  verified i = verify_all (snapshot i.extent_map) i

  unfoldable pub recover_internal : Impl A D → List JournalRecord → Impl A D
  unfolding replay_extents replay_puts replay_dels replay_deaths replay_frees recount reserve_all
      verify_all
  recover_internal i rs =
      let checked = verified (reserved (recounted (replayed rs i))) in
      record checked { extent_map = clear_deferred_free checked.extent_map }
