-- ===== src/Btier/Engine.antt =====
-- btier/btier.cc: the state of BtierEngine::Impl and the steps that its operations are made of.
pub mod Operations
pub mod Replay
pub mod Lifecycle
pub mod Untouched
pub mod Release
pub mod Atomic
pub mod Keys
pub mod Checkpointing
use clab.Prelude.{
  ℕ, ◌+◌, ◌-◌, ◌%◌, ◌^◌, Bool, true, false, List, [], ◌∷◌, ◌++◌, Option, none, some, length,
  replicate, leb, ◌==◌, if◌then◌else◌,
}
use clab.Common.Crc32.{calc_crc32}
use clab.Blk.Allocator.{Allocator}
use clab.Btier.Types.{Tier, DiskLocation, KeyLocation, IoOp, is_fast, header_size}
use clab.Btier.Device.{Status, ok, error, enoent, eio, einval, enospc, BlockDevice}
use clab.Btier.KeyMap.{Key, KeyMap, lookup, put, keys_in_extent, default_location}
use clab.Btier.ExtentMap.{ExtentMap, ExtentHeader, HeaderWrite, uint32_max, uint64_max}
use clab.Btier.ExtentMap.Slots.{
  get_location, get_live_bytes, find_extent_with_space, append_slot, mark_dead_slot, record_io,
}
use clab.Btier.ExtentMap.Space.{AllocResult, allocate_extent, free_extent}
use clab.Btier.ExtentMap.Recovery.{SnapshotEntry, snapshot}
use clab.Btier.Journal.Codec.{
  JournalRecord, blank, key_put, mark_dead, extent_new, put_u32, put_u64,
}
use clab.Btier.Journal.State.{
  Journal, begin_txn, append, commit_txn, write_checkpoint, is_near_full, needs_checkpoint,
}

-- The fields of BtierConfig that the engine reads.
pub record Config : Type 0 where
  pub extent_size : ℕ
  pub block_size : ℕ
  pub large_value_threshold : ℕ
  pub journal_size : ℕ

-- The FAST device is that of the journal; the allocators are those of the extent map.
pub record Impl (A D : Type 0) : Type 0 where
  pub cfg : Config
  pub slow_dev : D
  pub extent_map : ExtentMap A
  pub key_map : KeyMap
  pub journal : Journal D

-- `none` before `init` has come to its end, and after `shutdown`.
abbrev pub Engine : Type 0 → Type 0 → Type 0
Engine A D = Option (Impl A D)

-- The bytes of an ExtentHeader up to `crc`, and all of them.
abbrev pub extent_magic : ℕ
extent_magic = 0x4254_4945_5253_5445

unfoldable pub header_front : ExtentHeader → List ℕ
header_front h =
    put_u64 extent_magic
    ++ (put_u64 h.extent_id
        ++ (put_u32 h.length
            ++ (put_u32 h.used_bytes
                ++ (put_u32 h.live_bytes ++ (put_u32 0 ++ put_u64 h.generation)))))

unfoldable pub header_bytes : ExtentHeader → List ℕ
unfolding header_front
header_bytes h = header_front h ++ (put_u32 (calc_crc32 (header_front h) 0) ++ replicate 4052 0)

-- `OP_EXTENT_NEW`, `OP_KEY_PUT` and `OP_MARK_DEAD` records.
abbrev pub new_record : ℕ → DiskLocation → JournalRecord
new_record id loc = record (blank extent_new 0) { extent_id = id; extent_loc = loc }

abbrev pub put_record : Key → KeyLocation → JournalRecord
put_record key kloc = record (blank key_put 0) { key = key; key_loc = kloc }

abbrev pub dead_record : KeyLocation → JournalRecord
dead_record kloc = record (blank mark_dead 0) {
  extent_id = kloc.extent_id;
  dead_length = kloc.length;
}

-- A KeyLocation that `lookup` has filled in, or has left as it was constructed.
abbrev pub filled : Option KeyLocation → KeyLocation
filled none = default_location
filled (some kloc) = kloc

unfoldable pub key_records : KeyMap → List Key → List JournalRecord
key_records m [] = []
key_records m (key ∷ keys) = put_record key (filled (lookup m key)) ∷ key_records m keys

unfoldable pub state_records : KeyMap → List SnapshotEntry → List JournalRecord
unfolding key_records
state_records m [] = []
state_records m (s ∷ snaps) =
    new_record s.extent_id s.location
    ∷ (key_records m (keys_in_extent m s.extent_id) ++ state_records m snaps)

-- Where a value is to go; `created` says that the extent was made for it.
pub record Slot : Type 0 where
  pub extent_id : ℕ
  pub offset : ℕ
  pub location : DiskLocation
  pub created : Bool

-- What a step gives that can refuse with an errno.
pub data Outcome (B : Type 0) : Type 0 where
  refused : ℕ → Outcome B
  given : B → Outcome B

module _ {A : Type 0} where
  -- An extent is freed in memory with its last live byte.
  unfoldable pub release_old : ExtentMap A → KeyLocation → ExtentMap A
  release_old m old =
      let dead = mark_dead_slot m old.extent_id old.length in
      if get_live_bytes dead old.extent_id == 0 then free_extent dead old.extent_id else dead

module _ {A D : Type 0} where
  -- BtierEngine::Impl::build_checkpoint_state
  unfoldable pub build_checkpoint_state : Impl A D → List JournalRecord
  unfolding state_records
  build_checkpoint_state i = state_records i.key_map (snapshot i.extent_map)

module _ {A D : Type 0} (alloc : Allocator A) (device : BlockDevice D) where
  -- A write to the device of the tier.
  abbrev pub wrote_slow : Impl A D → D × Status → Impl A D × Status
  wrote_slow i (d, st) = (record i { slow_dev = d }, st)

  abbrev pub wrote_fast : Impl A D → D × Status → Impl A D × Status
  wrote_fast i (d, st) = (record i { journal = record (i.journal) { dev = d } }, st)

  unfoldable pub write_tier : Impl A D → Tier → ℕ → List ℕ → Impl A D × Status
  write_tier i tier off bl =
      if is_fast tier
      then wrote_fast i (device.write i.journal.dev off bl)
      else wrote_slow i (device.write i.slow_dev off bl)

  -- The writes of headers that a method of the extent map has made, in their order.
  unfoldable pub write_headers : Impl A D → List HeaderWrite → Impl A D
  unfolding write_tier header_bytes
  write_headers i [] = i
  write_headers i (w ∷ ws) =
      write_headers (write_tier i w.tier w.offset (header_bytes w.header)).0 ws

  unfoldable pub with_extent_map : Impl A D → ExtentMap A → Impl A D
  unfolding write_headers
  with_extent_map i m =
      write_headers (record i { extent_map = record m { header_writes = [] } }) m.header_writes

  unfoldable pub checkpoint_now : Impl A D → Impl A D
  unfolding build_checkpoint_state write_checkpoint
  checkpoint_now i = record i {
    journal = (write_checkpoint device i.journal (build_checkpoint_state i)).0;
  }

  abbrev pub free_in : Impl A D → ℕ → Impl A D
  free_in i id = record i { extent_map = free_extent i.extent_map id }

  -- A transaction of the given records.
  unfoldable pub append_all : Journal D → ℕ → List JournalRecord → Journal D
  unfolding append
  append_all j id [] = j
  append_all j id (r ∷ rs) = append_all (append j id r).0 id rs

  abbrev pub committed : Impl A D → Journal D × Status → Impl A D × Status
  committed i (j, st) = (record i { journal = j }, st)

  unfoldable pub transact : Impl A D → List JournalRecord → Impl A D × Status
  unfolding begin_txn append_all commit_txn
  transact i rs =
      let begun = begin_txn i.journal in
      committed i (commit_txn device (append_all begun.0 begun.1 rs) begun.1)

  abbrev pub pre_transacted : AllocResult → Impl A D × Status → Impl A D × Outcome AllocResult
  pre_transacted r (i, error e) = (free_in i r.extent_id, refused e)
  pre_transacted r (i, ok) = (i, given r)

  unfoldable pub allocated :
      Impl A D → ExtentMap A × Option AllocResult → Impl A D × Outcome AllocResult
  unfolding with_extent_map transact
  allocated i (m, none) = (with_extent_map i m, refused enospc)
  allocated i (m, some r) =
      pre_transacted r (transact (with_extent_map i m) (new_record r.extent_id r.location ∷ []))

  -- allocate_extent, and the transaction that records the extent before it is used.
  unfoldable pub new_extent : Impl A D → ℕ → Impl A D × Outcome AllocResult
  new_extent i size = allocated i (allocate_extent alloc i.extent_map Tier.fast size)

  abbrev slot_of : AllocResult → ℕ → Slot
  slot_of r offset = record {
    extent_id = r.extent_id;
    offset = offset;
    location = r.location;
    created = true;
  }

  abbrev pub appended_new : Impl A D → AllocResult → ExtentMap A × ℕ → Impl A D × Outcome Slot
  appended_new i r (m, offset) =
      let kept = record i { extent_map = m } in
      if offset == uint32_max
      then (free_in kept r.extent_id, refused eio)
      else (kept, given (slot_of r offset))

  -- A slot in an extent that is made for the value: the way of a large value, and the second try
  -- of a small one.
  abbrev pub in_new_extent : ℕ → Impl A D × Outcome AllocResult → Impl A D × Outcome Slot
  in_new_extent size (i, refused e) = (i, refused e)
  in_new_extent size (i, given r) =
      appended_new i r (append_slot i.extent_map r.extent_id (size % 2 ^ 32))

  unfoldable pub reserve_large : Impl A D → ℕ → Impl A D × Outcome Slot
  unfolding new_extent
  reserve_large i size = in_new_extent size (new_extent i (size + header_size))

  -- The first try of a small value: an extent with room, or a new one.
  abbrev pub found_new : Impl A D × Outcome AllocResult → Impl A D × Outcome Slot
  found_new (i, refused e) = (i, refused e)
  found_new (i, given r) = (i, given (slot_of r 0))

  abbrev pub found_old : Impl A D → ℕ → Option DiskLocation → Impl A D × Outcome Slot
  found_old i id none = (i, refused eio)
  found_old i id (some loc) =
      (i, given (record { extent_id = id; offset = 0; location = loc; created = false }))

  unfoldable pub find_extent : Impl A D → ℕ → Impl A D × Outcome Slot
  unfolding new_extent
  find_extent i size =
      let id = find_extent_with_space i.extent_map Tier.fast (size % 2 ^ 32) in
      if id == uint64_max
      then found_new (new_extent i i.cfg.extent_size)
      else found_old i id (get_location i.extent_map id)

  unfoldable pub appended_small : Impl A D → Slot → ℕ → ExtentMap A × ℕ → Impl A D × Outcome Slot
  unfolding new_extent
  appended_small i s size (m, offset) =
      let kept = record i { extent_map = m } in
      let undone = if s.created then free_in kept s.extent_id else kept in
      if offset == uint32_max
      then in_new_extent size (new_extent undone i.cfg.extent_size)
      else (kept, given (record s { offset = offset }))

  abbrev pub in_found_extent : ℕ → Impl A D × Outcome Slot → Impl A D × Outcome Slot
  in_found_extent size (i, refused e) = (i, refused e)
  in_found_extent size (i, given s) =
      appended_small i s size (append_slot i.extent_map s.extent_id (size % 2 ^ 32))

  unfoldable pub reserve_small : Impl A D → ℕ → Impl A D × Outcome Slot
  unfolding find_extent
  reserve_small i size = in_found_extent size (find_extent i size)

  -- What is undone when a value could not be written or recorded.
  abbrev pub undo : Impl A D → Slot → ℕ → Impl A D
  undo i s size =
      if s.created
      then free_in i s.extent_id
      else record i { extent_map = mark_dead_slot i.extent_map s.extent_id (size % 2 ^ 32) }
