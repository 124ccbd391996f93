-- ===== src/Btier/Engine/Operations.antt =====
-- btier/btier.cc: put, get, del and sync of BtierEngine.
use clab.Prelude.{
  ℕ, ◌+◌, ◌%◌, ◌^◌, Bool, List, [], ◌∷◌, Option, none, some, length, leb, if◌then◌else◌,
}
use clab.Blk.Allocator.{Allocator}
use clab.Btier.Types.{DiskLocation, KeyLocation, IoOp, is_fast, header_size}
use clab.Btier.Device.{Status, ok, error, enoent, einval, Read, failed, BlockDevice}
use clab.Btier.KeyMap.{Key, lookup, put, remove_key}
use clab.Btier.ExtentMap.Slots.{get_location, record_io, io_ref_inc, io_ref_dec}
use clab.Btier.ExtentMap.Recovery.{flush_dirty_headers}
use clab.Btier.Journal.Codec.{JournalRecord, blank, key_del}
use clab.Btier.Journal.State.{sync, is_near_full, needs_checkpoint}
use clab.Btier.Engine.{
  Impl, Engine, Slot, Outcome, refused, given, put_record, dead_record, write_tier, with_extent_map,
  checkpoint_now, transact, reserve_large, reserve_small, undo, release_old,
}

abbrev pub del_record : Key → JournalRecord
del_record key = record (blank key_del 0) { key = key }

abbrev pub location_in : Slot → ℕ → KeyLocation
location_in s size = record { extent_id = s.extent_id; offset = s.offset; length = size % 2 ^ 32 }

-- The records of a put, for the location that the key had before.
abbrev pub put_records : Key → Option KeyLocation → KeyLocation → List JournalRecord
put_records key none kloc = put_record key kloc ∷ []
put_records key (some old) kloc = dead_record old ∷ put_record key kloc ∷ []

module _ {A D : Type 0} (alloc : Allocator A) (device : BlockDevice D) where
  abbrev pub keep_or_checkpoint : Bool → Impl A D → Impl A D
  keep_or_checkpoint b i = if b then checkpoint_now alloc device i else i

  -- Phase 5 of put: the maps in memory.
  unfoldable pub release_if : Impl A D → Option KeyLocation → Impl A D
  unfolding release_old
  release_if i none = i
  release_if i (some old) = record i { extent_map = release_old i.extent_map old }

  unfoldable pub commit_put : Impl A D → Key → Option KeyLocation → Slot → ℕ → Impl A D
  unfolding release_old
  commit_put i key old s size =
      release_if
        (record i {
          key_map =
              put i.key_map key (location_in s size) (s.location.offset + header_size + s.offset);
        })
        old

  unfoldable pub after_transaction :
      Key → Option KeyLocation → Slot → ℕ → Impl A D × Status → Impl A D × Status
  unfolding commit_put
  after_transaction key old s size (i, error e) = (undo alloc device i s size, error e)
  after_transaction key old s size (i, ok) =
      (commit_put (keep_or_checkpoint (needs_checkpoint i.journal) i) key old s size, ok)

  unfoldable pub after_write :
      Key → Option KeyLocation → Slot → ℕ → ℕ → Impl A D × Status → Impl A D × Status
  unfolding transact commit_put
  after_write key old s size now (i, error e) = (undo alloc device i s size, error e)
  after_write key old s size now (i, ok) = after_transaction key old s size (
      transact alloc device
        (record i { extent_map = record_io i.extent_map s.extent_id IoOp.write now })
        (put_records key old (location_in s size)))

  unfoldable pub after_reserve :
      Key → Option KeyLocation → List ℕ → ℕ → Impl A D × Outcome Slot → Impl A D × Status
  unfolding write_tier transact commit_put
  after_reserve key old value now (i, refused e) = (i, error e)
  after_reserve key old value now (i, given s) =
      after_write key old s (length value) now (
        write_tier alloc device i s.location.tier (s.location.offset + header_size + s.offset)
          value)

  -- Phase 2 of put up to the write: a slot for a large value, or for a small one.
  unfoldable pub reserve : Impl A D → ℕ → Impl A D × Outcome Slot
  unfolding reserve_large reserve_small
  reserve i size =
      if leb i.cfg.large_value_threshold size
      then reserve_large alloc device i size
      else reserve_small alloc device i size

  unfoldable pub put_in : Impl A D → Key → List ℕ → ℕ → Impl A D × Status
  unfolding reserve write_tier transact commit_put
  put_in i key value now =
      let ready = keep_or_checkpoint (is_near_full i.journal) i in
      after_reserve key (lookup ready.key_map key) value now (reserve ready (length value))

  abbrev pub running : Impl A D × Status → Engine A D × Status
  running (i, st) = (some i, st)

  -- BtierEngine::put; `now` is the time of day.
  unfoldable pub put_value : Engine A D → Key → List ℕ → ℕ → Engine A D × Status
  unfolding put_in
  put_value none key value now = (none, error einval)
  put_value (some i) key value now = running (put_in i key value now)

  abbrev pub read_tier : Impl A D → DiskLocation → KeyLocation → Read
  read_tier i loc kloc =
      let off = loc.offset + header_size + kloc.offset in
      if is_fast loc.tier
      then device.read i.journal.dev off kloc.length
      else device.read i.slow_dev off kloc.length

  -- The read of a value, and the use that it is of its extent.
  abbrev pub get_at : Impl A D → KeyLocation → ℕ → Option DiskLocation → Impl A D × Read
  get_at i kloc now none = (i, failed enoent)
  get_at i kloc now (some loc) =
      let used = io_ref_inc (record_io i.extent_map kloc.extent_id IoOp.read now) kloc.extent_id in
      (record i { extent_map = io_ref_dec used kloc.extent_id }, read_tier i loc kloc)

  abbrev pub get_found : Impl A D → ℕ → Option KeyLocation → Impl A D × Read
  get_found i now none = (i, failed enoent)
  get_found i now (some kloc) = get_at i kloc now (get_location i.extent_map kloc.extent_id)

  abbrev pub reading : Impl A D × Read → Engine A D × Read
  reading (i, r) = (some i, r)

  -- BtierEngine::get
  abbrev pub get : Engine A D → Key → ℕ → Engine A D × Read
  get none key now = (none, failed einval)
  get (some i) key now = reading (get_found i now (lookup i.key_map key))

  unfoldable pub after_del : Key → KeyLocation → Impl A D × Status → Impl A D × Status
  unfolding release_old
  after_del key kloc (i, error e) = (i, error e)
  after_del key kloc (i, ok) = (
    record i { key_map = remove_key i.key_map key; extent_map = release_old i.extent_map kloc },
    ok,
  )

  unfoldable pub del_found : Impl A D → Key → Option KeyLocation → Impl A D × Status
  unfolding transact release_old
  del_found i key none = (i, error enoent)
  del_found i key (some kloc) =
      after_del key kloc (transact alloc device i (del_record key ∷ dead_record kloc ∷ []))

  -- BtierEngine::del
  unfoldable pub del : Engine A D → Key → Engine A D × Status
  unfolding transact release_old
  del none key = (none, error einval)
  del (some i) key = running (del_found i key (lookup i.key_map key))

  -- BtierEngine::sync
  unfoldable pub sync_in : Impl A D → Impl A D
  unfolding with_extent_map
  sync_in i =
      let flushed = with_extent_map alloc device i (flush_dirty_headers i.extent_map) in
      record flushed {
        journal = sync device flushed.journal;
        slow_dev = (device.flush flushed.slow_dev).0;
      }

  unfoldable pub sync_all : Engine A D → Engine A D × Status
  unfolding sync_in
  sync_all none = (none, error einval)
  sync_all (some i) = (some (sync_in i), ok)
