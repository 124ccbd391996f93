-- ===== src/Tests/Engine.antt =====
-- btier/btier.cc: an engine with one extent that holds one key, on a device in memory.
use clab.Prelude.{
  ◌≡◌, refl, List, [], ◌∷◌, none, some, length, if◌then◌else◌, arith, nat_eq, bytes_eq,
}
use clab.Prelude.Assoc.{find, has, insert, add}
use clab.Blk.Avl.Allocating.{AvlAllocator, avl_allocator}
use clab.Btier.Types.{Tier, DiskLocation, KeyLocation}
use clab.Btier.KeyMap.{Key, put, empty, lookup, link, keys_in_extent}
use clab.Btier.KeyMap.Laws.{IsIndexed, put-IsIndexed, empty-IsIndexed}
use clab.Btier.ExtentMap.{construct}
use clab.Btier.ExtentMap.Recovery.{create_entry_from_journal, snapshot}
use clab.Btier.Journal.Codec.{JournalRecord, serialize_record, put_le}
use clab.Btier.Journal.Scan.{records, serialize_all}
use clab.Btier.Journal.Block.{checkpoint_block, padded_length}
use clab.Btier.Journal.Block.Log.{ckpt, IsGood}
use clab.Btier.Journal.Recover.{recover}
use clab.Btier.Engine.{Config, Impl, build_checkpoint_state, checkpoint_now, put_record}
use clab.Btier.Engine.Operations.{del, del_record}
use clab.Btier.Engine.Replay.{replay_puts, replay_dels}
use clab.Btier.Engine.Atomic.{Dels, del-Dels}
use clab.Btier.Engine.Keys.{is_known, is_deleted, last_put, lookup-replay}
use clab.Btier.Engine.Checkpointing.{checkpoint_now-survives}
use clab.Tests.Durable.{Bytes, memory, memory-IsDisk, journal_with, journal_with-Holds, one_page}

abbrev a_config : Config
a_config = record {
  extent_size = 65536;
  block_size = 4096;
  large_value_threshold = 32768;
  journal_size = 69632;
}

abbrev pub first_key : Key
first_key = 97 ∷ []

abbrev first_location : KeyLocation
first_location = record { extent_id = 1; offset = 0; length = 2 }

abbrev pub an_extent : DiskLocation
an_extent = record { offset = 69632; length = 65536; tier = Tier.fast }

abbrev pub engine : Impl AvlAllocator Bytes
engine = record {
  cfg = a_config;
  slow_dev = λ i. 0;
  extent_map = create_entry_from_journal (construct 4096) 1 an_extent;
  key_map = put empty first_key first_location 0;
  journal = journal_with [];
}

del-Dels_example :
    Dels avl_allocator memory engine first_key (del avl_allocator memory (some engine) first_key)
del-Dels_example = del-Dels avl_allocator memory engine first_key

abbrev deleted_and_put : List JournalRecord
deleted_and_put = del_record first_key ∷ put_record first_key first_location ∷ []

lookup-replay_example :
    lookup (replay_dels deleted_and_put (replay_puts deleted_and_put empty)) first_key ≡ (
      if is_deleted first_key deleted_and_put
      then none
      else last_put first_key deleted_and_put (lookup empty first_key))
lookup-replay_example = lookup-replay deleted_and_put empty first_key

engine-IsIndexed : IsIndexed engine.key_map
engine-IsIndexed = put-IsIndexed empty first_key first_location 0 empty-IsIndexed

length-engine_block : length (checkpoint_block (build_checkpoint_state engine)) ≡ 91
unfolding checkpoint_block serialize_record put_le serialize_all build_checkpoint_state snapshot
    create_entry_from_journal construct put lookup keys_in_extent find insert has add empty link
length-engine_block = refl

engine-IsGood : IsGood (ckpt (build_checkpoint_state engine))
unfolding build_checkpoint_state snapshot create_entry_from_journal construct put lookup
    keys_in_extent find insert has add empty link
engine-IsGood = ((ground arith, (ground arith, tt)), omega (arith, length-engine_block))

engine_page : padded_length (length (checkpoint_block (build_checkpoint_state engine))) ≡ 4096
engine_page = one_page _ (omega (arith, length-engine_block)) (omega (arith, length-engine_block))

checkpoint_now-survives_example :
    (rs : List JournalRecord) × ((recover memory
        (checkpoint_now avl_allocator memory engine).journal).1
      ≡ records rs)
    × ((j : Key)
        → lookup (replay_dels rs (replay_puts rs empty)) j ≡ (
            if is_known (lookup engine.key_map j) (snapshot engine.extent_map)
            then lookup engine.key_map j
            else none))
checkpoint_now-survives_example =
    checkpoint_now-survives avl_allocator memory memory-IsDisk engine
      (checkpoint_now avl_allocator memory engine).journal [] engine-IsIndexed
      (journal_with-Holds []) engine-IsGood (omega (arith, engine_page)) (omega arith) refl refl
