-- ===== src/Btier/Engine/Checkpointing.antt =====
-- A checkpoint of btier/btier.cc that is written by the journal and read again after a crash.
use clab.Prelude.{
  ℕ, ◌+◌, ◌<◌, ◌^◌, ◌≡◌, refl, ap, ◌∙◌, List, [], ◌∷◌, ◌++◌, map, none, length, if◌then◌else◌,
}
use clab.Blk.Allocator.{Allocator}
use clab.Btier.Device.{BlockDevice}
use clab.Btier.Device.Disk.{IsDisk}
use clab.Btier.KeyMap.{Key, lookup, empty}
use clab.Btier.KeyMap.Laws.{IsIndexed}
use clab.Btier.ExtentMap.Recovery.{snapshot}
use clab.Btier.Journal.Codec.{JournalRecord}
use clab.Btier.Journal.Codec.RoundTrip.{kept}
use clab.Btier.Journal.Scan.{records}
use clab.Btier.Journal.Block.{checkpoint_block, padded_length}
use clab.Btier.Journal.Block.Log.{Block, ckpt, IsGood}
use clab.Btier.Journal.State.{Journal, write_checkpoint}
use clab.Btier.Journal.Recover.{recover}
use clab.Btier.Journal.Durable.{Holds}
use clab.Btier.Journal.Durable.Checkpoint.{write_checkpoint-Holds}
use clab.Btier.Journal.Durable.Reread.{recover-Holds}
use clab.Btier.Engine.{Impl, build_checkpoint_state, checkpoint_now}
use clab.Btier.Engine.Replay.{replay_puts, replay_dels}
use clab.Btier.Engine.Keys.{is_known, lookup-replay_checkpoint, kept-build_checkpoint_state}

append_nothing : (rs : List JournalRecord) → rs ++ [] ≡ rs
append_nothing [] = refl
append_nothing (r ∷ rs) = ap (◌∷◌ r) (append_nothing rs)

module _ {A D : Type 0} (alloc : Allocator A) (device : BlockDevice D) {size : ℕ}
    {bytes : D → ℕ → ℕ} (disk : IsDisk device size bytes) where
  -- On a device that works, for an engine whose reverse index agrees with its key map and whose
  -- journal holds some blocks: if the checkpoint of its state is good, ends before the end of the
  -- data area and does not wrap the count of checkpoints, then after it is written a journal that
  -- knows only the device recovers records whose replay into an empty key map gives each key the
  -- location that it has in the engine, if the extent of that location is in the extent map, and
  -- else none.
  pub checkpoint_now-survives :
      (i : Impl A D) (k : Journal D) (bs : List Block)
      → IsIndexed i.key_map
      → Holds size bytes i.journal bs
      → IsGood (ckpt (build_checkpoint_state i))
      → i.journal.write_offset
          + padded_length (length (checkpoint_block (build_checkpoint_state i)))
        < i.journal.data_size
      → i.journal.superblock.checkpoint_seqno + 1 < 2 ^ 64
      → k.dev ≡ (checkpoint_now alloc device i).journal.dev
      → k.data_size ≡ (checkpoint_now alloc device i).journal.data_size
      → (rs : List JournalRecord) × ((recover device k).1 ≡ records rs)
        × ((j : Key)
            → lookup (replay_dels rs (replay_puts rs empty)) j ≡ (
                if is_known (lookup i.key_map j) (snapshot i.extent_map)
                then lookup i.key_map j
                else none))
  unfolding checkpoint_now
  checkpoint_now-survives i k bs indexed holds good fits counts same_dev same_size =
      let rs = build_checkpoint_state i in
      let after = write_checkpoint-Holds disk i.journal bs rs holds good fits counts in
      (
        rs,
        recover-Holds disk (write_checkpoint device i.journal rs).0 k (ckpt rs ∷ []) after.1
              same_dev same_size
            ∙ ap records (append_nothing (map kept rs) ∙ kept-build_checkpoint_state i),
        λ j. lookup-replay_checkpoint i j indexed,
      )
