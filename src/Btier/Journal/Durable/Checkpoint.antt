-- ===== src/Btier/Journal/Durable/Checkpoint.antt =====
-- Journal::checkpoint and Journal::trim of btier/journal.cc on a device that works.
use mathlib.Core.List.{append-nil}
use clab.Prelude.{
  ℕ, ◌+◌, ◌-◌, ◌^◌, ◌≤◌, ◌<◌, ◌≡◌, refl, sym, ap, ◌∙◌, List, [], ◌∷◌, ◌++◌, arith, length,
}
use clab.Btier.Device.{BlockDevice, ok}
use clab.Btier.Device.Disk.{window, IsDisk}
use clab.Btier.Journal.Codec.{JournalRecord}
use clab.Btier.Journal.Block.{checkpoint_block, padded_length, pad}
use clab.Btier.Journal.Block.Log.{Block, ckpt, IsGood, block_size, length-pad}
use clab.Btier.Journal.State.{Journal, k_data_start, encode_superblock, write_checkpoint, trim}
use clab.Btier.Journal.Durable.{Holds}
use clab.Btier.Journal.Durable.Commit.{
  on_disk, pad_and_write_lem, write_superblock_lem, stored_after, data_after, block_after,
}

module _ {D : Type 0} {device : BlockDevice D} {size : ℕ} {bytes : D → ℕ → ℕ}
    (disk : IsDisk device size bytes) where
  abbrev pub checkpointed : Journal D → List ℕ → Journal D
  checkpointed j bl =
      let w = j.write_offset + padded_length (length bl) in
      let sb = record (j.superblock) {
        checkpoint_offset = j.write_offset;
        write_offset = w;
        checkpoint_seqno = j.superblock.checkpoint_seqno + 1;
      } in
      record j {
        superblock = sb;
        write_offset = w;
        dev =
            on_disk disk (on_disk disk j.dev (k_data_start + j.write_offset) (pad bl)) 0
              (encode_superblock sb);
      }

  pub write_checkpoint-checkpointed :
      (j : Journal D) (rs : List JournalRecord)
      → let bl = checkpoint_block rs in
        k_data_start + j.data_size ≤ size
        → j.write_offset + padded_length (length bl) < j.data_size
        → length (pad bl) ≡ padded_length (length bl)
        → write_checkpoint device j rs ≡ (checkpointed j bl, ok)
  unfolding write_checkpoint
  write_checkpoint-checkpointed j rs room fits padded =
      let bl = checkpoint_block rs in
      let w = j.write_offset + padded_length (length bl) in
      let written = record j {
        dev = on_disk disk j.dev (k_data_start + j.write_offset) (pad bl);
        write_offset = w;
        superblock = record (j.superblock) {
          checkpoint_offset = j.write_offset;
          write_offset = w;
          checkpoint_seqno = j.superblock.checkpoint_seqno + 1;
        };
      } in
      rw
        (
          write_checkpoint,
          pad_and_write_lem disk j bl room fits padded,
          write_superblock_lem disk written room,
        )
        refl

  -- On a device that works: a checkpoint of good records whose padded block ends before the end of
  -- the data area succeeds, and leaves a journal that holds the checkpoint and none of the blocks
  -- from before, if the count of checkpoints does not wrap.
  pub write_checkpoint-Holds :
      (j : Journal D) (bs : List Block) (rs : List JournalRecord)
      → Holds size bytes j bs
      → IsGood (ckpt rs)
      → j.write_offset + padded_length (length (checkpoint_block rs)) < j.data_size
      → j.superblock.checkpoint_seqno + 1 < 2 ^ 64
      → ((write_checkpoint device j rs).1 ≡ ok)
        × Holds size bytes (write_checkpoint device j rs).0 (ckpt rs ∷ [])
  write_checkpoint-Holds j bs rs h g fits counts =
      let bl = checkpoint_block rs in
      let w = j.write_offset in
      let pos = block_size (ckpt rs) g in
      let padded : length (pad bl) ≡ padded_length (length bl) = length-pad bl pos.0 pos.1 in
      let after = checkpointed j bl in
      let at = k_data_start + w in
      let d1 = on_disk disk j.dev at (pad bl) in
      let n = w + padded_length (length bl) - w in
      rw (write_checkpoint-checkpointed j rs h.room fits padded) (
        refl,
        record {
          room = h.room;
          word = h.word;
          sb = record {
            magic_word = h.sb.magic_word;
            from_word = omega (arith, h.word, h.inside);
            count_word = counts;
            write_word = omega (arith, h.word);
          };
          synced = refl;
          order = omega arith;
          inside = fits;
          stored = stored_after disk d1 after.superblock (omega (arith, h.room));
          good = (g, tt);
          blocks =
              data_after disk d1 after.superblock n at (omega (arith, h.room)) (omega arith)
              ∙ ap (λ k. window k at (bytes d1))
                  (let e : n ≡ at + length (pad bl) - at = omega (arith, padded) in e)
              ∙ block_after disk j.dev at at (pad bl) (omega arith) (omega (arith, padded, h.room))
              ∙ ap (λ k. window k at (bytes j.dev) ++ pad bl)
                  (let e : at - at ≡ 0 = omega arith in e)
              ∙ sym (append-nil (pad bl));
        },
      )

  abbrev pub trimmed : Journal D → Journal D
  trimmed j =
      let sb = record (j.superblock) {
        checkpoint_offset = j.write_offset;
        write_offset = j.write_offset;
      } in
      record j { superblock = sb; dev = on_disk disk j.dev 0 (encode_superblock sb) }

  pub trim-trimmed : (j : Journal D) → k_data_start + j.data_size ≤ size → trim device j ≡ trimmed j
  unfolding trim
  trim-trimmed j room =
      let sb = record (j.superblock) {
        checkpoint_offset = j.write_offset;
        write_offset = j.write_offset;
      } in
      rw (trim, write_superblock_lem disk (record j { superblock = sb }) room) refl

  -- On a device that works, after a trim the journal holds no block.
  pub trim-Holds :
      (j : Journal D) (bs : List Block)
      → Holds size bytes j bs
      → Holds size bytes (trim device j) []
  trim-Holds j bs h =
      let w = j.write_offset in
      let sb = record (j.superblock) { checkpoint_offset = w; write_offset = w } in
      rw (trim-trimmed j h.room) (record {
        room = h.room;
        word = h.word;
        sb = record {
          magic_word = h.sb.magic_word;
          from_word = omega (arith, h.word, h.inside);
          count_word = h.sb.count_word;
          write_word = omega (arith, h.word, h.inside);
        };
        synced = refl;
        order = omega arith;
        inside = h.inside;
        stored = stored_after disk j.dev sb (omega (arith, h.room));
        good = tt;
        blocks =
            ap
              (λ k.
                window k (k_data_start + w) (bytes (on_disk disk j.dev 0 (encode_superblock sb))))
              (let e : w - w ≡ 0 = omega arith in e);
      })
