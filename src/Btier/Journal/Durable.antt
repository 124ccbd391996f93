-- ===== src/Btier/Journal/Durable.antt =====
-- The journal of btier/journal.cc on a device that works, and what it holds.
pub mod Superblock
pub mod Commit
pub mod Reread
pub mod Session
pub mod Checkpoint
pub mod History
use clab.Prelude.{ℕ, ◌+◌, ◌-◌, ◌≤◌, ◌<◌, ◌^◌, ◌≡◌, List}
use clab.Btier.Device.{BlockDevice}
use clab.Btier.Device.Disk.{window, IsDisk}
use clab.Btier.Journal.Block.Log.{Block, AllGood, log}
use clab.Btier.Journal.State.{
  Journal, SuperBlock, k_data_start, k_superblock_size, magic_number, encode_superblock,
}

-- The fields of a superblock fit 64 bits.
pub record IsWord (sb : SuperBlock) : Type 0 where
  pub magic_word : sb.magic ≡ magic_number
  pub from_word : sb.checkpoint_offset < 2 ^ 64
  pub count_word : sb.checkpoint_seqno < 2 ^ 64
  pub write_word : sb.write_offset < 2 ^ 64

-- The device has room for the data area, the superblock on it is that of the journal, and between
-- the last checkpoint and the write head, which has not come round the end, stand the blocks `bs`.
pub record Holds {D : Type 0} (size : ℕ) (bytes : D → ℕ → ℕ) (j : Journal D) (bs : List Block)
    : Type 0 where
  pub room : k_data_start + j.data_size ≤ size
  pub word : j.data_size < 2 ^ 64
  pub sb : IsWord j.superblock
  pub synced : j.superblock.write_offset ≡ j.write_offset
  pub order : j.superblock.checkpoint_offset ≤ j.write_offset
  pub inside : j.write_offset < j.data_size
  pub stored : window k_superblock_size 0 (bytes j.dev) ≡ encode_superblock j.superblock
  pub good : AllGood bs
  pub blocks :
      window
        (j.write_offset - j.superblock.checkpoint_offset)
        (k_data_start + j.superblock.checkpoint_offset)
        (bytes j.dev)
      ≡ log bs
