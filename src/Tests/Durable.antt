-- ===== src/Tests/Durable.antt =====
-- A journal on a device in memory.
use clab.Prelude.{
  ℕ, ◌+◌, ◌<◌, ◌≡◌, refl, sym, ap, ◌∙◌, arith, List, [], ◌∷◌, ◌++◌, some, length, nat_eq,
}
use clab.Prelude.Assoc.{find, erase}
use clab.Common.Intarith.{round_up_to}
use clab.Btier.Types.{Tier}
use clab.Btier.Device.{BlockDevice, ok, got, failed}
use clab.Btier.Device.Disk.{window, overlay, IsDisk, window-overlay}
use clab.Btier.Journal.Codec.{JournalRecord, blank, key_put, extent_new, serialize_record, put_le}
use clab.Btier.Journal.Codec.RoundTrip.{Fits}
use clab.Btier.Journal.Scan.{records, serialize_all}
use clab.Btier.Journal.Block.{txn_block, checkpoint_block, padded_length}
use clab.Btier.Journal.Block.Log.{txn, ckpt, IsGood, log_entries}
use clab.Btier.Journal.State.{
  Journal, TxnBuffer, k_superblock_size, fresh_superblock, encode_superblock, commit_txn, construct,
  write_checkpoint,
}
use clab.Btier.Journal.Recover.{recover}
use clab.Btier.Journal.Durable.{Holds}
use clab.Btier.Journal.Durable.Superblock.{length-encode_superblock}
use clab.Btier.Journal.Durable.Commit.{commit_txn-Holds}
use clab.Btier.Journal.Durable.Reread.{recover-Holds}
use clab.Btier.Journal.Durable.Checkpoint.{write_checkpoint-Holds}
use clab.Btier.Journal.Durable.History.{Step, commits, checkpoints, run, recover-run}

abbrev pub Bytes : Type 0
Bytes = ℕ → ℕ

abbrev pub memory : BlockDevice Bytes
memory = record {
  read = λ d off n. got (window n off d);
  write = λ d off bl. (overlay bl off d, ok);
  flush = λ d. (d, ok);
}

abbrev pub as_it_is : Bytes → ℕ → ℕ
as_it_is d i = d i

pub memory-IsDisk : IsDisk memory 1048576 as_it_is
memory-IsDisk = record {
  reads = λ d off n h. refl;
  writes = λ d off bl h. refl;
  written = λ d off bl i h. refl;
  flushes = λ d. refl;
  flushed = λ d i. refl;
}

-- A device with a superblock and nothing else, and an open transaction on it.
abbrev formatted : Bytes
formatted i = overlay (encode_superblock fresh_superblock) 0 (λ k. 0) i

abbrev a_put : JournalRecord
a_put = record (blank key_put 1) {
  key = 97 ∷ 98 ∷ [];
  key_loc = record { extent_id = 3; offset = 16; length = 2 };
}

abbrev a_new : JournalRecord
a_new = record (blank extent_new 2) {
  extent_id = 3;
  extent_loc = record { offset = 8192; length = 4194304; tier = Tier.slow };
}

abbrev pub journal_with : List (ℕ × TxnBuffer) → Journal Bytes
journal_with open_ones = record {
  dev = formatted;
  data_size = 65536;
  next_txn_id = 1;
  active_txns = open_ones;
  superblock = fresh_superblock;
  write_offset = 0;
}

pub journal_with-Holds :
    (open_ones : List (ℕ × TxnBuffer)) → Holds 1048576 as_it_is (journal_with open_ones) []
journal_with-Holds open_ones = record {
  room = omega arith;
  word = omega arith;
  sb = record {
    magic_word = refl;
    from_word = omega arith;
    count_word = omega arith;
    write_word = omega arith;
  };
  synced = refl;
  order = omega arith;
  inside = omega arith;
  stored =
      ap (λ n. window n 0 formatted) (sym (length-encode_superblock fresh_superblock))
      ∙ window-overlay (encode_superblock fresh_superblock) 0 (λ k. 0);
  good = tt;
  blocks = refl;
}

a_put-Fits : Fits a_put
a_put-Fits = ground arith

a_new-Fits : Fits a_new
a_new-Fits = ground arith

length-put_block : length (txn_block 1 (serialize_all (a_put ∷ []))) ≡ 53
unfolding txn_block serialize_record put_le serialize_all
length-put_block = refl

length-new_block : length (txn_block 2 (serialize_all (a_new ∷ []))) ≡ 52
unfolding txn_block serialize_record put_le serialize_all
length-new_block = refl

put_block-IsGood : IsGood (txn 1 (a_put ∷ []))
put_block-IsGood = (omega arith, ((a_put-Fits, tt), tt), omega (arith, length-put_block))

new_block-IsGood : IsGood (txn 2 (a_new ∷ []))
new_block-IsGood = (omega arith, ((a_new-Fits, tt), tt), omega (arith, length-new_block))

pub one_page : (n : ℕ) → 0 < n → n < 4096 → padded_length n ≡ 4096
unfolding padded_length round_up_to
one_page n h k = ground arith

put_page : padded_length (length (txn_block 1 (serialize_all (a_put ∷ [])))) ≡ 4096
put_page = one_page _ (omega (arith, length-put_block)) (omega (arith, length-put_block))

new_page : padded_length (length (txn_block 2 (serialize_all (a_new ∷ [])))) ≡ 4096
new_page = one_page _ (omega (arith, length-new_block)) (omega (arith, length-new_block))

length-checkpoint : length (checkpoint_block (a_new ∷ [])) ≡ 61
unfolding checkpoint_block serialize_record put_le serialize_all
length-checkpoint = refl

checkpoint-IsGood : IsGood (ckpt (a_new ∷ []))
checkpoint-IsGood = (((a_new-Fits, tt), tt), omega (arith, length-checkpoint))

checkpoint_page : padded_length (length (checkpoint_block (a_new ∷ []))) ≡ 4096
checkpoint_page = one_page _ (omega (arith, length-checkpoint)) (omega (arith, length-checkpoint))

-- A commit, a checkpoint, another commit.
abbrev steps : List Step
steps = commits (a_put ∷ []) ∷ checkpoints (a_new ∷ []) ∷ commits (a_new ∷ []) ∷ []

recover-run_example :
    (recover memory
      (construct memory (run memory (journal_with []) steps).dev (k_superblock_size + 65536))).1
    ≡ records (log_entries (ckpt (a_new ∷ []) ∷ txn 2 (a_new ∷ []) ∷ []))
recover-run_example =
    recover-run memory-IsDisk (journal_with []) [] steps (journal_with-Holds []) refl
      (put_block-IsGood, (checkpoint-IsGood, (new_block-IsGood, tt)))
      (omega (arith, put_page, new_page, checkpoint_page)) (omega arith)

write_checkpoint-Holds_example :
    ((write_checkpoint memory (journal_with []) (a_new ∷ [])).1 ≡ ok)
    × Holds 1048576 as_it_is
        (write_checkpoint memory (journal_with []) (a_new ∷ [])).0
        (ckpt (a_new ∷ []) ∷ [])
write_checkpoint-Holds_example =
    write_checkpoint-Holds memory-IsDisk (journal_with []) [] (a_new ∷ []) (journal_with-Holds [])
      checkpoint-IsGood (omega (arith, checkpoint_page)) (omega arith)

abbrev put_buffer : TxnBuffer
put_buffer = record {
  txn_id = 1;
  txn_records = a_put ∷ [];
  serialized = serialize_all (a_put ∷ []);
}

abbrev with_open : Journal Bytes
with_open = journal_with ((1, put_buffer) ∷ [])

found_1 : find 1 with_open.active_txns ≡ some put_buffer
unfolding find
found_1 = refl

commit_txn-Holds_example :
    ((commit_txn memory with_open 1).1 ≡ ok)
    × ((commit_txn memory with_open 1).0.active_txns ≡ erase 1 with_open.active_txns)
    × Holds 1048576 as_it_is (commit_txn memory with_open 1).0 ([] ++ (txn 1 (a_put ∷ []) ∷ []))
commit_txn-Holds_example =
    commit_txn-Holds memory-IsDisk with_open [] 1 put_buffer (a_put ∷ []) (journal_with-Holds _)
      found_1 refl put_block-IsGood (omega (arith, put_page))

recover-Holds_example : (recover memory (journal_with [])).1 ≡ records (log_entries [])
recover-Holds_example =
    recover-Holds memory-IsDisk with_open (journal_with []) [] (journal_with-Holds _) refl refl

-- A device that fails every read.
abbrev broken : BlockDevice Bytes
broken = record memory { read = λ d off n. failed 5 }
