-- ===== src/Btier/Journal/Block.antt =====
-- The bytes of one commit and of one checkpoint, as `Journal::commit_txn`, `Journal::checkpoint`
-- and `Impl::pad_and_write` of btier/journal.cc build them.
pub mod Replay
pub mod Log
use clab.Prelude.{ℕ, ◌+◌, ◌-◌, List, [], ◌∷◌, ◌++◌, length, replicate, ltb, ◌==◌, if◌then◌else◌}
use clab.Common.Intarith.{round_up_to}
use clab.Btier.Journal.Codec.{
  txn_begin, txn_commit, checkpoint, JournalRecord, blank, serialize_record,
}
use clab.Btier.Journal.Scan.{k_txn_alignment, serialize_all, crc_of_bytes}

abbrev pub begin_record : ℕ → JournalRecord
begin_record id = blank txn_begin id

abbrev pub commit_record : ℕ → List ℕ → JournalRecord
commit_record id serialized = record (blank txn_commit id) { crc = crc_of_bytes serialized }

-- BEGIN, the records, COMMIT with the checksum of the records.
unfoldable pub txn_block : ℕ → List ℕ → List ℕ
txn_block id serialized =
    serialize_record (begin_record id)
    ++ (serialized ++ serialize_record (commit_record id serialized))

-- The same with a CHECKPOINT record, under transaction 0.
unfoldable pub checkpoint_block : List JournalRecord → List ℕ
checkpoint_block full_state =
    let records_bl = serialize_all full_state in
    serialize_record (begin_record 0)
    ++ (serialize_record (blank checkpoint 0)
        ++ (records_bl ++ serialize_record (commit_record 0 records_bl)))

-- The length after padding.
unfoldable pub padded_length : ℕ → ℕ
padded_length len =
    let padded = round_up_to len k_txn_alignment in if padded == 0 then k_txn_alignment else padded

pub pad : List ℕ → List ℕ
pad bl = bl ++ replicate (padded_length (length bl) - length bl) 0
