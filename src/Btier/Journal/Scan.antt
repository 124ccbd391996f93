-- ===== src/Btier/Journal/Scan.antt =====
-- The parse loop of `Journal::recover` in btier/journal.cc. The iterator is its offset and the
-- bytes from there to the end of the buffer.
pub mod Fuel
pub mod Rounds
pub mod Checksum
use clab.Prelude.{
  ℕ, zero, suc, ◌+◌, ◌-◌, ◌*◌, ◌/◌, Bool, true, false, ◌&&◌, List, [], ◌∷◌, ◌++◌, Option, none,
  some, length, drop, ltb, leb, ◌==◌, if◌then◌else◌,
}
use clab.Common.Crc32.{calc_crc32}
use clab.Btier.Journal.Codec.{
  JournalOp, txn_begin, key_put, key_del, mark_dead, extent_new, extent_free, txn_commit,
  checkpoint, op_byte, JournalRecord, serialize_record, deserialize_record,
}

-- kTxnAlignment
abbrev pub k_txn_alignment : ℕ
k_txn_alignment = 4096

unfoldable pub serialize_all : List JournalRecord → List ℕ
serialize_all [] = []
serialize_all (r ∷ rs) = serialize_record r ++ serialize_all rs

-- The checksum of a buffer: 0 if it is empty.
pub crc_of_bytes : List ℕ → ℕ
crc_of_bytes bl = if ltb 0 (length bl) then calc_crc32 bl 0 else 0

abbrev pub crc_of : List JournalRecord → ℕ
crc_of rs = crc_of_bytes (serialize_all rs)

pub record Parsing : Type 0 where
  pub result : List JournalRecord
  pub current_txn : List JournalRecord
  pub in_txn : Bool
  pub current_txn_id : ℕ

abbrev pub start : Parsing
start = record { result = []; current_txn = []; in_txn = false; current_txn_id = 0 }

abbrev collect : JournalRecord → Parsing → Parsing
collect r s = if s.in_txn then record s { current_txn = s.current_txn ++ (r ∷ []) } else s

-- What the loop does with a record whose op is not 0.
abbrev pub handle : JournalOp → JournalRecord → Parsing → Parsing
handle txn_begin r s = record s { in_txn = true; current_txn_id = r.txn_id; current_txn = [] }
handle txn_commit r s = record s {
  result =
      (if s.in_txn && (r.txn_id == s.current_txn_id) && (crc_of s.current_txn == r.crc)
        then s.result ++ s.current_txn
        else s.result);
  in_txn = false;
  current_txn = [];
}
handle checkpoint r s = s
handle _ r s = collect r s

pub data Recovered : Type 0 where
  -- the vector that `recover` returns
  records : List JournalRecord → Recovered
  -- a record is cut off by the end of the buffer, and `copy` throws `end_of_buffer`
  end_of_buffer : Recovered
  out_of_fuel : Recovered

abbrev pub next_boundary : ℕ → ℕ
next_boundary off = (off / k_txn_alignment + 1) * k_txn_alignment

pub scan : ℕ → ℕ → List ℕ → Parsing → Recovered
scan zero off bytes s = out_of_fuel
scan (suc fuel) off bytes s = elim (ltb (length bytes) 9) [
  | true ↦ records s.result
  | false ↦ elim (deserialize_record bytes) [
    | none ↦ end_of_buffer
    | some (r, rest) ↦ elim (op_byte r.op == 0) [
      | true ↦ elim (leb (off + length bytes) (next_boundary off)) [
        | true ↦ records s.result
        | false ↦ scan fuel (next_boundary off) (drop (next_boundary off - off) bytes) s
      ]
      | false ↦ scan fuel (off + (length bytes - length rest)) rest (handle r.op r s)
    ]
  ]
]
