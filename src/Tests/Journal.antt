-- ===== src/Tests/Journal.antt =====
-- btier/journal.cc at a concrete log.
use clab.Prelude.{◌≡◌, refl, ◌≢◌, arith, List, [], ◌∷◌, ◌++◌, length, some}
use clab.Btier.Types.{Tier}
use clab.Btier.Journal.Codec.{
  JournalRecord, blank, key_put, extent_new, serialize_record, deserialize_record, put_le,
}
use clab.Btier.Journal.Codec.RoundTrip.{Fits, kept, deserialize_record-serialize_record}
use clab.Btier.Journal.Scan.{start, scan, records, out_of_fuel, serialize_all}
use clab.Btier.Journal.Scan.Fuel.{scan_total}
use clab.Btier.Journal.Scan.Rounds.{parse}
use clab.Btier.Journal.Block.{txn_block, checkpoint_block}
use clab.Btier.Journal.Block.Log.{Block, txn, ckpt, AllGood, log, log_entries, parse-log_from_start}

abbrev a_put : JournalRecord
a_put = record (blank key_put 1) {
  key = 97 ∷ 98 ∷ [];
  key_loc = record { extent_id = 3; offset = 16; length = 2 };
}

abbrev a_new : JournalRecord
a_new = record (blank extent_new 1) {
  extent_id = 3;
  extent_loc = record { offset = 8192; length = 4194304; tier = Tier.slow };
}

a_put-Fits : Fits a_put
a_put-Fits = ground arith

a_new-Fits : Fits a_new
a_new-Fits = ground arith

-- A checkpoint without records, then a transaction with two.
abbrev blocks : List Block
blocks = ckpt (a_new ∷ []) ∷ txn 1 (a_new ∷ a_put ∷ []) ∷ []

length-first : length (checkpoint_block (a_new ∷ [])) ≡ 61
unfolding checkpoint_block serialize_record put_le serialize_all
length-first = refl

length-second : length (txn_block 1 (serialize_all (a_new ∷ a_put ∷ []))) ≡ 83
unfolding txn_block serialize_record put_le serialize_all
length-second = refl

blocks-AllGood : AllGood blocks
blocks-AllGood = (
  (((a_new-Fits, tt), tt), omega (arith, length-first)),
  ((omega arith, ((a_new-Fits, tt), ((a_put-Fits, tt), tt)), omega (arith, length-second)), tt),
)

parse-log_from_start_example : parse 0 (log blocks) start ≡ records (log_entries blocks)
parse-log_from_start_example = parse-log_from_start blocks blocks-AllGood

scan_total_example : scan 4 0 (7 ∷ 0 ∷ 1 ∷ []) start ≢ out_of_fuel
scan_total_example = scan_total 4 0 (7 ∷ 0 ∷ 1 ∷ []) start (omega arith)

deserialize_record-serialize_record_example :
    deserialize_record (serialize_record a_put ++ (1 ∷ 2 ∷ [])) ≡ some (kept a_put, 1 ∷ 2 ∷ [])
deserialize_record-serialize_record_example =
    deserialize_record-serialize_record a_put (1 ∷ 2 ∷ []) a_put-Fits
