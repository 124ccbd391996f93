-- ===== src/Btier/Journal/Block/Replay.antt =====
-- What the parse loop of `recover` makes of whole blocks.
use mathlib.Core.List.{append_assoc, append-nil}
use clab.Prelude.{
  ℕ, ◌+◌, ◌^◌, ◌<◌, ◌≡◌, refl, ◌≢◌, sym, ap, ◌∙◌, true, false, List, [], ◌∷◌, ◌++◌, arith, map,
  length, length-append,
}
use clab.Btier.Journal.Codec.{
  JournalOp, txn_begin, key_put, key_del, mark_dead, extent_new, extent_free, txn_commit,
  checkpoint, op_byte, JournalRecord, serialize_record,
}
use clab.Btier.Journal.Codec.RoundTrip.{Fits, kept, kept_of}
use clab.Btier.Journal.Scan.{Parsing, handle, serialize_all, crc_of_bytes}
use clab.Btier.Journal.Scan.Checksum.{serialize_all-kept, crc_of_bytes-lt}
use clab.Btier.Journal.Scan.Rounds.{parse, parse_record}
use clab.Btier.Journal.Block.{begin_record, commit_record}

-- The operations that stand between BEGIN and COMMIT.
abbrev pub IsPayload : JournalOp → Type 0
IsPayload txn_begin = ⊥
IsPayload txn_commit = ⊥
IsPayload checkpoint = ⊥
IsPayload (JournalOp.other b) = b ≢ 0
IsPayload _ = Unit {0}

abbrev pub AllPayload : List JournalRecord → Type 0
AllPayload [] = Unit {0}
AllPayload (r ∷ rs) = (Fits r × IsPayload r.op) × AllPayload rs

-- Inside the transaction `id`, with the records that were read of it.
abbrev pub inside : List JournalRecord → List JournalRecord → ℕ → Parsing
inside result current id = record {
  result = result;
  current_txn = current;
  in_txn = true;
  current_txn_id = id;
}

abbrev pub outside : List JournalRecord → ℕ → Parsing
outside result id = record {
  result = result;
  current_txn = [];
  in_txn = false;
  current_txn_id = id;
}

payload-op : (o : JournalOp) (r : JournalRecord) → IsPayload o → op_byte (kept_of o r).op ≢ 0
payload-op key_put r h = ground arith
payload-op key_del r h = ground arith
payload-op mark_dead r h = ground arith
payload-op extent_new r h = ground arith
payload-op extent_free r h = ground arith
payload-op txn_begin r h = ground arith
payload-op txn_commit r h = ground arith
payload-op checkpoint r h = ground arith
payload-op (JournalOp.other b) r h = h

handle_payload :
    (o : JournalOp) (r : JournalRecord) (result current : List JournalRecord) (id : ℕ)
    → IsPayload o
    → handle (kept_of o r).op (kept_of o r) (inside result current id)
      ≡ inside result (current ++ (kept_of o r ∷ [])) id
handle_payload key_put r a c id h = refl
handle_payload txn_begin r a c id h = elim h [ ]
handle_payload txn_commit r a c id h = elim h [ ]
handle_payload checkpoint r a c id h = elim h [ ]
handle_payload _ r a c id h = refl

pub parse_payload :
    (rs : List JournalRecord) (off : ℕ) (rest : List ℕ) (result current : List JournalRecord)
    (id : ℕ)
    → AllPayload rs
    → parse off (serialize_all rs ++ rest) (inside result current id)
      ≡ parse (off + length (serialize_all rs)) rest (inside result (current ++ map kept rs) id)
unfolding serialize_all
parse_payload [] off rest result current id h =
    ap (λ k. parse k rest (inside result current id)) (let e : off ≡ off + 0 = omega arith in e)
    ∙ ap (λ c. parse (off + 0) rest (inside result c id)) (sym (append-nil current))
parse_payload (r ∷ rs) off rest result current id h =
    let here = serialize_record r in
    let all = serialize_all rs in
    let next = inside result (current ++ (kept r ∷ [])) id in
    ap (λ b. parse off b (inside result current id)) (append_assoc here all rest)
    ∙ parse_record off r (all ++ rest) (inside result current id) h.0.0 (payload-op r.op r h.0.1)
    ∙ ap (parse (off + length here) (all ++ rest)) (handle_payload r.op r result current id h.0.1)
    ∙ parse_payload rs (off + length here) rest result (current ++ (kept r ∷ [])) id h.1
    ∙ ap (λ c. parse (off + length here + length all) rest (inside result c id))
        (append_assoc current (kept r ∷ []) (map kept rs))
    ∙ ap (λ k. parse k rest (inside result (current ++ (kept r ∷ map kept rs)) id))
        (let e : off + length here + length all ≡ off + length (here ++ all) =
            omega (arith, length-append here all) in
          e)

pub begin-Fits : (id : ℕ) → id < 2 ^ 64 → Fits (begin_record id)
begin-Fits id h = ground arith

pub commit-Fits : (id : ℕ) (bl : List ℕ) → id < 2 ^ 64 → Fits (commit_record id bl)
commit-Fits id bl h = ground (arith, crc_of_bytes-lt bl)

-- COMMIT with the right checksum adds the records of the transaction to the result.
pub handle_commit :
    (rs result : List JournalRecord) (id : ℕ)
    → handle txn_commit
        (kept (commit_record id (serialize_all rs)))
        (inside result (map kept rs) id)
      ≡ outside (result ++ map kept rs) id
handle_commit rs result id =
    ground (arith, serialize_all-kept rs, ap crc_of_bytes (serialize_all-kept rs))
