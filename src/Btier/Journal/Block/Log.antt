-- ===== src/Btier/Journal/Block/Log.antt =====
-- A log of padded blocks, and what `recover` reads from it.
use mathlib.Core.List.{append_assoc, append-nil}
use clab.Prelude.{
  ℕ, zero, suc, ◌+◌, ◌-◌, ◌%◌, ◌^◌, ◌≤◌, ◌<◌, ◌≡◌, sym, ap, ◌∙◌, List, [], ◌∷◌, ◌++◌, arith, map,
  length, replicate, length-append, length-replicate,
}
use clab.Common.Intarith.{round_up_to}
use clab.Btier.Journal.Codec.{checkpoint, JournalRecord, blank, serialize_record}
use clab.Btier.Journal.Codec.RoundTrip.{Fits, kept, length-serialize_record}
use clab.Btier.Journal.Scan.{Parsing, records, next_boundary, k_txn_alignment, serialize_all, start}
use clab.Btier.Journal.Scan.Rounds.{parse, parse-nil, parse_record, parse_padding}
use clab.Btier.Journal.Block.{
  begin_record, commit_record, txn_block, checkpoint_block, padded_length, pad,
}
use clab.Btier.Journal.Block.Replay.{
  AllPayload, inside, outside, parse_payload, begin-Fits, commit-Fits, handle_commit,
}

-- The records and the COMMIT of a block, read in the transaction that its BEGIN has opened.
parse_tail :
    (id off : ℕ) (rs : List JournalRecord) (rest : List ℕ) (result : List JournalRecord)
    → id < 2 ^ 64
    → AllPayload rs
    → let bl = serialize_all rs in
      let commit = serialize_record (commit_record id bl) in
      parse off ((bl ++ commit) ++ rest) (inside result [] id)
      ≡ parse (off + length (bl ++ commit)) rest (outside (result ++ map kept rs) id)
parse_tail id off rs rest result fits payload =
    let bl = serialize_all rs in
    let commit = serialize_record (commit_record id bl) in
    ap (λ b. parse off b (inside result [] id)) (append_assoc bl commit rest)
    ∙ parse_payload rs off (commit ++ rest) result [] id payload
    ∙ parse_record (off + length bl) (commit_record id bl) rest (inside result (map kept rs) id)
        (commit-Fits id bl fits) (ground arith)
    ∙ ap (parse (off + length bl + length commit) rest) (handle_commit rs result id)
    ∙ ap (λ k. parse k rest (outside (result ++ map kept rs) id))
        (let e : off + length bl + length commit ≡ off + length (bl ++ commit) =
            omega (arith, length-append bl commit) in
          e)

-- A committed transaction is read as a whole, whatever the loop was doing before it.
pub parse-txn_block :
    (id off : ℕ) (rs : List JournalRecord) (rest : List ℕ) (s : Parsing)
    → id < 2 ^ 64
    → AllPayload rs
    → let block = txn_block id (serialize_all rs) in
      parse off (block ++ rest) s
      ≡ parse (off + length block) rest (outside (s.result ++ map kept rs) id)
unfolding txn_block
parse-txn_block id off rs rest s fits payload =
    let begin = serialize_record (begin_record id) in
    let bl = serialize_all rs in
    let tail = bl ++ serialize_record (commit_record id bl) in
    ap (λ b. parse off b s) (append_assoc begin tail rest)
    ∙ parse_record off (begin_record id) (tail ++ rest) s (begin-Fits id fits) (ground arith)
    ∙ parse_tail id (off + length begin) rs rest s.result fits payload
    ∙ ap (λ k. parse k rest (outside (s.result ++ map kept rs) id))
        (let e : off + length begin + length tail ≡ off + length (begin ++ tail) =
            omega (arith, length-append begin tail) in
          e)

checkpoint-Fits : Fits (blank checkpoint 0)
checkpoint-Fits = ground arith

-- So is a checkpoint; its marker adds nothing.
pub parse-checkpoint_block :
    (off : ℕ) (rs : List JournalRecord) (rest : List ℕ) (s : Parsing)
    → AllPayload rs
    → let block = checkpoint_block rs in
      parse off (block ++ rest) s
      ≡ parse (off + length block) rest (outside (s.result ++ map kept rs) 0)
unfolding checkpoint_block
parse-checkpoint_block off rs rest s payload =
    let begin = serialize_record (begin_record 0) in
    let mark = serialize_record (blank checkpoint 0) in
    let bl = serialize_all rs in
    let tail = bl ++ serialize_record (commit_record 0 bl) in
    ap (λ b. parse off b s) (append_assoc begin (mark ++ tail) rest)
    ∙ ap (λ b. parse off (begin ++ b) s) (append_assoc mark tail rest)
    ∙ parse_record off (begin_record 0) (mark ++ (tail ++ rest)) s (begin-Fits 0 (omega arith))
        (ground arith)
    ∙ parse_record (off + length begin) (blank checkpoint 0) (tail ++ rest) (inside s.result [] 0)
        checkpoint-Fits (ground arith)
    ∙ parse_tail 0 (off + length begin + length mark) rs rest s.result (omega arith) payload
    ∙ ap (λ k. parse k rest (outside (s.result ++ map kept rs) 0))
        (let e : off + length begin + length mark + length tail
              ≡ off + length (begin ++ (mark ++ tail)) =
            omega (arith, length-append begin (mark ++ tail), length-append mark tail) in
          e)

padded_length-eq :
    (len : ℕ)
    → 0 < len
    → len < 2 ^ 32
    → (padded_length len % k_txn_alignment ≡ 0)
      × (len ≤ padded_length len)
      × (padded_length len < len + k_txn_alignment)
unfolding padded_length round_up_to
padded_length-eq len pos small = ground arith

pub length-pad :
    (bl : List ℕ) → 0 < length bl → length bl < 2 ^ 32 → length (pad bl) ≡ padded_length (length bl)
unfolding pad
length-pad bl pos small = omega (
  arith,
  padded_length-eq (length bl) pos small,
  length-append bl (replicate (padded_length (length bl) - length bl) 0),
  length-replicate {A = ℕ} (padded_length (length bl) - length bl) 0,
)

-- For a buffer that is not empty and has a 32-bit length, its padded length is a multiple of 4096.
pub pad-aligned :
    (bl : List ℕ) → 0 < length bl → length bl < 2 ^ 32 → length (pad bl) % k_txn_alignment ≡ 0
pad-aligned bl pos small = rw (length-pad bl pos small) (padded_length-eq (length bl) pos small).0

-- After a block that ends at `off` the loop goes on at the next boundary.
skip_padding :
    (off n : ℕ) (rest : List ℕ) (s : Parsing)
    → (off + n) % k_txn_alignment ≡ 0
    → n < k_txn_alignment
    → parse off (replicate n 0 ++ rest) s ≡ parse (off + n) rest s
skip_padding off zero rest s aligned small =
    ap (λ k. parse k rest s) (let e : off ≡ off + 0 = omega arith in e)
skip_padding off (suc n) rest s aligned small =
    let stop : off + suc n ≡ next_boundary off = omega arith in
    parse_padding off n rest s stop ∙ ap (λ k. parse k rest s) (sym stop)

pub data Block : Type 0 where
  txn : ℕ → List JournalRecord → Block
  ckpt : List JournalRecord → Block

abbrev pub block_bytes : Block → List ℕ
block_bytes (txn id rs) = txn_block id (serialize_all rs)
block_bytes (ckpt rs) = checkpoint_block rs

abbrev pub entries : Block → List JournalRecord
entries (txn id rs) = map kept rs
entries (ckpt rs) = map kept rs

-- Records that fit their types, between BEGIN and COMMIT, in a buffer with a 32-bit length.
abbrev pub IsGood : Block → Type 0
IsGood (txn id rs) =
    (id < 2 ^ 64) × AllPayload rs × (length (txn_block id (serialize_all rs)) < 2 ^ 32)
IsGood (ckpt rs) = AllPayload rs × (length (checkpoint_block rs) < 2 ^ 32)

abbrev pub AllGood : List Block → Type 0
AllGood [] = Unit {0}
AllGood (b ∷ bs) = IsGood b × AllGood bs

abbrev pub log : List Block → List ℕ
log [] = []
log (b ∷ bs) = pad (block_bytes b) ++ log bs

abbrev pub log_entries : List Block → List JournalRecord
log_entries [] = []
log_entries (b ∷ bs) = entries b ++ log_entries bs

pub block_size :
    (b : Block) → IsGood b → (0 < length (block_bytes b)) × (length (block_bytes b) < 2 ^ 32)
unfolding txn_block checkpoint_block
block_size (txn id rs) g = (
  omega (
    arith,
    length-append (serialize_record (begin_record id))
        (serialize_all rs ++ serialize_record (commit_record id (serialize_all rs))),
    length-serialize_record (begin_record id),
  ),
  g.2,
)
block_size (ckpt rs) g = (
  omega (
    arith,
    length-append (serialize_record (begin_record 0)) (
        serialize_record (blank checkpoint 0)
        ++ (serialize_all rs ++ serialize_record (commit_record 0 (serialize_all rs)))),
    length-serialize_record (begin_record 0),
  ),
  g.1,
)

-- The transaction id that a block leaves in the loop.
abbrev block_id : Block → ℕ
block_id (txn id rs) = id
block_id (ckpt rs) = 0

parse_block :
    (b : Block) (off : ℕ) (rest : List ℕ) (s : Parsing)
    → IsGood b
    → parse off (block_bytes b ++ rest) s
      ≡ parse (off + length (block_bytes b)) rest (outside (s.result ++ entries b) (block_id b))
parse_block (txn id rs) off rest s g = parse-txn_block id off rs rest s g.0 g.1
parse_block (ckpt rs) off rest s g = parse-checkpoint_block off rs rest s g.0

parse_padded :
    (b : Block) (off : ℕ) (rest : List ℕ) (s : Parsing)
    → IsGood b
    → off % k_txn_alignment ≡ 0
    → parse off (pad (block_bytes b) ++ rest) s
      ≡ parse
          (off + length (pad (block_bytes b)))
          rest
          (outside (s.result ++ entries b) (block_id b))
unfolding pad
parse_padded b off rest s g aligned =
    let bl = block_bytes b in
    let n = padded_length (length bl) - length bl in
    let size = block_size b g in
    let fit = padded_length-eq (length bl) size.0 size.1 in
    let s' = outside (s.result ++ entries b) (block_id b) in
    ap (λ t. parse off t s) (append_assoc bl (replicate n 0) rest)
    ∙ parse_block b off (replicate n 0 ++ rest) s g
    ∙ skip_padding (off + length bl) n rest s' (omega arith) (omega arith)
    ∙ ap (λ k. parse k rest s')
        (let e : off + length bl + n ≡ off + length (bl ++ replicate n 0) =
            omega (arith, length-append bl (replicate n 0), length-replicate {A = ℕ} n 0) in
          e)

parse-log :
    (bs : List Block) (off : ℕ) (s : Parsing)
    → AllGood bs
    → off % k_txn_alignment ≡ 0
    → parse off (log bs) s ≡ records (s.result ++ log_entries bs)
parse-log [] off s g aligned = parse-nil off s ∙ ap records (sym (append-nil s.result))
parse-log (b ∷ bs) off s g aligned =
    let s' = outside (s.result ++ entries b) (block_id b) in
    let size = block_size b g.0 in
    parse_padded b off (log bs) s g.0 aligned
    ∙ parse-log bs (off + length (pad (block_bytes b))) s' g.1
        (omega (arith, pad-aligned (block_bytes b) size.0 size.1))
    ∙ ap records (append_assoc s.result (entries b) (log_entries bs))

-- For blocks (committed transactions and checkpoints) whose records fit their C++ types and are
-- operations other than BEGIN, COMMIT, CHECKPOINT and 0, and whose bytes have a 32-bit length: the
-- parse loop of recover, run over the padded blocks written one after another, returns the records
-- of all of them, in order, each with the fields that its operation keeps.
pub parse-log_from_start :
    (bs : List Block) → AllGood bs → parse 0 (log bs) start ≡ records (log_entries bs)
parse-log_from_start bs g = parse-log bs 0 start g (omega arith)
