-- ===== src/Btier/Journal/Durable/Session.antt =====
-- One transaction that is begun, filled and committed.
use mathlib.Core.List.{append-nil, append_assoc}
use clab.Prelude.{ℕ, ◌+◌, ◌<◌, ◌≡◌, refl, ap, ◌∙◌, List, [], ◌∷◌, ◌++◌, some, length, nat_eq}
use clab.Prelude.Assoc.{find, insert, erase, beq_self}
use clab.Btier.Device.{BlockDevice}
use clab.Btier.Device.Disk.{IsDisk}
use clab.Btier.Journal.Codec.{JournalRecord, serialize_record}
use clab.Btier.Journal.Scan.{serialize_all}
use clab.Btier.Journal.Block.{padded_length}
use clab.Btier.Journal.Block.Log.{Block, txn, block_bytes, IsGood, block_size, length-pad}
use clab.Btier.Journal.State.{Journal, TxnBuffer, begin_txn, append, commit_txn}
use clab.Btier.Journal.Durable.{Holds}
use clab.Btier.Journal.Durable.Commit.{committed, commit_txn-committed, committed-Holds}

-- The records as `append` takes them into a transaction.
abbrev pub with_id : ℕ → List JournalRecord → List JournalRecord
with_id id [] = []
with_id id (r ∷ rs) = record r { txn_id = id } ∷ with_id id rs

module _ {D : Type 0} where
  abbrev pub append_all : Journal D → ℕ → List JournalRecord → Journal D
  append_all j id [] = j
  append_all j id (r ∷ rs) = append_all (append j id r).0 id rs

  -- A transaction of its own for the records.
  abbrev pub filled : Journal D → List JournalRecord → Journal D
  filled j rs = append_all (begin_txn j).0 (begin_txn j).1 rs

  abbrev pub transact : BlockDevice D → Journal D → List JournalRecord → Journal D
  transact device j rs = (commit_txn device (filled j rs) (begin_txn j).1).0

abbrev grown : TxnBuffer → ℕ → List JournalRecord → TxnBuffer
grown tb id rs = record tb {
  txn_records = tb.txn_records ++ with_id id rs;
  serialized = tb.serialized ++ serialize_all (with_id id rs);
}

abbrev took : TxnBuffer → ℕ → JournalRecord → TxnBuffer
took tb id r = record tb {
  txn_records = tb.txn_records ++ (record r { txn_id = id } ∷ []);
  serialized = tb.serialized ++ serialize_record (record r { txn_id = id });
}

grown_nil : (tb : TxnBuffer) (id : ℕ) → tb ≡ grown tb id []
unfolding serialize_all
grown_nil tb id = rw (append-nil tb.txn_records, append-nil tb.serialized) refl

grown-took :
    (tb : TxnBuffer) (id : ℕ) (r : JournalRecord) (rs : List JournalRecord)
    → grown (took tb id r) id rs ≡ grown tb id (r ∷ rs)
unfolding serialize_all
grown-took tb id r rs =
    let r' : JournalRecord = record r { txn_id = id } in
    rw
      (
        append_assoc tb.txn_records (r' ∷ []) (with_id id rs),
        append_assoc tb.serialized (serialize_record r') (serialize_all (with_id id rs)),
      )
      refl

-- A journal with one open transaction.
abbrev opened : {D : Type 0} → Journal D → ℕ → TxnBuffer → Journal D
opened j id tb = record j { active_txns = ((id, tb) ∷ []) }

insert_same : (id : ℕ) (old new : TxnBuffer) → insert id new ((id, old) ∷ []) ≡ ((id, new) ∷ [])
unfolding insert
insert_same id old new = rw (beq_self id) refl

append-opened :
    {D : Type 0} (j : Journal D) (id : ℕ) (tb : TxnBuffer) (r : JournalRecord)
    → (append (opened j id tb) id r).0 ≡ opened j id (took tb id r)
unfolding append find
append-opened j id tb r = rw (append, beq_self id, insert_same id tb (took tb id r)) refl

append_all-opened :
    {D : Type 0} (j : Journal D) (id : ℕ) (tb : TxnBuffer) (rs : List JournalRecord)
    → append_all (opened j id tb) id rs ≡ opened j id (grown tb id rs)
append_all-opened j id tb [] = ap (opened j id) (grown_nil tb id)
append_all-opened j id tb (r ∷ rs) =
    ap (λ k. append_all k id rs) (append-opened j id tb r)
    ∙ append_all-opened j id (took tb id r) rs
    ∙ ap (opened j id) (grown-took tb id r rs)

abbrev new_buffer : ℕ → TxnBuffer
new_buffer id = record { txn_id = id; txn_records = []; serialized = [] }

begin_txn-opened :
    {D : Type 0} (j : Journal D)
    → j.active_txns ≡ []
    → begin_txn j ≡ (
      opened
          (record j { next_txn_id = j.next_txn_id + 1 })
          j.next_txn_id
          (new_buffer j.next_txn_id),
      j.next_txn_id,
    )
unfolding begin_txn find insert
begin_txn-opened j none_open = rw (begin_txn, none_open) refl

filled-opened :
    {D : Type 0} (j : Journal D) (rs : List JournalRecord)
    → j.active_txns ≡ []
    → filled j rs
      ≡ opened
          (record j { next_txn_id = j.next_txn_id + 1 })
          j.next_txn_id
          (grown (new_buffer j.next_txn_id) j.next_txn_id rs)
filled-opened j rs none_open =
    ap (λ p. append_all p.0 p.1 rs) (begin_txn-opened j none_open)
    ∙ append_all-opened (record j { next_txn_id = j.next_txn_id + 1 }) j.next_txn_id
        (new_buffer j.next_txn_id) rs

module _ {D : Type 0} {device : BlockDevice D} {size : ℕ} {bytes : D → ℕ → ℕ}
    (disk : IsDisk device size bytes) where
  -- What one transaction does: it is held, and the journal is ready for the next.
  pub transact-Holds :
      (j : Journal D) (bs : List Block) (rs : List JournalRecord)
      → Holds size bytes j bs
      → j.active_txns ≡ []
      → let b = txn j.next_txn_id (with_id j.next_txn_id rs) in
        IsGood b
        → j.write_offset + padded_length (length (block_bytes b)) < j.data_size
        → let after = transact device j rs in
          Holds size bytes after (bs ++ (b ∷ []))
          × (after.active_txns ≡ [])
          × (after.next_txn_id ≡ j.next_txn_id + 1)
          × (after.data_size ≡ j.data_size)
          × (after.write_offset ≡ j.write_offset + padded_length (length (block_bytes b)))
          × (after.superblock.checkpoint_seqno ≡ j.superblock.checkpoint_seqno)
  unfolding find erase
  transact-Holds j bs rs h none_open g fits =
      let id = j.next_txn_id in
      let b = txn id (with_id id rs) in
      let tb = grown (new_buffer id) id rs in
      let k = opened (record j { next_txn_id = id + 1 }) id tb in
      let found : find id k.active_txns ≡ some tb = rw (beq_self id) refl in
      let pos = block_size b g in
      let held : Holds size bytes k bs = record {
        room = h.room;
        word = h.word;
        sb = h.sb;
        synced = h.synced;
        order = h.order;
        inside = h.inside;
        stored = h.stored;
        good = h.good;
        blocks = h.blocks;
      } in
      let done : transact device j rs ≡ committed disk k id (block_bytes b) =
        ap (λ (p : Journal D × ℕ). (commit_txn device (filled j rs) p.1).0)
          (begin_txn-opened j none_open)
        ∙ ap (λ z. (commit_txn device z id).0) (filled-opened j rs none_open)
        ∙ ap (λ p. p.0)
            (commit_txn-committed disk k id tb found h.room fits
              (length-pad (block_bytes b) pos.0 pos.1)) in
      rw done (
        committed-Holds disk k bs id (with_id id rs) held g fits,
        rw (beq_self id) refl,
        refl,
        refl,
        refl,
        refl,
      )
