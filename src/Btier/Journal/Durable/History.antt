-- ===== src/Btier/Journal/Durable/History.antt =====
-- A journal through transactions, checkpoints and trims, and the recovery behind them.
use clab.Prelude.{
  ℕ, ◌+◌, ◌^◌, ◌≤◌, ◌<◌, ◌≡◌, refl, sym, ap, subst, ◌∙◌, List, [], ◌∷◌, ◌++◌, arith, length,
}
use clab.Btier.Device.{BlockDevice}
use clab.Btier.Device.Disk.{IsDisk}
use clab.Btier.Journal.Codec.{JournalRecord}
use clab.Btier.Journal.Scan.{records}
use clab.Btier.Journal.Block.{padded_length}
use clab.Btier.Journal.Block.Log.{
  Block, txn, ckpt, block_bytes, IsGood, log_entries, block_size, length-pad,
}
use clab.Btier.Journal.State.{Journal, k_superblock_size, write_checkpoint, trim, construct}
use clab.Btier.Journal.Recover.{recover}
use clab.Btier.Journal.Durable.{Holds}
use clab.Btier.Journal.Durable.Reread.{recover-construct}
use clab.Btier.Journal.Durable.Session.{with_id, transact, transact-Holds}
use clab.Btier.Journal.Durable.Checkpoint.{
  write_checkpoint-checkpointed, write_checkpoint-Holds, trim-trimmed, trim-Holds,
}

pub data Step : Type 0 where
  commits checkpoints : List JournalRecord → Step
  trims : Step

abbrev pub step : {D : Type 0} → BlockDevice D → Journal D → Step → Journal D
step device j (commits rs) = transact device j rs
step device j (checkpoints rs) = (write_checkpoint device j rs).0
step device j trims = trim device j

abbrev pub run : {D : Type 0} → BlockDevice D → Journal D → List Step → Journal D
run device j [] = j
run device j (s ∷ ss) = run device (step device j s) ss

-- The block that a step writes under the next transaction id, and the id behind it.
abbrev pub written : ℕ → Step → List Block
written id (commits rs) = txn id (with_id id rs) ∷ []
written id (checkpoints rs) = ckpt rs ∷ []
written id trims = []

abbrev pub next_id : ℕ → Step → ℕ
next_id id (commits rs) = id + 1
next_id id (checkpoints rs) = id
next_id id trims = id

-- The blocks since the last checkpoint or trim.
abbrev pub kept_blocks : List Block → Step → List Block
kept_blocks bs (commits rs) = bs
kept_blocks bs (checkpoints rs) = []
kept_blocks bs trims = []

abbrev pub blocks_after : ℕ → List Block → List Step → List Block
blocks_after id bs [] = bs
blocks_after id bs (s ∷ ss) = blocks_after (next_id id s) (kept_blocks bs s ++ written id s) ss

abbrev pub size_of : List Block → ℕ
size_of [] = 0
size_of (b ∷ bs) = padded_length (length (block_bytes b)) + size_of bs

-- The bytes that all steps write.
abbrev pub steps_size : ℕ → List Step → ℕ
steps_size id [] = 0
steps_size id (s ∷ ss) = size_of (written id s) + steps_size (next_id id s) ss

abbrev pub IsGoodStep : ℕ → Step → Type 0
IsGoodStep id (commits rs) = IsGood (txn id (with_id id rs))
IsGoodStep id (checkpoints rs) = IsGood (ckpt rs)
IsGoodStep id trims = Unit {0}

abbrev pub AllGoodSteps : ℕ → List Step → Type 0
AllGoodSteps id [] = Unit {0}
AllGoodSteps id (s ∷ ss) = IsGoodStep id s × AllGoodSteps (next_id id s) ss

module _ {D : Type 0} {device : BlockDevice D} {size : ℕ} {bytes : D → ℕ → ℕ}
    (disk : IsDisk device size bytes) where
  -- The journal `j` holds the blocks, and no transaction is open.
  record Ready (j : Journal D) (id : ℕ) (bs : List Block) (n w count : ℕ) : Type 0 where
    holds : Holds size bytes j bs
    none_open : j.active_txns ≡ []
    at_id : j.next_txn_id ≡ id
    of_size : j.data_size ≡ n
    at_offset : j.write_offset ≡ w
    counted : j.superblock.checkpoint_seqno ≤ count

  step-Ready :
      (j : Journal D) (id : ℕ) (bs : List Block) (n w count : ℕ) (s : Step)
      → Ready j id bs n w count
      → IsGoodStep id s
      → w + size_of (written id s) < n
      → count + 1 < 2 ^ 64
      → Ready
          (step device j s)
          (next_id id s)
          (kept_blocks bs s ++ written id s)
          n
          (w + size_of (written id s))
          (count + 1)
  step-Ready j id bs n w count (commits rs) r g fits few =
      let e = r.at_id in
      let b : ℕ → Block = λ i. txn i (with_id i rs) in
      let g' = subst (λ i. IsGood (b i)) (sym e) g in
      let len = ap (λ i. padded_length (length (block_bytes (b i)))) e in
      let all =
        transact-Holds disk j bs rs r.holds r.none_open g'
          (omega (arith, len, fits, r.of_size, r.at_offset)) in
      record {
        holds = subst (λ i. Holds size bytes (transact device j rs) (bs ++ (b i ∷ []))) e all.0;
        none_open = all.1;
        at_id = all.2 ∙ ap (λ i. i + 1) e;
        of_size = all.3 ∙ r.of_size;
        at_offset = omega (arith, all.4, len, r.at_offset);
        counted = omega (arith, all.5, r.counted);
      }
  step-Ready j id bs n w count (checkpoints rs) r g fits few =
      let pos = block_size (ckpt rs) g in
      let fits' : j.write_offset + padded_length (length (block_bytes (ckpt rs))) < j.data_size =
        omega (arith, fits, r.of_size, r.at_offset) in
      let made =
        write_checkpoint-checkpointed disk j rs r.holds.room fits'
          (length-pad (block_bytes (ckpt rs)) pos.0 pos.1) in
      let held =
        write_checkpoint-Holds disk j bs rs r.holds g fits' (omega (arith, few, r.counted)) in
      record {
        holds = held.1;
        none_open = ap (λ p. p.0.active_txns) made ∙ r.none_open;
        at_id = ap (λ p. p.0.next_txn_id) made ∙ r.at_id;
        of_size = ap (λ p. p.0.data_size) made ∙ r.of_size;
        at_offset = ap (λ p. p.0.write_offset) made ∙ omega (arith, r.at_offset);
        counted =
            let e = ap (λ p. p.0.superblock.checkpoint_seqno) made in omega (arith, e, r.counted);
      }
  step-Ready j id bs n w count trims r g fits few =
      let made = trim-trimmed disk j r.holds.room in
      record {
        holds = trim-Holds disk j bs r.holds;
        none_open = ap (λ k. k.active_txns) made ∙ r.none_open;
        at_id = ap (λ k. k.next_txn_id) made ∙ r.at_id;
        of_size = ap (λ k. k.data_size) made ∙ r.of_size;
        at_offset = ap (λ k. k.write_offset) made ∙ omega (arith, r.at_offset);
        counted =
            let e = ap (λ k. k.superblock.checkpoint_seqno) made in omega (arith, e, r.counted);
      }

  run-Ready :
      (j : Journal D) (id : ℕ) (bs : List Block) (n w count : ℕ) (ss : List Step)
      → Ready j id bs n w count
      → AllGoodSteps id ss
      → w + steps_size id ss < n
      → count + length ss < 2 ^ 64
      → Holds size bytes (run device j ss) (blocks_after id bs ss)
        × ((run device j ss).data_size ≡ n)
  run-Ready j id bs n w count [] r g fits few = (r.holds, r.of_size)
  run-Ready j id bs n w count (s ∷ ss) r g fits few =
      run-Ready (step device j s) (next_id id s) (kept_blocks bs s ++ written id s) n
        (w + size_of (written id s)) (count + 1) ss
        (step-Ready j id bs n w count s r g.0 (omega (arith, fits)) (omega (arith, few))) g.1
        (omega (arith, fits)) (omega (arith, few))

  -- On a device that works (it reads back what was written), from a journal that holds the blocks
  -- bs and has no open transaction, under any transactions (each begun, filled and committed),
  -- checkpoints and trims: if their records fit their types and are no BEGIN, COMMIT, CHECKPOINT
  -- or 0, all of their padded blocks end before the end of the data area, and the count of
  -- checkpoints does not wrap, then a journal that is opened on the device afterwards recovers the
  -- records of the blocks since the last checkpoint (its own first) or trim, in order.
  pub recover-run :
      (j : Journal D) (bs : List Block) (ss : List Step)
      → Holds size bytes j bs
      → j.active_txns ≡ []
      → AllGoodSteps j.next_txn_id ss
      → j.write_offset + steps_size j.next_txn_id ss < j.data_size
      → j.superblock.checkpoint_seqno + length ss < 2 ^ 64
      → (recover device
          (construct device (run device j ss).dev (k_superblock_size + j.data_size))).1
        ≡ records (log_entries (blocks_after j.next_txn_id bs ss))
  recover-run j bs ss h none_open g fits few =
      let ready : Ready j j.next_txn_id bs j.data_size j.write_offset
          j.superblock.checkpoint_seqno =
        record {
          holds = h;
          none_open = none_open;
          at_id = refl;
          of_size = refl;
          at_offset = refl;
          counted = omega arith;
        } in
      let all =
        run-Ready j j.next_txn_id bs j.data_size j.write_offset j.superblock.checkpoint_seqno ss
          ready g fits few in
      let k = run device j ss in
      ap (λ n. (recover device (construct device k.dev (k_superblock_size + n))).1) (sym all.1)
      ∙ recover-construct disk k (blocks_after j.next_txn_id bs ss) all.0
