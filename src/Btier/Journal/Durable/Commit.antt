-- ===== src/Btier/Journal/Durable/Commit.antt =====
-- Journal::commit_txn of btier/journal.cc on a device that works.
use mathlib.Core.List.{append-nil, append_assoc}
use clab.Prelude.{
  ℕ, ◌+◌, ◌-◌, ◌≤◌, ◌<◌, ◌≡◌, refl, sym, ap, ap₂, ◌∙◌, inl, inr, false, List, [], ◌∷◌, ◌++◌, some,
  arith, length, ltb, leb, nat_eq,
}
use clab.Prelude.Assoc.{find, erase}
use clab.Btier.Device.{BlockDevice, ok}
use clab.Btier.Device.Disk.{
  window, overlay, IsDisk, window-same, window-split, window-overlay, window-overlay_outside,
}
use clab.Btier.Journal.Codec.{JournalRecord}
use clab.Btier.Journal.Scan.{serialize_all}
use clab.Btier.Journal.Block.{txn_block, padded_length, pad}
use clab.Btier.Journal.Block.Log.{
  Block, txn, block_bytes, IsGood, AllGood, log, length-pad, block_size,
}
use clab.Btier.Journal.State.{
  Journal, SuperBlock, TxnBuffer, k_data_start, k_superblock_size, encode_superblock,
  write_superblock, pad_and_write, commit_txn,
}
use clab.Btier.Journal.Durable.{Holds}
use clab.Btier.Journal.Durable.Superblock.{length-encode_superblock}

log-append : (bs : List Block) (b : Block) → log (bs ++ (b ∷ [])) ≡ log bs ++ pad (block_bytes b)
log-append [] b = append-nil (pad (block_bytes b))
log-append (x ∷ bs) b =
    ap (λ l. pad (block_bytes x) ++ l) (log-append bs b)
    ∙ sym (append_assoc (pad (block_bytes x)) (log bs) (pad (block_bytes b)))

append-AllGood : (bs : List Block) (b : Block) → AllGood bs → IsGood b → AllGood (bs ++ (b ∷ []))
append-AllGood [] b gs g = (g, tt)
append-AllGood (x ∷ bs) b gs g = (gs.0, append-AllGood bs b gs.1 g)

module _ {D : Type 0} {device : BlockDevice D} {size : ℕ} {bytes : D → ℕ → ℕ}
    (disk : IsDisk device size bytes) where
  -- A write and the flush behind it: both succeed, and the bytes are those of the write.
  write_flush :
      (d : D) (off : ℕ) (bl : List ℕ)
      → off + length bl ≤ size
      → ((device.write d off bl).1 ≡ ok)
        × ((device.flush (device.write d off bl).0).1 ≡ ok)
        × ((i : ℕ)
            → bytes (device.flush (device.write d off bl).0).0 i ≡ overlay bl off (bytes d) i)
  write_flush d off bl fits = (
    disk.writes d off bl fits,
    disk.flushes (device.write d off bl).0,
    λ i. disk.flushed (device.write d off bl).0 i ∙ disk.written d off bl i fits,
  )

  abbrev pub on_disk : D → ℕ → List ℕ → D
  on_disk d off bl = (device.flush (device.write d off bl).0).0

  pub pad_and_write_lem :
      (j : Journal D) (bl : List ℕ)
      → k_data_start + j.data_size ≤ size
      → j.write_offset + padded_length (length bl) < j.data_size
      → length (pad bl) ≡ padded_length (length bl)
      → pad_and_write device j bl ≡ (
        record j {
          dev = on_disk j.dev (k_data_start + j.write_offset) (pad bl);
          write_offset = j.write_offset + padded_length (length bl);
        },
        ok,
      )
  unfolding pad_and_write
  pad_and_write_lem j bl room fits padded =
      let here : ltb j.data_size (j.write_offset + padded_length (length bl)) ≡ false =
        ground arith in
      let w = write_flush j.dev (k_data_start + j.write_offset) (pad bl) (omega (arith, padded)) in
      let stays : leb j.data_size (j.write_offset + padded_length (length bl)) ≡ false =
        ground arith in
      rw (pad_and_write, here, w.0, w.1, stays) refl

  pub write_superblock_lem :
      (j : Journal D)
      → k_data_start + j.data_size ≤ size
      → write_superblock device j
        ≡ (record j { dev = on_disk j.dev 0 (encode_superblock j.superblock) }, ok)
  unfolding write_superblock
  write_superblock_lem j room =
      let w =
        write_flush j.dev 0 (encode_superblock j.superblock)
          (omega (arith, length-encode_superblock j.superblock)) in
      rw (write_superblock, w.0, w.1) refl

  pub window-on_disk :
      (n at : ℕ) (d : D) (off : ℕ) (bl : List ℕ)
      → off + length bl ≤ size
      → window n at (bytes (on_disk d off bl)) ≡ window n at (overlay bl off (bytes d))
  window-on_disk n at d off bl fits =
      window-same n at (bytes (on_disk d off bl)) (overlay bl off (bytes d))
        (λ i a z. (write_flush d off bl fits).2 i)

  -- The superblock that `write_superblock` writes stands at the beginning.
  pub stored_after :
      (d : D) (sb : SuperBlock)
      → k_superblock_size ≤ size
      → window k_superblock_size 0 (bytes (on_disk d 0 (encode_superblock sb)))
        ≡ encode_superblock sb
  stored_after d sb fits =
      let bl = encode_superblock sb in
      let len = length-encode_superblock sb in
      window-on_disk k_superblock_size 0 d 0 bl (omega (arith, len))
      ∙ ap (λ n. window n 0 (overlay bl 0 (bytes d))) (sym len)
      ∙ window-overlay bl 0 (bytes d)

  -- And the data area behind it is as it was.
  pub data_after :
      (d : D) (sb : SuperBlock) (n at : ℕ)
      → k_superblock_size ≤ size
      → k_superblock_size ≤ at
      → window n at (bytes (on_disk d 0 (encode_superblock sb))) ≡ window n at (bytes d)
  data_after d sb n at fits behind =
      let bl = encode_superblock sb in
      let len = length-encode_superblock sb in
      window-on_disk n at d 0 bl (omega (arith, len))
      ∙ window-overlay_outside n at bl 0 (bytes d) (inr (omega (arith, len)))

  -- A block that is written at the write head stands behind what was there from `from` on.
  pub block_after :
      (d : D) (from at : ℕ) (bl : List ℕ)
      → from ≤ at
      → at + length bl ≤ size
      → window (at + length bl - from) from (bytes (on_disk d at bl))
        ≡ window (at - from) from (bytes d) ++ bl
  block_after d from at bl le fits =
      let n = length bl in
      let f = overlay bl at (bytes d) in
      window-on_disk (at + n - from) from d at bl fits
      ∙ ap (λ k. window k from f) (let e : at + n - from ≡ (at - from) + n = omega arith in e)
      ∙ window-split (at - from) n from f
      ∙ ap₂ (λ (x y : List ℕ). x ++ y)
          (window-overlay_outside (at - from) from bl at (bytes d) (inl (omega arith)))
          (ap (λ k. window n k f) (let e : from + (at - from) ≡ at = omega arith in e)
            ∙ window-overlay bl at (bytes d))

  -- The journal after a commit.
  abbrev pub committed : Journal D → ℕ → List ℕ → Journal D
  committed j id bl =
      let w = j.write_offset + padded_length (length bl) in
      let sb = record (j.superblock) { write_offset = w } in
      record j {
        active_txns = erase id j.active_txns;
        superblock = sb;
        write_offset = w;
        dev =
            on_disk (on_disk j.dev (k_data_start + j.write_offset) (pad bl)) 0
              (encode_superblock sb);
      }

  pub commit_txn-committed :
      (j : Journal D) (id : ℕ) (tb : TxnBuffer)
      → let bl = txn_block id tb.serialized in
        find id j.active_txns ≡ some tb
        → k_data_start + j.data_size ≤ size
        → j.write_offset + padded_length (length bl) < j.data_size
        → length (pad bl) ≡ padded_length (length bl)
        → commit_txn device j id ≡ (committed j id bl, ok)
  unfolding commit_txn
  commit_txn-committed j id tb found room fits padded =
      let bl = txn_block id tb.serialized in
      let open_ones = record j { active_txns = erase id j.active_txns } in
      let w = j.write_offset + padded_length (length bl) in
      let written = record open_ones {
        dev = on_disk j.dev (k_data_start + j.write_offset) (pad bl);
        write_offset = w;
        superblock = record (j.superblock) { write_offset = w };
      } in
      rw
        (
          commit_txn,
          found,
          pad_and_write_lem open_ones bl room fits padded,
          write_superblock_lem written room,
        )
        refl

  pub committed-Holds :
      (j : Journal D) (bs : List Block) (id : ℕ) (rs : List JournalRecord)
      → Holds size bytes j bs
      → IsGood (txn id rs)
      → let bl = txn_block id (serialize_all rs) in
        j.write_offset + padded_length (length bl) < j.data_size
        → Holds size bytes (committed j id bl) (bs ++ (txn id rs ∷ []))
  committed-Holds j bs id rs h g fits =
      let bl = txn_block id (serialize_all rs) in
      let b = txn id rs in
      let c = j.superblock.checkpoint_offset in
      let w = j.write_offset in
      let pos = block_size b g in
      let padded : length (pad bl) ≡ padded_length (length bl) = length-pad bl pos.0 pos.1 in
      let sb = record (j.superblock) { write_offset = w + padded_length (length bl) } in
      let d1 = on_disk j.dev (k_data_start + w) (pad bl) in
      record {
        room = h.room;
        word = h.word;
        sb = record {
          magic_word = h.sb.magic_word;
          from_word = h.sb.from_word;
          count_word = h.sb.count_word;
          write_word = omega (arith, h.word);
        };
        synced = refl;
        order = omega (arith, h.order);
        inside = fits;
        stored = stored_after d1 sb (omega (arith, h.room));
        good = append-AllGood bs b h.good g;
        blocks =
            let n = w + padded_length (length bl) - c in
            let at = k_data_start + w in
            data_after d1 sb n (k_data_start + c) (omega (arith, h.room)) (omega arith)
            ∙ ap (λ k. window k (k_data_start + c) (bytes d1))
                (let e : n ≡ at + length (pad bl) - (k_data_start + c) = omega (arith, padded) in e)
            ∙ block_after j.dev (k_data_start + c) at (pad bl) (omega (arith, h.order))
                (omega (arith, padded, h.room))
            ∙ ap (λ k. window k (k_data_start + c) (bytes j.dev) ++ pad bl)
                (let e : at - (k_data_start + c) ≡ w - c = omega arith in e)
            ∙ ap (λ l. l ++ pad bl) h.blocks
            ∙ sym (log-append bs b);
      }

  -- On a device that works: committing an open transaction whose records are good and whose padded
  -- block ends before the end of the data area succeeds, closes the transaction, and leaves a
  -- journal that holds the block behind the blocks it held before.
  pub commit_txn-Holds :
      (j : Journal D) (bs : List Block) (id : ℕ) (tb : TxnBuffer) (rs : List JournalRecord)
      → Holds size bytes j bs
      → find id j.active_txns ≡ some tb
      → tb.serialized ≡ serialize_all rs
      → IsGood (txn id rs)
      → j.write_offset + padded_length (length (txn_block id (serialize_all rs))) < j.data_size
      → ((commit_txn device j id).1 ≡ ok)
        × ((commit_txn device j id).0.active_txns ≡ erase id j.active_txns)
        × Holds size bytes (commit_txn device j id).0 (bs ++ (txn id rs ∷ []))
  commit_txn-Holds j bs id tb rs h found same g fits =
      let bl = txn_block id (serialize_all rs) in
      let pos = block_size (txn id rs) g in
      let e : txn_block id tb.serialized ≡ bl = ap (txn_block id) same in
      let done : commit_txn device j id ≡ (committed j id bl, ok) =
        commit_txn-committed j id tb found h.room (rw e fits) (rw e (length-pad bl pos.0 pos.1))
        ∙ ap (λ k. (committed j id k, ok)) e in
      rw done (refl, refl, committed-Holds j bs id rs h g fits)
