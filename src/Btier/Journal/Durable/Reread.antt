-- ===== src/Btier/Journal/Durable/Reread.antt =====
-- Journal::recover of btier/journal.cc on a device that works.
use mathlib.Core.List.{append-nil, append_assoc}
use clab.Prelude.{
  ℕ, zero, suc, ◌+◌, ◌-◌, ◌≤◌, ◌<◌, ◌≡◌, refl, sym, ap, ◌∙◌, inl, inr, min, true, false, List, [],
  ◌++◌, arith, length, ltb, leb, ◌==◌, Bool-cases,
}
use clab.Btier.Device.{BlockDevice, ok, got}
use clab.Btier.Device.Disk.{window, IsDisk, window-split}
use clab.Btier.Journal.Scan.{records, k_txn_alignment, start}
use clab.Btier.Journal.Scan.Rounds.{parse, parse-nil}
use clab.Btier.Journal.Block.Log.{Block, log, log_entries, parse-log_from_start}
use clab.Btier.Journal.State.{
  Journal, SuperBlock, k_data_start, k_superblock_size, magic_number, fresh_superblock,
  encode_superblock, read_superblock, construct,
}
use clab.Btier.Journal.Recover.{
  chunk_size, collected, is_nil, read_range, scan_range, recover, looks_empty,
}
use clab.Btier.Journal.Durable.{IsWord, Holds}
use clab.Btier.Journal.Durable.Superblock.{
  length-encode_superblock, decode_superblock-encode_superblock,
}

window_some : (n at : ℕ) (f : ℕ → ℕ) → 0 < n → is_nil (window n at f) ≡ false
window_some zero at f h = absurd (omega arith)
window_some (suc n) at f h = refl

module _ {D : Type 0} {device : BlockDevice D} {size : ℕ} {bytes : D → ℕ → ℕ}
    (disk : IsDisk device size bytes) where
  read_range_none :
      (fuel : ℕ) (d : D) (data_size pos : ℕ) (full : List ℕ)
      → 0 < fuel
      → read_range device fuel d data_size pos 0 full ≡ collected full
  unfolding read_range
  read_range_none zero d data_size pos full enough = absurd (omega arith)
  read_range_none (suc fuel) d data_size pos full enough = refl

  -- The read loop collects the range, if it ends within the data area.
  read_range-window :
      (fuel : ℕ) (d : D) (data_size pos remaining : ℕ) (full : List ℕ)
      → k_data_start + data_size ≤ size
      → pos + remaining ≤ data_size
      → remaining < fuel
      → read_range device fuel d data_size pos remaining full
        ≡ collected (full ++ window remaining (k_data_start + pos) (bytes d))
  unfolding read_range
  read_range-window zero d data_size pos remaining full room inside enough = absurd (omega arith)
  read_range-window (suc fuel) d data_size pos zero full room inside enough =
      ap collected (sym (append-nil full))
  read_range-window (suc fuel) d data_size pos (suc left) full room inside enough =
      let n = min k_txn_alignment (suc left) in
      let size_ok : chunk_size data_size pos (suc left) ≡ n = ground arith in
      let chunk = window n (k_data_start + pos) (bytes d) in
      let read_ok : device.read d (k_data_start + pos) (chunk_size data_size pos (suc left))
          ≡ got chunk =
        ap (device.read d (k_data_start + pos)) size_ok
        ∙ disk.reads d (k_data_start + pos) n (omega arith) in
      let full_chunk : is_nil chunk ≡ false =
        window_some n (k_data_start + pos) (bytes d) (omega arith) in
      let more : (suc left == 0) ≡ false = ground arith in
      let whole : window (suc left) (k_data_start + pos) (bytes d)
          ≡ chunk ++ window (suc left - n) (k_data_start + (pos + n)) (bytes d) =
        ap (λ k. window k (k_data_start + pos) (bytes d))
          (let e : suc left ≡ n + (suc left - n) = omega arith in e)
        ∙ window-split n (suc left - n) (k_data_start + pos) (bytes d)
        ∙ ap (λ k. chunk ++ window (suc left - n) k (bytes d)) (omega arith) in
      elim (Bool-cases (leb data_size (pos + n))) [
        | inl ends ↦
            let done : suc left - n ≡ 0 = ground arith in
            rw (read_range, more, read_ok, full_chunk, size_ok, ends, done)
              (read_range_none fuel d data_size 0 (full ++ chunk) (omega arith)
                ∙ ap (λ l. collected (full ++ l))
                    (sym (append-nil chunk)
                      ∙ ap (λ k. chunk ++ window k (k_data_start + (pos + n)) (bytes d)) (sym done)
                      ∙ sym whole))
        | inr goes_on ↦
            rw (read_range, more, read_ok, full_chunk, size_ok, goes_on)
              (read_range-window fuel d data_size (pos + n) (suc left - n) (full ++ chunk) room
                  (omega arith) (omega arith)
                ∙ ap collected (
                    append_assoc full chunk
                      (window (suc left - n) (k_data_start + (pos + n)) (bytes d))
                    ∙ ap (λ l. full ++ l) (sym whole)))
      ]

  -- The journal with the superblock that is read from the device.
  abbrev pub reopened : Journal D → SuperBlock → Journal D
  reopened j sb = record j { superblock = sb; write_offset = sb.write_offset }

  read_superblock-reopened :
      (j : Journal D) (sb : SuperBlock)
      → k_superblock_size ≤ size
      → IsWord sb
      → window k_superblock_size 0 (bytes j.dev) ≡ encode_superblock sb
      → read_superblock device j ≡ (reopened j sb, ok)
  unfolding read_superblock
  read_superblock-reopened j sb fits word stored =
      let read_ok : device.read j.dev 0 k_superblock_size ≡ got (encode_superblock sb) =
        disk.reads j.dev 0 k_superblock_size (omega arith) ∙ ap got stored in
      let long : ltb (length (encode_superblock sb)) k_superblock_size ≡ false =
        ground (arith, length-encode_superblock sb) in
      let decoded =
        decode_superblock-encode_superblock sb (omega (arith, word.magic_word)) word.from_word
          word.count_word word.write_word in
      let valid : (sb.magic == magic_number) ≡ true = ground (arith, word.magic_word) in
      rw (read_superblock, read_ok, long, decoded, valid) refl

  scan_range-Holds :
      (j k : Journal D) (bs : List Block)
      → Holds size bytes j bs
      → k.dev ≡ j.dev
      → k.data_size ≡ j.data_size
      → scan_range device (reopened k j.superblock) ≡ records (log_entries bs)
  unfolding scan_range
  scan_range-Holds j k bs h same_dev same_size =
      let from = j.superblock.checkpoint_offset in
      let to = j.superblock.write_offset in
      let forward : leb from to ≡ true = ground (arith, h.order, h.synced) in
      let n = to - from in
      let len : to - from ≡ j.write_offset - from = ap (λ z. z - from) h.synced in
      let reading =
        read_range-window (suc n) k.dev k.data_size from n [] (omega (arith, same_size, h.room))
          (omega (arith, same_size, h.synced, h.order, h.inside)) (omega arith) in
      let there : window n (k_data_start + from) (bytes k.dev) ≡ log bs =
        ap (λ z. window n (k_data_start + from) (bytes z)) same_dev
        ∙ ap (λ z. window z (k_data_start + from) (bytes j.dev)) len
        ∙ h.blocks in
      rw (scan_range, forward, reading)
        (ap (λ l. parse 0 l start) there ∙ parse-log_from_start bs h.good)

  -- On a device that works: whatever else the object has in memory, if it is on the device of a
  -- journal that holds the blocks bs, with a data area of the same size, then recover returns the
  -- records of these blocks, in order.
  pub recover-Holds :
      (j k : Journal D) (bs : List Block)
      → Holds size bytes j bs
      → k.dev ≡ j.dev
      → k.data_size ≡ j.data_size
      → (recover device k).1 ≡ records (log_entries bs)
  unfolding recover
  recover-Holds j k bs h same_dev same_size =
      let sb = j.superblock in
      let opened =
        read_superblock-reopened k sb (omega (arith, h.room)) h.sb
          (ap (λ d. window k_superblock_size 0 (bytes d)) same_dev ∙ h.stored) in
      let scanned = scan_range-Holds j k bs h same_dev same_size in
      elim (Bool-cases (sb.checkpoint_offset == sb.write_offset)) [
        | inr apart ↦ rw (recover, opened, apart) scanned
        | inl level ↦
            let empty : records [] ≡ records (log_entries bs) =
              sym (parse-nil 0 start)
              ∙ ap (λ l. parse 0 l start)
                  (ap (λ n. window n (k_data_start + sb.checkpoint_offset) (bytes j.dev))
                      (let e : 0 ≡ j.write_offset - sb.checkpoint_offset =
                          ground (arith, level, h.synced) in
                        e)
                    ∙ h.blocks)
              ∙ parse-log_from_start bs h.good in
            elim (Bool-cases (sb.write_offset == 0)) [
              | inr used ↦ rw (recover, opened, level, used) empty
              | inl unused ↦
                  elim (Bool-cases
                    (looks_empty device (device.read k.dev k_data_start k_txn_alignment))) [
                      | inl zeros ↦ rw (recover, opened, level, unused, zeros) empty
                      | inr bytes_there ↦ rw (recover, opened, level, unused, bytes_there) scanned
                    ]
            ]
      ]

  construct-reopens :
      (j : Journal D) (bs : List Block)
      → Holds size bytes j bs
      → let k = construct device j.dev (k_superblock_size + j.data_size) in
        (k.dev ≡ j.dev) × (k.data_size ≡ j.data_size)
  unfolding construct
  construct-reopens j bs h =
      let blank : Journal D = record {
        dev = j.dev;
        data_size = k_superblock_size + j.data_size - k_superblock_size;
        next_txn_id = 1;
        active_txns = [];
        superblock = record fresh_superblock { magic = 0 };
        write_offset = 0;
      } in
      let opened =
        read_superblock-reopened blank j.superblock (omega (arith, h.room)) h.sb h.stored in
      rw (construct, opened) (refl, omega arith)

  -- A journal that holds the blocks `bs`, opened again on its device with the size of the device,
  -- recovers the records of these blocks, in order.
  pub recover-construct :
      (j : Journal D) (bs : List Block)
      → Holds size bytes j bs
      → (recover device (construct device j.dev (k_superblock_size + j.data_size))).1
        ≡ records (log_entries bs)
  recover-construct j bs h =
      let same = construct-reopens j bs h in
      recover-Holds j (construct device j.dev (k_superblock_size + j.data_size)) bs h same.0 same.1
