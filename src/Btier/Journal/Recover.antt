-- ===== src/Btier/Journal/Recover.antt =====
-- `Journal::recover` of btier/journal.cc.
pub mod Reading
use clab.Prelude.{
  ℕ, zero, suc, ◌+◌, ◌-◌, ◌%◌, ◌^◌, min, Bool, true, false, ◌&&◌, List, [], ◌∷◌, ◌++◌, ltb, leb,
  ◌==◌, if◌then◌else◌,
}
use clab.Btier.Device.{Status, ok, error, Read, got, failed, BlockDevice}
use clab.Btier.Journal.Scan.{Recovered, records, out_of_fuel, k_txn_alignment, start}
use clab.Btier.Journal.Scan.Rounds.{parse}
use clab.Btier.Journal.State.{Journal, k_data_start, read_superblock}

unfoldable pub all_zeros : List ℕ → Bool
all_zeros [] = true
all_zeros (b ∷ bs) = (b == 0) && all_zeros bs

-- The size of the next chunk. The last subtraction is on 64 bits.
-- (A position past the end, which only a damaged superblock gives, makes a size that no device reads.)
abbrev pub chunk_size : ℕ → ℕ → ℕ → ℕ
chunk_size data_size pos remaining =
    let to_read = min k_txn_alignment remaining in
    if ltb data_size (pos + to_read) then (data_size + 2 ^ 64 - pos) % 2 ^ 64 else to_read

abbrev pub is_nil : List ℕ → Bool
is_nil [] = true
is_nil (b ∷ bs) = false

-- The bytes that the read loop has collected when it ends.
pub data Collected : Type 0 where
  collected : List ℕ → Collected
  no_fuel : Collected

module _ {D : Type 0} (device : BlockDevice D) where
  unfoldable pub read_range : ℕ → D → ℕ → ℕ → ℕ → List ℕ → Collected
  read_range zero d data_size pos remaining full = no_fuel
  read_range (suc fuel) d data_size pos remaining full = elim (remaining == 0) [
    | true ↦ collected full
    | false ↦
        let to_read = chunk_size data_size pos remaining in
        elim (device.read d (k_data_start + pos) to_read) [
          | failed e ↦ collected full
          | got chunk ↦ elim (is_nil chunk) [
            | true ↦ collected full
            | false ↦
                read_range fuel d data_size
                  (if leb data_size (pos + to_read) then 0 else pos + to_read) (remaining - to_read)
                  (full ++ chunk)
          ]
        ]
  ]

  abbrev pub parse_collected : Collected → Recovered
  parse_collected no_fuel = out_of_fuel
  parse_collected (collected full) = parse 0 full start

  -- The scan range, from the last checkpoint to the write head, around the end of the device.
  abbrev pub scan_length : Journal D → ℕ
  scan_length j =
      let from = j.superblock.checkpoint_offset in
      if leb from j.write_offset then j.write_offset - from else j.data_size - from + j.write_offset

  unfoldable pub scan_range : Journal D → Recovered
  unfolding read_range
  scan_range j =
      let n = scan_length j in
      parse_collected (read_range (suc n) j.dev j.data_size j.superblock.checkpoint_offset n [])

  abbrev pub looks_empty : Read → Bool
  looks_empty (failed e) = true
  looks_empty (got first) = all_zeros first

  abbrev pub after_superblock : Journal D × Status → Journal D × Recovered
  after_superblock (j, error e) = (j, records [])
  after_superblock (j, ok) =
      if j.superblock.checkpoint_offset == j.write_offset
      then (if j.write_offset == 0
          then (if looks_empty (device.read j.dev k_data_start k_txn_alignment)
              then (j, records [])
              else (j, scan_range j))
          else (j, records []))
      else (j, scan_range j)

  unfoldable pub recover : Journal D → Journal D × Recovered
  unfolding scan_range all_zeros
  recover j = after_superblock (read_superblock device j)
