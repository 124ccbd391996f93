-- ===== src/Btier/Journal/Recover/Reading.antt =====
-- The read loop of Journal::recover in btier/journal.cc, and its fuel.
use clab.Prelude.{
  ℕ, zero, suc, ◌+◌, ◌-◌, ◌^◌, ◌≤◌, ◌<◌, ◌≢◌, refl, inl, inr, true, false, List, [], ◌∷◌, ◌++◌,
  arith, length, leb, ◌==◌, if◌then◌else◌, Bool-cases,
}
use clab.Btier.Device.{BlockDevice, Read, got, failed}
use clab.Btier.Journal.Scan.{out_of_fuel, start}
use clab.Btier.Journal.Scan.Fuel.{scan_total}
use clab.Btier.Journal.Scan.Rounds.{parse}
use clab.Btier.Journal.State.{Journal, k_data_start}
use clab.Btier.Journal.Recover.{
  chunk_size, Collected, collected, no_fuel, is_nil, read_range, scan_length, parse_collected,
  scan_range,
}

-- A chunk within the data area: at least one byte, at most what is left, not past the end.
pub chunk_size-bounds :
    (data_size pos remaining : ℕ)
    → data_size < 2 ^ 64
    → pos < data_size
    → 0 < remaining
    → (0 < chunk_size data_size pos remaining)
      × (chunk_size data_size pos remaining ≤ remaining)
      × (pos + chunk_size data_size pos remaining ≤ data_size)
chunk_size-bounds data_size pos remaining word inside more = ground arith

parse_total : (full : List ℕ) → parse 0 full start ≢ out_of_fuel
unfolding parse
parse_total full = scan_total (suc (length full)) 0 full start (omega arith)

module _ {D : Type 0} (device : BlockDevice D) where
  read_range_total :
      (fuel : ℕ) (d : D) (data_size pos remaining : ℕ) (full : List ℕ)
      → data_size < 2 ^ 64
      → pos < data_size
      → remaining < fuel
      → read_range device fuel d data_size pos remaining full ≢ no_fuel
  unfolding read_range
  read_range_total zero d data_size pos remaining full word inside enough = absurd (omega arith)
  read_range_total (suc fuel) d data_size pos remaining full word inside enough =
      elim (Bool-cases (remaining == 0)) [
        | inl done ↦ rw (read_range, done) (λ e. ground arith)
        | inr more ↦
            let n = chunk_size data_size pos remaining in
            let bounds = chunk_size-bounds data_size pos remaining word inside (ground arith) in
            let next = if leb data_size (pos + n) then 0 else pos + n in
            rw (read_range, more)
              (after_chunk fuel d data_size next (remaining - n) full
                (device.read d (k_data_start + pos) n)
                (λ chunk.
                  read_range_total fuel d data_size next (remaining - n) (full ++ chunk) word
                    (ground arith) (omega arith)))
      ]
    where
      after_chunk :
          (fuel : ℕ) (d : D) (data_size next left : ℕ) (full : List ℕ) (r : Read)
          → ((chunk : List ℕ)
              → read_range device fuel d data_size next left (full ++ chunk) ≢ no_fuel)
          → elim r [
            | failed e ↦ collected full
            | got chunk ↦ elim (is_nil chunk) [
              | true ↦ collected full
              | false ↦ read_range device fuel d data_size next left (full ++ chunk)
            ]
          ]
            ≢ no_fuel
      after_chunk fuel d data_size next left full (failed e) rest = λ x. ground arith
      after_chunk fuel d data_size next left full (got []) rest = λ x. ground arith
      after_chunk fuel d data_size next left full (got (b ∷ bs)) rest = rest (b ∷ bs)

  -- Whatever the device answers: if the data area is below 2^64 bytes and the scan starts within
  -- it, recovery reads its range and parses it to the end, within the fuel of both loops.
  pub scan_range_total :
      (j : Journal D)
      → j.data_size < 2 ^ 64
      → j.superblock.checkpoint_offset < j.data_size
      → scan_range device j ≢ out_of_fuel
  unfolding scan_range
  scan_range_total j word inside =
      let n = scan_length device j in
      let from = j.superblock.checkpoint_offset in
      go (read_range device (suc n) j.dev j.data_size from n [])
        (read_range_total (suc n) j.dev j.data_size from n [] word inside (omega arith))
    where
      go : (c : Collected) → c ≢ no_fuel → parse_collected device c ≢ out_of_fuel
      go no_fuel h = absurd (h refl)
      go (collected full) h = parse_total full
