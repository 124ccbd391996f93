-- ===== src/Btier/Journal/Scan/Fuel.antt =====
-- The fuel of the parse loop of Journal::recover in btier/journal.cc.
use clab.Prelude.{
  ℕ, zero, suc, ◌+◌, ◌-◌, ◌<◌, ◌≢◌, inl, inr, List, arith, length, drop, length-drop, Option-cases,
}
use clab.Btier.Journal.Codec.{deserialize_record}
use clab.Btier.Journal.Codec.Shrinks.{deserialize_record-lt}
use clab.Btier.Journal.Scan.{Parsing, handle, out_of_fuel, next_boundary, scan}

-- With more fuel than bytes the parse loop of recover does not run out of it, whatever the bytes,
-- the offset and the state of the loop are.
pub scan_total :
    (fuel off : ℕ) (bytes : List ℕ) (s : Parsing)
    → length bytes < fuel
    → scan fuel off bytes s ≢ out_of_fuel
unfolding scan
scan_total zero off bytes s h = absurd (omega arith)
scan_total (suc fuel) off bytes s h = elim (Option-cases (deserialize_record bytes)) [
  | inl e ↦ ground arith
  | inr ((r, rest), e) ↦ ground (
    arith,
    deserialize_record-lt bytes r rest e,
    length-drop (next_boundary off - off) bytes,
    scan_total fuel (next_boundary off) (drop (next_boundary off - off) bytes) s,
    scan_total fuel (off + (length bytes - length rest)) rest (handle r.op r s),
  )
]
