-- ===== src/Btier/Journal/Scan/Rounds.antt =====
-- One round of the parse loop, with the fuel put aside.
use native.Mathlib.Decide.{dec_lt}
use clab.Prelude.{
  ℕ, zero, suc, ◌+◌, ◌-◌, ◌≤◌, ◌<◌, ◌≡◌, refl, ◌≢◌, sym, ap, ◌∙◌, inl, inr, List, [], ◌++◌, some,
  arith, length, drop, replicate, length-drop, length-append, length-replicate, drop-append, ltb,
  ◌==◌, Option-cases, Bool-cases,
}
use clab.Btier.Journal.Codec.{JournalRecord, deserialize_record, serialize_record, op_byte}
use clab.Btier.Journal.Codec.RoundTrip.{
  Fits, kept, length-serialize_record, deserialize_record-serialize_record,
}
use clab.Btier.Journal.Codec.Shrinks.{deserialize_record-lt}
use clab.Btier.Journal.Codec.Padding.{deserialize_record_zero}
use clab.Btier.Journal.Scan.{Parsing, handle, records, Recovered, next_boundary, scan}

-- The amount of fuel makes no difference, once there is enough.
scan_fuel :
    (m n off : ℕ) (bytes : List ℕ) (s : Parsing)
    → length bytes < m
    → length bytes < n
    → scan m off bytes s ≡ scan n off bytes s
unfolding scan
scan_fuel zero n off bytes s h k = absurd (omega arith)
scan_fuel (suc m) zero off bytes s h k = absurd (omega arith)
scan_fuel (suc m) (suc n) off bytes s h k = elim (Option-cases (deserialize_record bytes)) [
  | inl e ↦ ground arith
  | inr ((r, rest), e) ↦ ground (
    arith,
    deserialize_record-lt bytes r rest e,
    length-drop (next_boundary off - off) bytes,
    scan_fuel m n (next_boundary off) (drop (next_boundary off - off) bytes) s,
    scan_fuel m n (off + (length bytes - length rest)) rest (handle r.op r s),
  )
]

-- The loop with the fuel that `recover` is given.
unfoldable pub parse : ℕ → List ℕ → Parsing → Recovered
parse off bytes s = scan (suc (length bytes)) off bytes s

pub parse-nil : (off : ℕ) (s : Parsing) → parse off [] s ≡ records s.result
unfolding parse scan
parse-nil off s = refl

scan_record :
    (fuel off : ℕ) (bytes : List ℕ) (s : Parsing) (r : JournalRecord) (rest : List ℕ)
    → 9 ≤ length bytes
    → deserialize_record bytes ≡ some (r, rest)
    → op_byte r.op ≢ 0
    → scan (suc fuel) off bytes s
      ≡ scan fuel (off + (length bytes - length rest)) rest (handle r.op r s)
unfolding scan
scan_record fuel off bytes s r rest enough e entry = elim (Bool-cases (op_byte r.op == 0)) [
  | inl z ↦ absurd (entry (ground arith))
  | inr nz ↦ elim (Bool-cases (ltb (length bytes) 9)) [
    | inl short ↦ absurd (ground arith)
    | inr long ↦ rw (scan, long, e, nz)
  ]
]

-- A record that is all there is read, and handled by its operation.
pub parse_record :
    (off : ℕ) (r : JournalRecord) (rest : List ℕ) (s : Parsing)
    → Fits r
    → op_byte (kept r).op ≢ 0
    → parse off (serialize_record r ++ rest) s
      ≡ parse (off + length (serialize_record r)) rest (handle (kept r).op (kept r) s)
unfolding parse
parse_record off r rest s f entry =
    let bytes = serialize_record r ++ rest in
    let len = length-append (serialize_record r) rest in
    let used : length bytes - length rest ≡ length (serialize_record r) = omega (arith, len) in
    let s' = handle (kept r).op (kept r) s in
    scan_record (length bytes) off bytes s (kept r) rest
      (omega (arith, len, length-serialize_record r)) (deserialize_record-serialize_record r rest f)
      entry
    ∙ scan_fuel (length bytes) (suc (length rest)) (off + (length bytes - length rest)) rest s'
        (omega (arith, len, length-serialize_record r)) (omega arith)
    ∙ ap (λ k. scan (suc (length rest)) (off + k) rest s') used

-- The zero bytes from an offset up to the next boundary are skipped.
pub parse_padding :
    (off n : ℕ) (rest : List ℕ) (s : Parsing)
    → off + suc n ≡ next_boundary off
    → parse off (replicate (suc n) 0 ++ rest) s ≡ parse (next_boundary off) rest s
unfolding parse scan
parse_padding off n rest s fits =
    let zeros : List ℕ = replicate (suc n) 0 in
    let bytes = zeros ++ rest in
    let len = length-append zeros rest in
    let zlen : length zeros ≡ suc n = length-replicate (suc n) 0 in
    let back : drop (suc n) bytes ≡ rest =
      ap (λ k. drop k bytes) (sym zlen) ∙ drop-append zeros rest in
    elim (dec_lt (length bytes) 9) [
      | yes short ↦ ground (arith, len, zlen)
      | no long ↦
          let (id, left, e) = deserialize_record_zero (replicate n 0 ++ rest) (omega arith) in
          ground (
            arith,
            len,
            zlen,
            e,
            back,
            ap (λ k. drop k bytes) (let d : next_boundary off - off ≡ suc n = omega arith in d),
            scan_fuel (length bytes) (suc (length rest)) (next_boundary off) rest s,
          )
    ]
