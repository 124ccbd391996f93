-- ===== src/Btier/ExtentMap/Slots/Effects.antt =====
-- The methods of btier/extent_map.cc on one extent, as changes of its entry.
use clab.Prelude.{
  ℕ, ◌≡◌, inl, inr, ◌&&◌, Option, none, some, arith, ◌==◌, if◌then◌else◌, nat_eq, Option-cases,
}
use clab.Prelude.Assoc.{find-insert}
use clab.Btier.Types.{IoOp, active, state}
use clab.Btier.ExtentMap.{ExtentEntry, ExtentMap, add32, sub32, lookup}
use clab.Btier.ExtentMap.Slots.{
  appended, died, fits, count_io, put_randomness, append_slot, mark_dead_slot, record_io,
  set_randomness, io_ref_inc, io_ref_dec,
}

-- The entry `j` after a change of the entry `id`.
abbrev pub changed : ℕ → ℕ → (ExtentEntry → ExtentEntry) → Option ExtentEntry → Option ExtentEntry
changed id j f none = none
changed id j f (some e) = if id == j then some (f e) else some e

module _ {A : Type 0} (m : ExtentMap A) (id j : ℕ) where
  pub lookup-record_io :
      (op : IoOp) (now : ℕ)
      → lookup (record_io m id op now) j
        ≡ changed id j
            (λ e. record e { raw = count_io e.raw op; last_access_time = now })
            (lookup m j)
  unfolding record_io
  lookup-record_io op now = elim (Option-cases (lookup m id)) [
    | inl n ↦ rw (record_io, n) (ground arith)
    | inr (e, s) ↦
        let e' = record e { raw = count_io e.raw op; last_access_time = now } in
        rw (record_io, s) (ground (arith, find-insert id j e' m.entries))
  ]

  pub lookup-set_randomness :
      (r : ℕ)
      → lookup (set_randomness m id r) j
        ≡ changed id j (λ e. record e { raw = put_randomness e.raw r }) (lookup m j)
  unfolding set_randomness
  lookup-set_randomness r = elim (Option-cases (lookup m id)) [
    | inl n ↦ rw (set_randomness, n) (ground arith)
    | inr (e, s) ↦
        let e' = record e { raw = put_randomness e.raw r } in
        rw (set_randomness, s) (ground (arith, find-insert id j e' m.entries))
  ]

  pub lookup-io_ref_inc :
      lookup (io_ref_inc m id) j
      ≡ changed id j (λ e. record e { io_refs = add32 e.io_refs 1 }) (lookup m j)
  unfolding io_ref_inc
  lookup-io_ref_inc = elim (Option-cases (lookup m id)) [
    | inl n ↦ rw (io_ref_inc, n) (ground arith)
    | inr (e, s) ↦
        let e' = record e { io_refs = add32 e.io_refs 1 } in
        rw (io_ref_inc, s) (ground (arith, find-insert id j e' m.entries))
  ]

  pub lookup-io_ref_dec :
      lookup (io_ref_dec m id) j
      ≡ changed id j (λ e. record e { io_refs = sub32 e.io_refs 1 }) (lookup m j)
  unfolding io_ref_dec
  lookup-io_ref_dec = elim (Option-cases (lookup m id)) [
    | inl n ↦ rw (io_ref_dec, n) (ground arith)
    | inr (e, s) ↦
        let e' = record e { io_refs = sub32 e.io_refs 1 } in
        rw (io_ref_dec, s) (ground (arith, find-insert id j e' m.entries))
  ]

  pub lookup-mark_dead_slot :
      (n : ℕ) → lookup (mark_dead_slot m id n) j ≡ changed id j (λ e. died e n) (lookup m j)
  unfolding mark_dead_slot
  lookup-mark_dead_slot n = elim (Option-cases (lookup m id)) [
    | inl z ↦ rw (mark_dead_slot, z) (ground arith)
    | inr (e, s) ↦ rw (mark_dead_slot, s) (ground (arith, find-insert id j (died e n) m.entries))
  ]

  -- An extent takes a slot only if it is ACTIVE and has room.
  pub lookup-append_slot :
      (n : ℕ)
      → lookup (append_slot m id n).0 j
        ≡ changed id j
            (λ e. if (state e.raw == active) && fits e n then appended e n else e)
            (lookup m j)
  unfolding append_slot
  lookup-append_slot n = elim (Option-cases (lookup m id)) [
    | inl z ↦ rw (append_slot, z) (ground arith)
    | inr (e, s) ↦ rw (append_slot, s) (ground (arith, find-insert id j (appended e n) m.entries))
  ]
