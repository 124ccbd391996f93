-- ===== src/Btier/ExtentMap/Slots/History.antt =====
-- Calls of append_slot, mark_dead_slot and record_io one after another, and the slots they give.
use native.Mathlib.Decide.{dec_lt, ℕ_discrete}
use native.Mathlib.Nat.{le_refl}
use clab.Prelude.{
  ℕ, ◌+◌, ◌^◌, ◌≤◌, ◌<◌, ◌≡◌, refl, ◌∙◌, inl, inr, false, List, [], ◌∷◌, some, arith, ◌==◌,
  if◌then◌else◌, nat_eq,
}
use clab.Prelude.Assoc.{find-insert, beq_self}
use clab.Btier.Types.{IoOp, active, state}
use clab.Btier.ExtentMap.{ExtentEntry, ExtentMap, uint32_max, lookup}
use clab.Btier.ExtentMap.Slots.{appended, died, count_io, append_slot, mark_dead_slot, record_io}
use clab.Btier.ExtentMap.Slots.Packing.{
  IsSound, room, appended-IsSound, died-IsSound, append_slot_refused, append_slot-room,
  mark_dead_slot_lem,
}

pub data SlotCall : Type 0 where
  appends deaths : ℕ → SlotCall
  uses : IoOp → ℕ → SlotCall

abbrev pub Slots : Type 0
Slots = List (ℕ × ℕ)

module _ {A : Type 0} where
  abbrev with_slot : ℕ → ℕ → ExtentMap A × Slots → ExtentMap A × Slots
  with_slot o n (m, slots) = (m, (if o == uint32_max then slots else (o, n) ∷ slots))

  -- The calls on the extent `id`, and the slots (offset and size) that they gave.
  pub run_slots : ExtentMap A → ℕ → List SlotCall → ExtentMap A × Slots
  run_slots m id [] = (m, [])
  run_slots m id (appends n ∷ cs) =
      with_slot (append_slot m id n).1 n (run_slots (append_slot m id n).0 id cs)
  run_slots m id (deaths n ∷ cs) = run_slots (mark_dead_slot m id n) id cs
  run_slots m id (uses op now ∷ cs) = run_slots (record_io m id op now) id cs

-- Each slot starts at or behind the end of the one before it, from `lo` up to `hi`.
abbrev pub IsPacked : ℕ → ℕ → Slots → Type 0
IsPacked lo hi [] = lo ≤ hi
IsPacked lo hi ((o, n) ∷ slots) = (lo ≤ o) × IsPacked (o + n) hi slots

-- No size makes a sum wrap.
abbrev pub AllSmall : ℕ → List SlotCall → Type 0
AllSmall len [] = Unit {0}
AllSmall len (appends n ∷ cs) = (len + n < 2 ^ 32) × AllSmall len cs
AllSmall len (deaths n ∷ cs) = AllSmall len cs
AllSmall len (uses op now ∷ cs) = AllSmall len cs

abbrev used_entry : ExtentEntry → IoOp → ℕ → ExtentEntry
used_entry e op now = record e { raw = count_io e.raw op; last_access_time = now }

module _ {A : Type 0} where
  record_io_lem :
      (m : ExtentMap A) (id now : ℕ) (op : IoOp) (e : ExtentEntry)
      → lookup m id ≡ some e
      → lookup (record_io m id op now) id ≡ some (used_entry e op now)
  unfolding record_io
  record_io_lem m id now op e found =
      rw (record_io, found) (find-insert id id (used_entry e op now) m.entries ∙ rw (beq_self id))

  -- What a history leaves: the extent, sound and of the same size, and packed slots.
  pub record Packs (id : ℕ) (e : ExtentEntry) (r : ExtentMap A × Slots) : Type 0 where
    pub last : ExtentEntry
    pub there : lookup r.0 id ≡ some last
    pub sound : IsSound last
    pub same_place : last.location ≡ e.location
    pub packed : IsPacked e.used_bytes last.used_bytes r.1

  after_refused :
      (m : ExtentMap A) (id n : ℕ) (e : ExtentEntry) (cs : List SlotCall)
      → append_slot m id n ≡ (m, uint32_max)
      → Packs id e (run_slots m id cs)
      → Packs id e (run_slots m id (appends n ∷ cs))
  unfolding run_slots
  after_refused m id n e cs no_slot p = rw no_slot p

  after_slot :
      (m : ExtentMap A) (id n : ℕ) (e : ExtentEntry) (cs : List SlotCall)
      → (append_slot m id n).1 ≡ e.used_bytes
      → IsSound e
      → (appended e n).used_bytes ≡ e.used_bytes + n
      → Packs id (appended e n) (run_slots (append_slot m id n).0 id cs)
      → Packs id e (run_slots m id (appends n ∷ cs))
  unfolding run_slots
  after_slot m id n e cs at v grown p = record {
    last = p.last;
    there = p.there;
    sound = p.sound;
    same_place = p.same_place;
    packed =
        let given : (e.used_bytes == uint32_max) ≡ false = ground arith in
        rw (at, given) (le_refl _, rw grown at p.packed);
  }

  -- For an extent that is there and sound (its header and used bytes fit it, live at most used),
  -- and sizes that do not wrap 32 bits: under any appends, deaths and uses the slots it gives do
  -- not overlap, in the order in which they were given, and end within its used bytes; the extent
  -- stays sound and at its place.
  pub run_slots-Packs :
      (m : ExtentMap A) (id : ℕ) (e : ExtentEntry) (cs : List SlotCall)
      → lookup m id ≡ some e
      → IsSound e
      → AllSmall e.location.length cs
      → Packs id e (run_slots m id cs)
  unfolding run_slots
  run_slots-Packs m id e [] found v small = record {
    last = e;
    there = found;
    sound = v;
    same_place = refl;
    packed = omega arith;
  }
  run_slots-Packs m id e (deaths n ∷ cs) found v small =
      let p =
        run_slots-Packs (mark_dead_slot m id n) id (died e n) cs (mark_dead_slot_lem m id n e found)
          (died-IsSound e n v) small in
      record {
        last = p.last;
        there = p.there;
        sound = p.sound;
        same_place = p.same_place;
        packed = p.packed;
      }
  run_slots-Packs m id e (uses op now ∷ cs) found v small =
      let p =
        run_slots-Packs (record_io m id op now) id (used_entry e op now) cs
          (record_io_lem m id now op e found) (ground arith) small in
      record {
        last = p.last;
        there = p.there;
        sound = p.sound;
        same_place = p.same_place;
        packed = p.packed;
      }
  run_slots-Packs m id e (appends n ∷ cs) found v small = elim (ℕ_discrete (state e.raw) active) [
    | no busy ↦
        after_refused m id n e cs (append_slot_refused m id n e found v (omega arith) (inl busy))
          (run_slots-Packs m id e cs found v small.1)
    | yes on ↦ elim (dec_lt (room e) (e.used_bytes + n)) [
      | yes full ↦
          after_refused m id n e cs (append_slot_refused m id n e found v (omega arith) (inr full))
            (run_slots-Packs m id e cs found v small.1)
      | no not_full ↦
          let enough : e.used_bytes + n ≤ room e = omega arith in
          let g = append_slot-room m id n e found v on enough in
          after_slot m id n e cs g.0 v g.2 (
            run_slots-Packs (append_slot m id n).0 id (appended e n) cs g.1
              (appended-IsSound e n v enough) small.1)
    ]
  ]
