-- ===== src/Btier/ExtentMap/Slots/Packing.antt =====
-- ExtentMap::append_slot and mark_dead_slot of btier/extent_map.cc on one extent.
use clab.Prelude.{
  ℕ, ◌+◌, ◌-◌, ◌^◌, ◌≤◌, ◌<◌, ◌≡◌, ◌≢◌, ◌∙◌, inl, inr, ◌⊎◌, true, false, some, arith, ◌==◌, ==_iff,
  nat_eq, Bool-cases,
}
use clab.Prelude.Assoc.{find-insert, beq_self}
use clab.Btier.Types.{header_size, active, state}
use clab.Btier.ExtentMap.{ExtentEntry, ExtentMap, uint32_max, lookup}
use clab.Btier.ExtentMap.Slots.{appended, died, fits, append_slot, mark_dead_slot}

-- The header and the values fit the extent, and no more bytes are live than used.
pub record IsSound (e : ExtentEntry) : Type 0 where
  pub header : header_size ≤ e.location.length
  pub word : e.location.length < 2 ^ 32
  pub used : e.used_bytes + header_size ≤ e.location.length
  pub live : e.live_bytes ≤ e.used_bytes

-- The bytes of an extent behind its header.
abbrev pub room : ExtentEntry → ℕ
room e = e.location.length - header_size

pub appended-IsSound :
    (e : ExtentEntry) (n : ℕ) → IsSound e → e.used_bytes + n ≤ room e → IsSound (appended e n)
appended-IsSound e n v h = ground arith

pub died-IsSound : (e : ExtentEntry) (n : ℕ) → IsSound e → IsSound (died e n)
died-IsSound e n v = ground arith

module _ {A : Type 0} (m : ExtentMap A) (id n : ℕ) (e : ExtentEntry) where
  -- For an extent that is there and sound, and a size that does not wrap 32 bits: if the extent is
  -- not ACTIVE or has less room than the size, append_slot returns UINT32_MAX and changes nothing.
  pub append_slot_refused :
      lookup m id ≡ some e
      → IsSound e
      → e.used_bytes + n < 2 ^ 32
      → (state e.raw ≢ active) ⊎ (room e < e.used_bytes + n)
      → append_slot m id n ≡ (m, uint32_max)
  unfolding append_slot
  append_slot_refused found v small (inl busy) = elim (Bool-cases (state e.raw == active)) [
    | inl on ↦ absurd (busy ((==_iff _ _).0 on))
    | inr off ↦ rw (append_slot, found, off)
  ]
  append_slot_refused found v small (inr full) =
      let no_room : fits e n ≡ false = ground arith in
      elim (Bool-cases (state e.raw == active)) [
        | inl on ↦ rw (append_slot, found, on, no_room)
        | inr off ↦ rw (append_slot, found, off)
      ]

  -- For an extent that is there, sound, ACTIVE and has room for the size: append_slot returns the
  -- used bytes from before as the slot, and leaves the extent with the size added to its used
  -- bytes.
  pub append_slot-room :
      lookup m id ≡ some e
      → IsSound e
      → state e.raw ≡ active
      → e.used_bytes + n ≤ room e
      → ((append_slot m id n).1 ≡ e.used_bytes)
        × (lookup (append_slot m id n).0 id ≡ some (appended e n))
        × ((appended e n).used_bytes ≡ e.used_bytes + n)
  unfolding append_slot
  append_slot-room found v on enough =
      let has_room : fits e n ≡ true = ground arith in
      let is_on : (state e.raw == active) ≡ true = (==_iff _ _).1 on in
      (
        rw (append_slot, found, is_on, has_room),
        rw (append_slot, found, is_on, has_room)
            (find-insert id id (appended e n) m.entries ∙ rw (beq_self id)),
        ground arith,
      )

  pub mark_dead_slot_lem :
      lookup m id ≡ some e → lookup (mark_dead_slot m id n) id ≡ some (died e n)
  unfolding mark_dead_slot
  mark_dead_slot_lem found =
      rw (mark_dead_slot, found) (find-insert id id (died e n) m.entries ∙ rw (beq_self id))
