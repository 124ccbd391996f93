-- ===== src/Btier/Engine/Release.antt =====
-- What the release of a value's space (put and del of btier/btier.cc) does to the extent map.
use clab.Prelude.{
  ℕ, ◌+◌, ◌≤◌, ◌<◌, ◌≡◌, refl, ap, ap₂, ◌∙◌, ◌⊎◌, inl, inr, false, List, [], ◌∷◌, ◌++◌, Option,
  none, some, arith, ◌==◌, if◌then◌else◌, nat_eq, Bool-cases, Option-cases,
}
use clab.Prelude.Assoc.{beq_self}
use clab.Btier.Types.{KeyLocation}
use clab.Btier.ExtentMap.{ExtentEntry, ExtentMap, DeferredFree, lookup}
use clab.Btier.ExtentMap.Slots.{died, mark_dead_slot, get_live_bytes}
use clab.Btier.ExtentMap.Slots.Effects.{changed, lookup-mark_dead_slot}
use clab.Btier.ExtentMap.Space.{free_extent}
use clab.Btier.ExtentMap.Migration.Calls.{lookup-free_extent}
use clab.Btier.Engine.{release_old}

changed_other :
    (id j : ℕ) (f : ExtentEntry → ExtentEntry) (o : Option ExtentEntry)
    → (id == j) ≡ false
    → changed id j f o ≡ o
changed_other id j f none miss = refl
changed_other id j f (some e) miss = rw miss refl

module _ {A : Type 0} where
  -- The extent `id`, with the entry `o`, after `n` bytes of it have died: it is freed when no byte
  -- is live, and its place queued to be given back; otherwise its live bytes fall by `n`.
  abbrev pub Loses : ExtentMap A → ExtentMap A → ℕ → ℕ → Option ExtentEntry → Type 0
  Loses m m' id n none = (lookup m' id ≡ none) × (m'.deferred_free ≡ m.deferred_free)
  Loses m m' id n (some e) =
      ((e.live_bytes ≤ n)
        × (lookup m' id ≡ none)
        × (m'.deferred_free
            ≡ m.deferred_free ++ (record { loc = e.location; added_at_seqno = m.seqno } ∷ [])))
      ⊎ ((n < e.live_bytes)
          × ((e' : ExtentEntry) × (lookup m' id ≡ some e')
              × (e'.live_bytes + n ≡ e.live_bytes)
              × (e'.used_bytes ≡ e.used_bytes)
              × (e'.location ≡ e.location))
          × (m'.deferred_free ≡ m.deferred_free))

  -- The space of the value is released, and the other extents are as they were.
  abbrev pub Releases : ExtentMap A → KeyLocation → ExtentMap A → Type 0
  Releases m kloc m' =
      Loses m m' kloc.extent_id kloc.length (lookup m kloc.extent_id)
      × ((j : ℕ) → (kloc.extent_id == j) ≡ false → lookup m' j ≡ lookup m j)

  deferred-free_extent :
      (m : ExtentMap A) (id : ℕ) (e : ExtentEntry)
      → lookup m id ≡ some e
      → (free_extent m id).deferred_free
        ≡ m.deferred_free ++ (record { loc = e.location; added_at_seqno = m.seqno } ∷ [])
  unfolding free_extent
  deferred-free_extent m id e there = rw (free_extent, there) refl

  queue-mark_dead_slot :
      (m : ExtentMap A) (id n : ℕ) (e : ExtentEntry)
      → lookup m id ≡ some e
      → ((mark_dead_slot m id n).deferred_free ≡ m.deferred_free)
        × ((mark_dead_slot m id n).seqno ≡ m.seqno)
  unfolding mark_dead_slot
  queue-mark_dead_slot m id n e there = rw (mark_dead_slot, there) (refl, refl)

  mark_missing : (m : ExtentMap A) (id n : ℕ) → lookup m id ≡ none → mark_dead_slot m id n ≡ m
  unfolding mark_dead_slot
  mark_missing m id n missing = rw (mark_dead_slot, missing) refl

  free_missing : (m : ExtentMap A) (id : ℕ) → lookup m id ≡ none → free_extent m id ≡ m
  unfolding free_extent
  free_missing m id missing = rw (free_extent, missing) refl

  release_missing :
      (m : ExtentMap A) (kloc : KeyLocation)
      → lookup m kloc.extent_id ≡ none
      → release_old m kloc ≡ m
  unfolding release_old
  release_missing m kloc missing =
      let id = kloc.extent_id in
      let marked = mark_missing m id kloc.length missing in
      elim (Bool-cases (get_live_bytes m id == 0)) [
        | inl zero_left ↦ rw (release_old, marked, zero_left) (free_missing m id missing)
        | inr some_left ↦ rw (release_old, marked, some_left) refl
      ]

  release_old-gone :
      (m : ExtentMap A) (kloc : KeyLocation) (e : ExtentEntry)
      → lookup (mark_dead_slot m kloc.extent_id kloc.length) kloc.extent_id ≡ some e
      → release_old m kloc ≡ (
          let dead = mark_dead_slot m kloc.extent_id kloc.length in
          if e.live_bytes == 0 then free_extent dead kloc.extent_id else dead)
  unfolding release_old get_live_bytes
  release_old-gone m kloc e there = rw (release_old, get_live_bytes, there) refl

  release_there :
      (m : ExtentMap A) (kloc : KeyLocation) (e : ExtentEntry)
      → lookup m kloc.extent_id ≡ some e
      → Loses m (release_old m kloc) kloc.extent_id kloc.length (some e)
        × ((j : ℕ) → (kloc.extent_id == j) ≡ false → lookup (release_old m kloc) j ≡ lookup m j)
  release_there m kloc e there =
      let id = kloc.extent_id in
      let n = kloc.length in
      let dead = mark_dead_slot m id n in
      let left = died e n in
      let now : lookup dead id ≡ some left =
        lookup-mark_dead_slot m id id n
        ∙ ap (changed id id (λ x. died x n)) there
        ∙ rw (beq_self id) refl in
      let other : (j : ℕ) → (id == j) ≡ false → lookup dead j ≡ lookup m j = λ j miss.
        lookup-mark_dead_slot m id j n ∙ changed_other id j (λ x. died x n) (lookup m j) miss in
      let queue = queue-mark_dead_slot m id n e there in
      let whole = release_old-gone m kloc left now in
      elim (Bool-cases (left.live_bytes == 0)) [
        | inl last ↦
            rw (whole, last)
              (
                inl (
                  ground (arith, last),
                  lookup-free_extent dead id id ∙ rw (beq_self id) refl,
                  deferred-free_extent dead id left now
                      ∙ ap₂
                          (λ (q : List DeferredFree) (s : ℕ).
                            q ++ (record { loc = e.location; added_at_seqno = s } ∷ []))
                          queue.0 queue.1,
                ),
                λ j miss. lookup-free_extent dead id j ∙ rw miss (other j miss),
              )
        | inr more ↦
            rw (whole, more)
              (
                inr (ground (arith, more), (left, now, ground (arith, more), refl, refl), queue.0),
                other,
              )
      ]

  pub release_old-Releases :
      (m : ExtentMap A) (kloc : KeyLocation) → Releases m kloc (release_old m kloc)
  release_old-Releases m kloc = elim (Option-cases (lookup m kloc.extent_id)) [
    | inl missing ↦ rw (missing, release_missing m kloc missing) ((missing, refl), λ j miss. refl)
    | inr (e, there) ↦ rw there (release_there m kloc e there)
  ]
