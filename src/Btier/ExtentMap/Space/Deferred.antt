-- ===== src/Btier/ExtentMap/Space/Deferred.antt =====
-- ExtentMap::process_deferred_free of btier/extent_map.cc: the queue and the allocators.
use clab.Prelude.{
  ℕ, zero, suc, ◌+◌, ◌-◌, ◌%◌, ◌^◌, ◌≤◌, ◌≡◌, refl, ◌∙◌, inl, inr, Bool, true, false, List, [], ◌∷◌,
  Option, none, some, ltb, if◌then◌else◌, Bool-cases, Option-cases,
}
use clab.Blk.Allocator.{Allocator}
use clab.Btier.Types.{Tier}
use clab.Btier.ExtentMap.{ExtentMap, DeferredFree, of_tier}
use clab.Btier.ExtentMap.Space.{process_one, is_due, process_list, process_deferred_free}

-- Less than two rounds have passed since the entry was queued, counted modulo 2^64.
abbrev pub is_young : ℕ → DeferredFree → Bool
is_young current d = ltb ((current + 2 ^ 64 - d.added_at_seqno) % 2 ^ 64) 2

-- The entries that a round at `current` leaves in the queue.
abbrev pub waiting : ℕ → List DeferredFree → List DeferredFree
waiting current [] = []
waiting current (d ∷ ds) = if is_young current d then d ∷ waiting current ds else waiting current ds

abbrev pub same_tier : Tier → Tier → Bool
same_tier Tier.fast Tier.fast = true
same_tier Tier.slow Tier.slow = true
same_tier _ _ = false

abbrev pub on_some : {A : Type 0} → (A → A) → Option A → Option A
on_some f none = none
on_some f (some a) = some (f a)

module _ {A : Type 0} (alloc : Allocator A) where
  -- The space of one entry, given to the allocator of a tier if it is of that tier.
  abbrev pub give : Tier → DeferredFree → A → A
  give t d a =
      if same_tier d.loc.tier t then alloc.release a ((d.loc.offset, d.loc.length) ∷ []) else a

  -- What the allocator of a tier is given in a round, in the order of the queue.
  abbrev pub given_back : Tier → ℕ → List DeferredFree → A → A
  given_back t current [] a = a
  given_back t current (d ∷ ds) a =
      given_back t current ds (if is_young current d then a else give t d a)

  process_list-seqno :
      (m : ExtentMap A) (current : ℕ) (ds : List DeferredFree)
      → (process_list alloc m current ds).0.seqno ≡ m.seqno
  unfolding process_list process_one
  process_list-seqno m current [] = refl
  process_list-seqno m current (d ∷ ds) = elim (Bool-cases (is_due current d)) [
    | inl due ↦ elim (Option-cases (of_tier m.allocators d.loc.tier none)) [
      | inl missing ↦ rw (process_list, due, process_one, missing) (process_list-seqno m current ds)
      | inr (a, there) ↦
          rw (process_list, due)
            (process_list-seqno (process_one alloc m d) current ds ∙ rw (process_one, there) refl)
    ]
    | inr early ↦ rw (process_list, early) (process_list-seqno m current ds)
  ]

  abbrev pub rounds : ℕ → ExtentMap A → ExtentMap A
  rounds zero m = m
  rounds (suc n) m = process_deferred_free alloc (rounds n m)

-- The entries that are kept by a round with the number `last`.
abbrev pub recent : ℕ → List DeferredFree → List DeferredFree
recent last [] = []
recent last (d ∷ ds) =
    if ltb last (d.added_at_seqno + 2) then d ∷ recent last ds else recent last ds

-- Every entry was queued before the round that comes.
abbrev pub AllQueued : ℕ → List DeferredFree → Type 0
AllQueued seqno [] = Unit {0}
AllQueued seqno (d ∷ ds) = (d.added_at_seqno ≤ seqno) × AllQueued seqno ds
