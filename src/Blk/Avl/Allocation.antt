-- ===== src/Blk/Avl/Allocation.antt =====
-- _allocate_single, _allocate and allocate of blk/avl_allocator.cc in terms of the free bytes.
use native.Mathlib.Nat.{mod-lt, one-le-pow}
use clab.Prelude.{
  ℕ, zero, suc, ◌+◌, ◌-◌, ◌/◌, ◌%◌, ◌^◌, ◌≤◌, ◌<◌, ◌≡◌, refl, subst, inl, inr, ◌||◌, Option, none,
  some, List, arith, ltb, leb, Bool-cases, Option-cases,
}
use clab.Common.Intarith.{u64, p2align}
use clab.Common.Intarith.Powers.{p2align-power}
use clab.Blk.Avl.{RangeSeg}
use clab.Blk.Avl.Adding.{IsTree}
use clab.Blk.Avl.Removing.{IsBelow}
use clab.Blk.Avl.Pick.{
  pick_block_after, pick_block_fits, range_size_alloc_threshold, range_size_alloc_free_pct,
}
use clab.Blk.Avl.Searching.{
  Finds, IsInside, FoundIn-IsInside, pick_block_after-Finds, pick_block_fits-Finds, FoundIn,
}
use clab.Blk.Avl.Allocating.{
  AvlAllocator, halve_until_fits, choose, by_size, by_cursor, with_cursors, cursor_index, max_size,
  free_pct,
}

-- Sound trees within the device.
pub record IsAvl (a : AvlAllocator) : Type 0 where
  pub sound : IsTree a.trees
  pub below : IsBelow a.device_size a.trees.range_tree

-- The offset and length that a search by size gives.
abbrev Fitted : ℕ → ℕ → List RangeSeg → Option (ℕ × ℕ) → Type 0
Fitted size unit nodes none = Unit {0}
Fitted size unit nodes (some (o, l)) = (0 < l) × (l ≤ size) × FoundIn l unit nodes o

Fitted-less :
    (small size unit : ℕ) (nodes : List RangeSeg) (f : Option (ℕ × ℕ))
    → small ≤ size
    → Fitted small unit nodes f
    → Fitted size unit nodes f
Fitted-less small size unit nodes none le f = tt
Fitted-less small size unit nodes (some (o, l)) le f = (f.0, omega (arith, f.1), f.2)

halve-Fitted :
    (k w fuel : ℕ) (nodes : List RangeSeg) (size : ℕ)
    → k + w ≡ 64
    → 0 < size
    → size < u64
    → Fitted size (2 ^ k) nodes (halve_until_fits fuel nodes size (2 ^ k))
unfolding halve_until_fits
halve-Fitted k w zero nodes size sum pos fits = tt
halve-Fitted k w (suc fuel) nodes size sum pos fits =
    let next = p2align (size / 2) (2 ^ k) in
    let half : next ≡ size / 2 - (size / 2) % 2 ^ k =
      p2align-power k w (size / 2) sum (omega arith) in
    elim (Option-cases (pick_block_fits nodes size (2 ^ k))) [
      | inl missed ↦ elim (Bool-cases (leb (2 ^ k) next)) [
        | inl more ↦
            rw (halve_until_fits, missed, more)
              (Fitted-less next size (2 ^ k) nodes (halve_until_fits fuel nodes next (2 ^ k))
                (omega (arith, half))
                (halve-Fitted k w fuel nodes next sum
                  (ground (arith, one-le-pow k 2 (omega arith), more)) (omega (arith, half))))
        | inr stop ↦ rw (halve_until_fits, missed, stop) tt
      ]
      | inr (o, hit) ↦
          rw (halve_until_fits, hit)
            (
              pos,
              omega arith,
              subst (Finds size (2 ^ k) nodes) hit (pick_block_fits-Finds nodes size (2 ^ k)),
            )
    ]

-- What the choice of a piece gives: a piece of the free bytes, not empty and not above what is asked.
abbrev pub Chosen : AvlAllocator → ℕ → Option (ℕ × ℕ × (ℕ → ℕ)) → Type 0
Chosen a size none = Unit {0}
Chosen a size (some (o, l, lbas)) =
    (0 < l) × (l ≤ size) × (o + l ≤ a.device_size) × IsInside o (o + l) a.trees.range_tree

module _ (a : AvlAllocator) (k w : ℕ) (sum : k + w ≡ 64) (avl : IsAvl a) where
  Fitted-Chosen :
      (size : ℕ) (f : Option (ℕ × ℕ)) (lbas : ℕ → ℕ)
      → a.device_size + 2 ^ k + size < u64
      → Fitted size (2 ^ k) a.trees.size_tree f
      → Chosen a size (with_cursors lbas f)
  Fitted-Chosen size none lbas fits f = tt
  Fitted-Chosen size (some (o, l)) lbas fits f =
      let inside =
        FoundIn-IsInside k w a.device_size l o a.trees.size_tree a.trees.range_tree sum
          (omega (arith, f.1)) avl.sound.apart avl.below avl.sound.same_nodes f.2 in
      (f.0, f.1, inside.0, inside.1)

  by_size-Chosen :
      (size : ℕ)
      → 0 < size
      → a.device_size + 2 ^ k + size < u64
      → Chosen a size (by_size a size (2 ^ k))
  by_size-Chosen size pos fits =
      Fitted-Chosen size (halve_until_fits 64 a.trees.size_tree size (2 ^ k)) a.lbas fits
        (halve-Fitted k w 64 a.trees.size_tree size sum pos (omega arith))

  by_cursor-Chosen :
      (size : ℕ) (f : Option ℕ)
      → 0 < size
      → a.device_size + 2 ^ k + size < u64
      → Finds size (2 ^ k) a.trees.range_tree f
      → Chosen a size (by_cursor a size (2 ^ k) f)
  by_cursor-Chosen size none pos fits f = by_size-Chosen size pos fits
  by_cursor-Chosen size (some o) pos fits f =
      let inside =
        FoundIn-IsInside k w a.device_size size o a.trees.range_tree a.trees.range_tree sum fits
          avl.sound.apart avl.below (λ q. refl) f in
      (pos, omega arith, inside.0, inside.1)

  Chosen-less :
      (small size : ℕ) (c : Option (ℕ × ℕ × (ℕ → ℕ)))
      → small ≤ size
      → Chosen a small c
      → Chosen a size c
  Chosen-less small size none le f = tt
  Chosen-less small size (some (o, l, lbas)) le f = (f.0, omega (arith, f.1), f.2, f.3)

  pub choose-Chosen :
      (size : ℕ)
      → 0 < size
      → a.device_size + 2 ^ k + size < u64
      → Chosen a size (choose a size (2 ^ k))
  unfolding choose
  choose-Chosen size pos fits =
      let largest = max_size a.trees.size_tree in
      let index = a.lbas (cursor_index size) in
      let picked = pick_block_after a.unspecified a.trees.range_tree index size (2 ^ k) in
      elim (Bool-cases (ltb largest size)) [
        | inl short ↦ elim (Bool-cases (ltb largest (2 ^ k))) [
          | inl full ↦ rw (choose, short, full) tt
          | inr some_left ↦
              let le : largest < size = ground (arith, short) in
              let down : p2align largest (2 ^ k) ≡ largest - largest % 2 ^ k =
                p2align-power k w largest sum (omega arith) in
              let low = mod-lt largest (one-le-pow k 2 (omega arith)) in
              rw (choose, short, some_left)
                (Chosen-less (p2align largest (2 ^ k)) size
                  (by_size a (p2align largest (2 ^ k)) (2 ^ k)) (omega (arith, down))
                  (by_size-Chosen (p2align largest (2 ^ k)) (ground (arith, down, low, some_left))
                    (omega (arith, down))))
        ]
        | inr enough ↦
            elim (Bool-cases (
              ltb largest range_size_alloc_threshold
              || ltb (free_pct a) range_size_alloc_free_pct)) [
                | inl tight ↦ rw (choose, enough, tight) (by_size-Chosen size pos fits)
                | inr roomy ↦
                    rw (choose, enough, roomy)
                      (by_cursor-Chosen size picked pos fits (
                        pick_block_after-Finds a.unspecified a.trees.range_tree index size (2 ^ k)))
              ]
      ]
