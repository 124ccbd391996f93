-- ===== src/Blk/Avl/Pieces.antt =====
-- AvlAllocator::allocate of blk/avl_allocator.cc: the pieces that it hands out.
use native.Mathlib.Nat.{mod-lt, one-le-pow, mod-eq_of_lt}
use clab.Prelude.{
  ℕ, zero, suc, ◌+◌, ◌-◌, ◌%◌, ◌^◌, min, ◌≤◌, ◌<◌, ◌≡◌, refl, sym, subst, ◌∙◌, ◌⊎◌, inl, inr, ◌&&◌,
  Option, none, some, List, [], ◌∷◌, arith, ltb, leb, if◌then◌else◌, Bool-cases, Option-cases,
}
use clab.Common.Intarith.{u64, p2align}
use clab.Common.Intarith.Powers.{p2align-power}
use clab.Blk.Allocator.{PExtent}
use clab.Blk.Avl.Adding.{is_free}
use clab.Blk.Avl.Removing.{remove_from_tree-IsTree}
use clab.Blk.Avl.Allocating.{
  AvlAllocator, choose, allocate_single, allocate_loop, taken_out, push_extent, allocate, capped,
  extent_cap,
}
use clab.Blk.Avl.Allocation.{IsAvl, Chosen, choose-Chosen}

-- How many pieces cover the byte `x`.
abbrev pub covers : ℕ → List PExtent → ℕ
covers x [] = 0
covers x (p ∷ ps) = (if leb p.offset x && ltb x (p.offset + p.length) then 1 else 0) + covers x ps

abbrev pub lengths : List PExtent → ℕ
lengths [] = 0
lengths (p ∷ ps) = p.length + lengths ps

abbrev pub free_bit : ℕ → AvlAllocator → ℕ
free_bit x a = if is_free x a.trees.range_tree then 1 else 0

-- One piece: what it takes out of the free bytes.
abbrev pub Takes : AvlAllocator → ℕ → AvlAllocator × Option (ℕ × ℕ) → Type 0
Takes a size (b, none) = b ≡ a
Takes a size (b, some (o, l)) =
    (0 < l)
    × (l ≤ size)
    × IsAvl b
    × (b.device_size ≡ a.device_size)
    × (b.trees.num_free + l ≡ a.trees.num_free)
    × ((x : ℕ) → (if leb o x && ltb x (o + l) then 1 else 0) + free_bit x b ≡ free_bit x a)

taken_out-Takes :
    (a : AvlAllocator) (size : ℕ) (c : Option (ℕ × ℕ × (ℕ → ℕ)))
    → IsAvl a
    → Chosen a size c
    → Takes a size (taken_out a c)
taken_out-Takes a size none avl f = refl
taken_out-Takes a size (some (o, l, lbas)) avl f =
    elim (remove_from_tree-IsTree a.device_size a.trees o l avl.sound f.0) [
      | inl missed ↦
          let byte = missed.1 in absurd (ground (arith, byte.3, f.3 byte.0 byte.1 byte.2))
      | inr made ↦
          let out = made.1 in
          (
            f.0,
            f.1,
            record { sound = out.0; below = out.1 avl.below },
            refl,
            out.3,
            λ x. ground (arith, out.2 x, f.3 x),
          )
    ]

module _ (k w : ℕ) (sum : k + w ≡ 64) where
  pub allocate_single-Takes :
      (a : AvlAllocator) (size : ℕ)
      → IsAvl a
      → 0 < size
      → a.device_size + 2 ^ k + size < u64
      → Takes a size (allocate_single a size (2 ^ k))
  unfolding allocate_single
  allocate_single-Takes a size avl pos fits =
      taken_out-Takes a size (choose a size (2 ^ k)) avl (choose-Chosen a k w sum avl size pos fits)

-- What a run of the loop from `allocated` bytes on leaves and hands out.
pub record Served (a : AvlAllocator) (want unit max_alloc_size allocated : ℕ)
    (r : AvlAllocator × ℕ × List PExtent) : Type 0 where
  pub sound : IsAvl r.0
  pub same_device : r.0.device_size ≡ a.device_size
  pub within : (allocated ≤ r.1) × (r.1 ≤ want)
  pub summed : allocated + lengths r.2 ≡ r.1
  pub counted : r.0.trees.num_free + lengths r.2 ≡ a.trees.num_free
  pub bytes : (x : ℕ) → covers x r.2 + free_bit x r.0 ≡ free_bit x a
  pub ended : (r.1 ≡ want) ⊎ ((allocate_single r.0 (min max_alloc_size (want - r.1)) unit).1 ≡ none)

Served-stop :
    (a : AvlAllocator) (want unit max_alloc_size allocated : ℕ)
    → IsAvl a
    → allocated ≤ want
    → (allocated ≡ want)
      ⊎ ((allocate_single a (min max_alloc_size (want - allocated)) unit).1 ≡ none)
    → Served a want unit max_alloc_size allocated (a, allocated, [])
Served-stop a want unit max_alloc_size allocated avl le ended = record {
  sound = avl;
  same_device = refl;
  within = (omega arith, le);
  summed = omega arith;
  counted = omega arith;
  bytes = λ x. omega arith;
  ended = ended;
}

Served-none :
    (a b : AvlAllocator) (want unit max_alloc_size allocated : ℕ)
    → IsAvl a
    → allocated ≤ want
    → b ≡ a
    → (allocate_single a (min max_alloc_size (want - allocated)) unit).1 ≡ none
    → Served a want unit max_alloc_size allocated (b, allocated, [])
Served-none a b want unit max_alloc_size allocated avl le same failed =
    subst (λ c. Served a want unit max_alloc_size allocated (c, allocated, [])) (sym same)
      (Served-stop a want unit max_alloc_size allocated avl le (inr failed))

Served-piece :
    (a b : AvlAllocator) (o l want unit max_alloc_size allocated size : ℕ)
    (rest : AvlAllocator × ℕ × List PExtent)
    → Takes a size (b, some (o, l))
    → size < 2 ^ 32
    → Served b want unit max_alloc_size (allocated + l) rest
    → Served a want unit max_alloc_size allocated (push_extent o l rest)
Served-piece a b o l want unit max_alloc_size allocated size rest takes small served =
    let whole : l % 2 ^ 32 ≡ l = mod-eq_of_lt (omega (arith, takes.1)) in
    record {
      sound = served.sound;
      same_device = served.same_device ∙ takes.3;
      within = (omega (arith, served.within.0), served.within.1);
      summed = omega (arith, served.summed, whole);
      counted = omega (arith, served.counted, takes.4, whole);
      bytes = λ x. ground (arith, served.bytes x, takes.5 x, whole);
      ended = served.ended;
    }

module _ (k w : ℕ) (sum : k + w ≡ 64) (want max_alloc_size : ℕ) (some_size : 0 < max_alloc_size)
    (small : max_alloc_size < 2 ^ 32) where
  allocate_loop-Served :
      (fuel : ℕ) (a : AvlAllocator) (allocated : ℕ)
      → IsAvl a
      → allocated ≤ want
      → want ≤ fuel + allocated
      → a.device_size + 2 ^ k + want < u64
      → Served a want
          (2 ^ k)
          max_alloc_size
          allocated
          (allocate_loop fuel a want (2 ^ k) max_alloc_size allocated)
  unfolding allocate_loop
  allocate_loop-Served zero a allocated avl le enough fits =
      Served-stop a want (2 ^ k) max_alloc_size allocated avl le (inl (omega arith))
  allocate_loop-Served (suc fuel) a allocated avl le enough fits =
      let size = min max_alloc_size (want - allocated) in
      elim (Bool-cases (ltb allocated want)) [
        | inr done ↦
            rw (allocate_loop, done)
              (Served-stop a want (2 ^ k) max_alloc_size allocated avl le
                (inl (ground (arith, done))))
        | inl more ↦
            let takes =
              allocate_single-Takes k w sum a size avl (ground (arith, more)) (omega arith) in
            let next = allocate_single a size (2 ^ k) in
            elim (Option-cases next.1) [
              | inl missed ↦
                  rw (allocate_loop, more, missed)
                    (Served-none a next.0 want (2 ^ k) max_alloc_size allocated avl le
                      (subst (λ o. Takes a size (next.0, o)) missed takes) missed)
              | inr (piece, hit) ↦
                  let took = subst (λ o. Takes a size (next.0, o)) hit takes in
                  let rest =
                    allocate_loop fuel next.0 want (2 ^ k) max_alloc_size (allocated + piece.1) in
                  let served =
                    allocate_loop-Served fuel next.0 (allocated + piece.1) took.2
                      (omega (arith, took.1)) (omega (arith, took.0)) (omega (arith, took.3)) in
                  rw (allocate_loop, more, hit)
                    (Served-piece a next.0 piece.0 piece.1 want (2 ^ k) max_alloc_size allocated
                      size rest took (omega arith) served)
            ]
      ]

capped_lem :
    (j v want max_alloc_size : ℕ)
    → j + v ≡ 64
    → 2 ^ j ≤ extent_cap
    → 0 < want
    → (0 < capped (2 ^ j) want max_alloc_size) × (capped (2 ^ j) want max_alloc_size < 2 ^ 32)
capped_lem j v want max_alloc_size sum small pos =
    let down : p2align extent_cap (2 ^ j) ≡ extent_cap - extent_cap % 2 ^ j =
      p2align-power j v extent_cap sum (omega arith) in
    let low = mod-lt extent_cap (one-le-pow j 2 (omega arith)) in
    (ground (arith, down, low), ground (arith, down))

-- In a sound AVL allocator without a memory limit, with a unit and a block size that are powers of
-- two (the block size below 2^32), a size above 0, and the sum of device size, unit and size below
-- 2^64: allocate leaves a sound allocator of the same device; a byte is covered by as many pieces,
-- and free after, as it was free before, so that the pieces are apart, were free, and are all that
-- stops being free; the lengths of the pieces are the amount that is returned, at most what is
-- wanted, and the count of free bytes falls by them; and less than what is wanted is returned only
-- when the search for a further piece fails in the allocator that is left.
pub allocate-Served :
    (k w j v : ℕ) (a : AvlAllocator) (want max_alloc_size : ℕ)
    → k + w ≡ 64
    → j + v ≡ 64
    → 2 ^ j ≤ extent_cap
    → a.block_size ≡ 2 ^ j
    → IsAvl a
    → 0 < want
    → a.device_size + 2 ^ k + want < u64
    → Served a want
        (2 ^ k)
        (capped a.block_size want max_alloc_size)
        0
        (allocate a want (2 ^ k) max_alloc_size)
unfolding allocate
allocate-Served k w j v a want max_alloc_size unit_sum block_sum small block avl pos fits =
    let cap = capped_lem j v want max_alloc_size block_sum small pos in
    let in_block = λ (P : ℕ → Type 0) (p : P (2 ^ j)). subst P (sym block) p in
    allocate_loop-Served k w unit_sum want (capped a.block_size want max_alloc_size)
      (in_block (λ b. 0 < capped b want max_alloc_size) cap.0)
      (in_block (λ b. capped b want max_alloc_size < 2 ^ 32) cap.1) want a 0 avl (omega arith)
      (omega arith) fits
