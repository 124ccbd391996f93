-- ===== src/Tests/Blk.antt =====
-- blk/ on a device of 32 KiB with three free ranges.
use clab.Prelude.{
  ℕ, ◌+◌, ◌^◌, ◌≤◌, ◌<◌, ◌⊎◌, ◌≡◌, refl, ◌&&◌, ◌||◌, not, false, true, [], ◌∷◌, arith, ltb, leb,
}
use clab.Blk.IntervalSet.{IntervalSet, insert, erase, release_set}
use clab.Blk.IntervalSet.Laws.{IsSpaced, holds, insert-holds, erase-holds}
use clab.Blk.Avl.Adding.{is_free}
use clab.Blk.Avl.Removal.{remove_from_tree}
use clab.Blk.Avl.Removing.{Removes, remove_from_tree-IsTree}
use clab.Blk.Avl.Allocating.{AvlAllocator, allocate, release, capped}
use clab.Blk.Avl.Allocation.{IsAvl}
use clab.Blk.Avl.Pieces.{Served, allocate-Served}
use clab.Blk.Avl.Releasing.{Released, release-Released}
use clab.Blk.Avl.GivingBack.{release-allocate}
use clab.Tests.Avl.{three_ranges, three_ranges-IsTree}

abbrev allocator : AvlAllocator
allocator = record {
  trees = three_ranges;
  lbas = λ i. 0;
  device_size = 32768;
  block_size = 2 ^ 12;
  unspecified = 0;
}

allocator-IsAvl : IsAvl allocator
allocator-IsAvl = record {
  sound = three_ranges-IsTree;
  below = (omega arith, (omega arith, (omega arith, tt)));
}

abbrev two_intervals : IntervalSet
two_intervals = (0, 10) ∷ (20, 10) ∷ []

insert-holds_example :
    IsSpaced 0 (insert two_intervals 5 20)
    × (holds 15 (insert two_intervals 5 20)
        ≡ ((leb 5 15 && ltb 15 (5 + 20)) || holds 15 two_intervals))
insert-holds_example =
    insert-holds 15 two_intervals 5 20 (omega arith, omega arith, (omega arith, omega arith, tt))
      (refl, (refl, tt))

erase-holds_example :
    IsSpaced 0 (erase two_intervals 5 20)
    × (holds 22 (erase two_intervals 5 20)
        ≡ (holds 22 two_intervals && not (leb 5 22 && ltb 22 (5 + 20))))
erase-holds_example =
    erase-holds 22 two_intervals 5 20 (omega arith, omega arith, (omega arith, omega arith, tt))

remove_from_tree-IsTree_example :
    ((remove_from_tree three_ranges 10000 2000 ≡ (three_ranges, false))
      × ((y : ℕ) × (10000 ≤ y) × (y < 10000 + 2000) × (is_free y three_ranges.range_tree ≡ false)))
    ⊎ (((remove_from_tree three_ranges 10000 2000).1 ≡ true)
        × Removes 32768 three_ranges 10000 2000 (remove_from_tree three_ranges 10000 2000).0)
remove_from_tree-IsTree_example =
    remove_from_tree-IsTree 32768 three_ranges 10000 2000 three_ranges-IsTree (omega arith)

allocate-Served_example :
    Served allocator 12288
      (2 ^ 12)
      (capped (2 ^ 12) 12288 0)
      0
      (allocate allocator 12288 (2 ^ 12) 0)
allocate-Served_example =
    allocate-Served 12 52 12 52 allocator 12288 0 refl refl (omega arith) refl allocator-IsAvl
      (omega arith) (omega arith)

release-Released_example :
    Released allocator ((4096, 1024) ∷ []) (release allocator ((4096, 1024) ∷ []))
release-Released_example =
    release-Released 0 allocator ((4096, 1024) ∷ []) allocator-IsAvl (omega arith, omega arith, tt)
      (omega arith, tt) (λ x held. ground (arith, held))

release-allocate_example :
    ((release
        (allocate allocator 12288 (2 ^ 12) 0).0
        (release_set [] (allocate allocator 12288 (2 ^ 12) 0).2)).trees.range_tree
      ≡ three_ranges.range_tree)
    × ((release
          (allocate allocator 12288 (2 ^ 12) 0).0
          (release_set [] (allocate allocator 12288 (2 ^ 12) 0).2)).trees.num_free
        ≡ 16384)
release-allocate_example =
    release-allocate 12 52 12 52 allocator 12288 0 refl refl (omega arith) refl allocator-IsAvl
      (omega arith) (omega arith)
