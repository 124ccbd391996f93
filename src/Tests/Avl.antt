-- ===== src/Tests/Avl.antt =====
-- blk/avl_allocator.cc on three ranges, of which two meet the new one.
use clab.Prelude.{ℕ, ◌+◌, ◌≡◌, refl, ◌&&◌, ◌||◌, [], ◌∷◌, arith, ltb, leb}
use clab.Blk.Avl.{RangeSeg, AvlTrees, add_to_tree}
use clab.Blk.Avl.Adding.{IsTree, is_free, add_to_tree-IsTree}

abbrev seg : ℕ → ℕ → RangeSeg
seg start end = record { start = start; end = end }

abbrev pub three_ranges : AvlTrees
three_ranges = record {
  range_tree = seg 0 4096 ∷ seg 8192 16384 ∷ seg 20480 24576 ∷ [];
  size_tree = seg 0 4096 ∷ seg 20480 24576 ∷ seg 8192 16384 ∷ [];
  num_free = 16384;
}

pub three_ranges-IsTree : IsTree three_ranges
three_ranges-IsTree = record {
  apart = (omega arith, omega arith, (omega arith, omega arith, (omega arith, omega arith, tt)));
  same_nodes = λ q. omega arith;
  counted = refl;
}

add_to_tree-IsTree_example :
    IsTree (add_to_tree three_ranges 4096 4096)
    × (is_free 5000 (add_to_tree three_ranges 4096 4096).range_tree
        ≡ (is_free 5000 three_ranges.range_tree || (leb 4096 5000 && ltb 5000 (4096 + 4096))))
    × ((add_to_tree three_ranges 4096 4096).num_free ≡ 16384 + 4096)
add_to_tree-IsTree_example =
    add_to_tree-IsTree three_ranges 4096 4096 5000 three_ranges-IsTree (omega arith)
      (refl, (refl, (refl, tt)))
