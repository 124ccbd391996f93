-- ===== src/Blk/Avl.antt =====
-- The trees of blk/avl_allocator.cc: free ranges by offset and by size. The allocator is one made
-- without a memory limit, so that its count of ranges has no cap and nothing spills over.
pub mod Adding
pub mod Removal
pub mod Removing
pub mod Pick
pub mod Searching
pub mod Allocating
pub mod Allocation
pub mod Pieces
pub mod Releasing
pub mod GivingBack
use clab.Prelude.{
  ℕ, ◌+◌, ◌-◌, Bool, true, false, ◌&&◌, ◌||◌, List, [], ◌∷◌, ltb, leb, ◌==◌, if◌then◌else◌,
}

-- range_seg_t, from `start` to before `end`.
pub record RangeSeg : Type 0 where
  pub start : ℕ
  pub end : ℕ

abbrev pub seg_length : RangeSeg → ℕ
seg_length r = r.end - r.start

-- shorter_t
abbrev pub shorter : RangeSeg → RangeSeg → Bool
shorter l r =
    ltb (seg_length l) (seg_length r) || ((seg_length l == seg_length r) && ltb l.start r.start)

abbrev pub same_seg : RangeSeg → RangeSeg → Bool
same_seg l r = (l.start == r.start) && (l.end == r.end)

-- `range_size_tree_.insert(r)`, a multiset.
unfoldable pub size_insert : RangeSeg → List RangeSeg → List RangeSeg
size_insert r [] = r ∷ []
size_insert r (x ∷ t) = let rest = size_insert r t in if shorter r x then r ∷ x ∷ t else x ∷ rest

-- `range_size_tree_.erase(r)`. Ranges are apart, so that one node at most is equal to `r`.
unfoldable pub size_erase : RangeSeg → List RangeSeg → List RangeSeg
size_erase r [] = []
size_erase r (x ∷ t) = let rest = size_erase r t in if same_seg x r then t else x ∷ rest

-- `num_free_` and both trees.
pub record AvlTrees : Type 0 where
  pub range_tree : List RangeSeg
  pub size_tree : List RangeSeg
  pub num_free : ℕ

-- What `_add_to_tree` makes of the range tree: the nodes that it takes out of the size tree, and
-- the one that it puts in.
pub record Placed : Type 0 where
  pub tree : List RangeSeg
  pub removed : List RangeSeg
  pub inserted : RangeSeg

abbrev behind : RangeSeg → Placed → Placed
behind r p = record p { tree = r ∷ p.tree }

-- The four cases, for the node before (`before`) and the node behind (`after`) the new range.
abbrev pub merge_both : RangeSeg → RangeSeg → List RangeSeg → ℕ → ℕ → Placed
merge_both before after t start end =
    let both : RangeSeg = record { start = before.start; end = after.end } in
    let left : RangeSeg = record { start = before.start; end = end } in
    let right : RangeSeg = record { start = start; end = after.end } in
    let new : RangeSeg = record { start = start; end = end } in
    if before.end == start
    then (if after.start == end
        then record { tree = both ∷ t; removed = before ∷ after ∷ []; inserted = both }
        else record { tree = left ∷ after ∷ t; removed = before ∷ []; inserted = left })
    else (if after.start == end
        then record { tree = before ∷ right ∷ t; removed = after ∷ []; inserted = right }
        else record { tree = before ∷ new ∷ after ∷ t; removed = []; inserted = new })

abbrev pub merge_last : RangeSeg → ℕ → ℕ → Placed
merge_last before start end =
    let left : RangeSeg = record { start = before.start; end = end } in
    let new : RangeSeg = record { start = start; end = end } in
    if before.end == start
    then record { tree = left ∷ []; removed = before ∷ []; inserted = left }
    else record { tree = before ∷ new ∷ []; removed = []; inserted = new }

abbrev pub merge_first : RangeSeg → List RangeSeg → ℕ → ℕ → Placed
merge_first after t start end =
    let right : RangeSeg = record { start = start; end = after.end } in
    let new : RangeSeg = record { start = start; end = end } in
    if after.start == end
    then record { tree = right ∷ t; removed = after ∷ []; inserted = right }
    else record { tree = new ∷ after ∷ t; removed = []; inserted = new }

-- `upper_bound` finds the first node that starts at `end` or behind it; `before` is the node in
-- front of the rest of the tree.
unfoldable pub place_after : RangeSeg → List RangeSeg → ℕ → ℕ → Placed
place_after before [] start end = merge_last before start end
place_after before (r ∷ t) start end =
    let rest = behind before (place_after r t start end) in
    if leb end r.start then merge_both before r t start end else rest

unfoldable pub place : List RangeSeg → ℕ → ℕ → Placed
unfolding place_after
place [] start end =
    let new : RangeSeg = record { start = start; end = end } in
    record { tree = new ∷ []; removed = []; inserted = new }
place (r ∷ t) start end =
    if leb end r.start then merge_first r t start end else place_after r t start end

-- _range_size_tree_rm, for each node that is taken out.
abbrev pub range_size_tree_rm : List RangeSeg → AvlTrees → AvlTrees
range_size_tree_rm [] a = a
range_size_tree_rm (r ∷ rs) a =
    range_size_tree_rm rs
      (record a { size_tree = size_erase r a.size_tree; num_free = a.num_free - seg_length r })

-- _range_size_tree_try_insert
abbrev pub range_size_tree_try_insert : RangeSeg → AvlTrees → AvlTrees
range_size_tree_try_insert r a = record a {
  size_tree = size_insert r a.size_tree;
  num_free = a.num_free + seg_length r;
}

-- AvlAllocator::_add_to_tree
unfoldable pub add_to_tree : AvlTrees → ℕ → ℕ → AvlTrees
unfolding place size_insert size_erase
add_to_tree a start size =
    let p = place a.range_tree start (start + size) in
    range_size_tree_try_insert p.inserted
      (range_size_tree_rm p.removed (record a { range_tree = p.tree }))
