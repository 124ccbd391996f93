-- ===== src/Blk/Avl/Removal.antt =====
-- blk/avl_allocator.cc: _process_range_removal and _remove_from_tree.
use clab.Prelude.{
  ℕ, ◌+◌, Bool, true, false, ◌||◌, Option, none, some, List, [], ◌∷◌, ltb, leb, ◌==◌, if◌then◌else◌,
}
use clab.Blk.Avl.{
  RangeSeg, AvlTrees, range_size_tree_rm, range_size_tree_try_insert, size_insert, size_erase,
}

-- What is made of the range tree: the node that leaves the size tree, and what is left of it on
-- either side, in the order in which it enters the size tree again.
pub record Cut : Type 0 where
  pub tree : List RangeSeg
  pub removed : RangeSeg
  pub inserted : List RangeSeg

-- _process_range_removal at the node `r` with `t` behind it.
abbrev pub process_range_removal : RangeSeg → List RangeSeg → ℕ → ℕ → Cut
process_range_removal r t start end =
    let left : RangeSeg = record { start = r.start; end = start } in
    let right : RangeSeg = record { start = end; end = r.end } in
    if r.start == start
    then (if r.end == end
        then record { tree = t; removed = r; inserted = [] }
        else record { tree = right ∷ t; removed = r; inserted = right ∷ [] })
    else (if r.end == end
        then record { tree = left ∷ t; removed = r; inserted = left ∷ [] }
        else record { tree = left ∷ right ∷ t; removed = r; inserted = right ∷ left ∷ [] })

abbrev pub behind_cut : RangeSeg → Option Cut → Option Cut
behind_cut r none = none
behind_cut r (some c) = some (record c { tree = r ∷ c.tree })

-- `find` meets the first node that ends behind `start`; it is no match when it begins at `end` or
-- later, and the range has to lie inside it.
unfoldable pub cut_range : List RangeSeg → ℕ → ℕ → Option Cut
cut_range [] start end = none
cut_range (r ∷ t) start end =
    let rest = behind_cut r (cut_range t start end) in
    if leb r.end start
    then rest
    else (if leb end r.start || (ltb start r.start || ltb r.end end)
        then none
        else some (process_range_removal r t start end))

abbrev pub try_insert_all : List RangeSeg → AvlTrees → AvlTrees
try_insert_all [] a = a
try_insert_all (r ∷ rs) a = try_insert_all rs (range_size_tree_try_insert r a)

abbrev pub apply_cut : AvlTrees → Cut → AvlTrees
apply_cut a c =
    try_insert_all c.inserted
      (range_size_tree_rm (c.removed ∷ []) (record a { range_tree = c.tree }))

-- AvlAllocator::_remove_from_tree; `false` leaves the trees as they are.
unfoldable pub remove_from_tree : AvlTrees → ℕ → ℕ → AvlTrees × Bool
unfolding cut_range size_insert size_erase
remove_from_tree a start size = elim (cut_range a.range_tree start (start + size)) [
  | none ↦ (a, false)
  | some c ↦ (apply_cut a c, true)
]
