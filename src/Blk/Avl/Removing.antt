-- ===== src/Blk/Avl/Removing.antt =====
-- AvlAllocator::_remove_from_tree of blk/avl_allocator.cc in terms of the free bytes.
use clab.Prelude.{
  ℕ, suc, ◌+◌, ◌-◌, ◌≤◌, ◌<◌, ◌≡◌, refl, sym, ap, subst, ◌∙◌, ◌⊎◌, inl, inr, true, false, not, ◌&&◌,
  ◌||◌, Option, none, some, List, [], ◌∷◌, arith, ltb, leb, ◌==◌, Bool-cases, Option-cases,
}
use clab.Blk.Avl.{RangeSeg, seg_length, AvlTrees, range_size_tree_rm, range_size_tree_try_insert}
use clab.Blk.Avl.Adding.{
  is_free, IsApart, total, count, IsTree, one_of, count-size_insert, count-range_size_tree_rm,
  num_free-range_size_tree_rm,
}
use clab.Blk.Avl.Removal.{
  Cut, process_range_removal, behind_cut, cut_range, try_insert_all, apply_cut, remove_from_tree,
}

-- No range ends behind `d`.
abbrev pub IsBelow : ℕ → List RangeSeg → Type 0
IsBelow d [] = Unit {0}
IsBelow d (r ∷ t) = (r.end ≤ d) × IsBelow d t

-- A failed cut has a byte that is not free; a cut that is made takes the bytes of the range out and
-- no other, and keeps the books.
abbrev pub Cuts : ℕ → ℕ → ℕ → List RangeSeg → Option Cut → Type 0
Cuts lo start end t none = (y : ℕ) × (start ≤ y) × (y < end) × (is_free y t ≡ false)
Cuts lo start end t (some c) =
    IsApart lo c.tree
    × ((d : ℕ) → IsBelow d t → IsBelow d c.tree)
    × ((x : ℕ) → is_free x c.tree ≡ (is_free x t && not (leb start x && ltb x end)))
    × ((q : RangeSeg)
        → (one_of q c.removed ≤ count q t)
          × (count q c.tree + one_of q c.removed ≡ count q t + count q c.inserted))
    × (seg_length c.removed ≤ total t)
    × (total c.tree + seg_length c.removed ≡ total t + total c.inserted)
    × (total c.tree + (end - start) ≡ total t)

pub before_first : (lo y : ℕ) (t : List RangeSeg) → IsApart lo t → y < lo → is_free y t ≡ false
before_first lo y [] apart early = refl
before_first lo y (r ∷ t) apart early =
    ground (arith, before_first (suc r.end) y t apart.2 (omega arith))

behind-Cuts :
    (lo start end : ℕ) (r : RangeSeg) (t : List RangeSeg) (o : Option Cut)
    → IsApart lo (r ∷ t)
    → r.end ≤ start
    → Cuts (suc r.end) start end t o
    → Cuts lo start end (r ∷ t) (behind_cut r o)
behind-Cuts lo start end r t none apart before taken =
    (taken.0, taken.1, taken.2, ground (arith, taken.3, taken.1))
behind-Cuts lo start end r t (some c) apart before cuts = (
  (apart.0, apart.1, cuts.0),
  λ d below. (below.0, cuts.1 d below.1),
  λ x. ground (arith, cuts.2 x),
  λ q. let book = cuts.3 q in (omega (arith, book.0), omega (arith, book.1)),
  omega (arith, cuts.4),
  omega (arith, cuts.5),
  omega (arith, cuts.6),
)

miss-Cuts :
    (lo start end : ℕ) (r : RangeSeg) (t : List RangeSeg)
    → IsApart lo (r ∷ t)
    → start < end
    → start < r.end
    → (leb end r.start || (ltb start r.start || ltb r.end end)) ≡ true
    → Cuts lo start end (r ∷ t) none
miss-Cuts lo start end r t apart pos over miss = elim (Bool-cases (ltb start r.start)) [
  | inl early ↦ (
    start,
    omega arith,
    pos,
    ground (arith, before_first (suc r.end) start t apart.2 (omega arith)),
  )
  | inr late ↦ (
    r.end,
    omega arith,
    ground arith,
    ground (arith, before_first (suc r.end) r.end t apart.2 (omega arith)),
  )
]

IsApart-later : (lo hi : ℕ) (t : List RangeSeg) → lo ≤ hi → IsApart hi t → IsApart lo t
IsApart-later lo hi [] le apart = tt
IsApart-later lo hi (r ∷ t) le apart = (omega arith, apart.1, apart.2)

process_range_removal-IsApart :
    (lo start end : ℕ) (r : RangeSeg) (t : List RangeSeg)
    → IsApart lo (r ∷ t)
    → start < end
    → r.start ≤ start
    → end ≤ r.end
    → IsApart lo (process_range_removal r t start end).tree
process_range_removal-IsApart lo start end r t apart pos over fits =
    let later = IsApart-later lo (suc r.end) t (omega arith) apart.2 in
    elim (Bool-cases (r.start == start)) [
      | inl at_start ↦ elim (Bool-cases (r.end == end)) [
        | inl at_end ↦ rw (process_range_removal, at_start, at_end) later
        | inr right ↦
            rw (process_range_removal, at_start, right) (ground arith, ground arith, apart.2)
      ]
      | inr left ↦ elim (Bool-cases (r.end == end)) [
        | inl at_end ↦
            rw (process_range_removal, left, at_end)
              (
                apart.0,
                ground arith,
                IsApart-later (suc start) (suc r.end) t (ground arith) apart.2,
              )
        | inr right ↦
            rw (process_range_removal, left, right)
              (apart.0, ground arith, (ground arith, ground arith, apart.2))
      ]
    ]

process_range_removal-IsBelow :
    (d start end : ℕ) (r : RangeSeg) (t : List RangeSeg)
    → start ≤ r.end
    → IsBelow d (r ∷ t)
    → IsBelow d (process_range_removal r t start end).tree
process_range_removal-IsBelow d start end r t fits below = elim (Bool-cases (r.start == start)) [
  | inl at_start ↦ elim (Bool-cases (r.end == end)) [
    | inl at_end ↦ rw (process_range_removal, at_start, at_end) below.1
    | inr right ↦ rw (process_range_removal, at_start, right) below
  ]
  | inr left ↦ elim (Bool-cases (r.end == end)) [
    | inl at_end ↦ rw (process_range_removal, left, at_end) (omega arith, below.1)
    | inr right ↦ rw (process_range_removal, left, right) (omega arith, below)
  ]
]

hit-Cuts :
    (lo start end : ℕ) (r : RangeSeg) (t : List RangeSeg)
    → IsApart lo (r ∷ t)
    → start < end
    → r.start ≤ start
    → end ≤ r.end
    → Cuts lo start end (r ∷ t) (some (process_range_removal r t start end))
hit-Cuts lo start end r t apart pos over fits = (
  process_range_removal-IsApart lo start end r t apart pos over fits,
  λ d below. process_range_removal-IsBelow d start end r t (omega arith) below,
  λ x. ground (arith, before_first (suc r.end) x t apart.2),
  λ q. ground arith,
  ground arith,
  ground arith,
  ground arith,
)

cut_range-Cuts :
    (lo start end : ℕ) (t : List RangeSeg)
    → IsApart lo t
    → start < end
    → Cuts lo start end t (cut_range t start end)
unfolding cut_range
cut_range-Cuts lo start end [] apart pos = (start, omega arith, pos, refl)
cut_range-Cuts lo start end (r ∷ t) apart pos = elim (Bool-cases (leb r.end start)) [
  | inl later ↦
      rw (cut_range, later)
        (behind-Cuts lo start end r t (cut_range t start end) apart (ground arith)
          (cut_range-Cuts (suc r.end) start end t apart.2 pos))
  | inr here ↦ elim (Bool-cases (leb end r.start || (ltb start r.start || ltb r.end end))) [
    | inl miss ↦
        rw (cut_range, here, miss) (miss-Cuts lo start end r t apart pos (ground arith) miss)
    | inr hit ↦
        rw (cut_range, here, hit)
          (hit-Cuts lo start end r t apart pos (ground (arith, hit)) (ground (arith, hit)))
  ]
]

count-try_insert_all :
    (q : RangeSeg) (rs : List RangeSeg) (a : AvlTrees)
    → count q (try_insert_all rs a).size_tree ≡ count q a.size_tree + count q rs
count-try_insert_all q [] a = omega arith
count-try_insert_all q (r ∷ rs) a = omega (
  arith,
  count-try_insert_all q rs (range_size_tree_try_insert r a),
  count-size_insert q r a.size_tree,
)

num_free-try_insert_all :
    (rs : List RangeSeg) (a : AvlTrees)
    → ((try_insert_all rs a).num_free ≡ a.num_free + total rs)
      × ((try_insert_all rs a).range_tree ≡ a.range_tree)
num_free-try_insert_all [] a = (omega arith, refl)
num_free-try_insert_all (r ∷ rs) a =
    let rest = num_free-try_insert_all rs (range_size_tree_try_insert r a) in
    (omega (arith, rest.0), rest.1)

-- What a cut that was made leaves.
abbrev pub Removes : ℕ → AvlTrees → ℕ → ℕ → AvlTrees → Type 0
Removes d a start size b =
    IsTree b
    × (IsBelow d a.range_tree → IsBelow d b.range_tree)
    × ((x : ℕ)
        → is_free x b.range_tree
          ≡ (is_free x a.range_tree && not (leb start x && ltb x (start + size))))
    × (b.num_free + size ≡ a.num_free)

apply_cut-Removes :
    (d : ℕ) (a : AvlTrees) (start size : ℕ) (c : Cut)
    → IsTree a
    → 0 < size
    → Cuts 0 start (start + size) a.range_tree (some c)
    → Removes d a start size (apply_cut a c)
apply_cut-Removes d a start size c tree pos cuts =
    let b : AvlTrees = record a { range_tree = c.tree } in
    let out = c.removed ∷ [] in
    let mid = range_size_tree_rm out b in
    let freed = num_free-range_size_tree_rm out b in
    let back = num_free-try_insert_all c.inserted mid in
    let same_tree : (apply_cut a c).range_tree ≡ c.tree = back.1 ∙ freed.1 in
    (
      record {
        apart = subst (IsApart 0) (sym same_tree) cuts.0;
        same_nodes = λ q.
            let book = cuts.3 q in
            omega (
              arith,
              count-try_insert_all q c.inserted mid,
              count-range_size_tree_rm q out b,
              tree.same_nodes q,
              book.0,
              book.1,
              ap (count q) same_tree,
            );
        counted = omega (arith, back.0, freed.0, tree.counted, cuts.4, cuts.5, ap total same_tree);
      },
      λ below. subst (IsBelow d) (sym same_tree) (cuts.1 d below),
      λ x. ap (is_free x) same_tree ∙ cuts.2 x,
      omega (arith, back.0, freed.0, tree.counted, cuts.4, cuts.5, cuts.6),
    )

-- In sound trees, taking a range that is not empty out does one of two things: the answer is
-- false, the trees are as they were, and some byte of the range is not free; or the answer is
-- true, the trees are sound again, exactly the bytes of the range stop being free, no range ends
-- behind a bound that held before, and the count of free bytes falls by the size.
pub remove_from_tree-IsTree :
    (d : ℕ) (a : AvlTrees) (start size : ℕ)
    → IsTree a
    → 0 < size
    → ((remove_from_tree a start size ≡ (a, false))
        × ((y : ℕ) × (start ≤ y) × (y < start + size) × (is_free y a.range_tree ≡ false)))
      ⊎ (((remove_from_tree a start size).1 ≡ true)
          × Removes d a start size (remove_from_tree a start size).0)
unfolding remove_from_tree cut_range
remove_from_tree-IsTree d a start size tree pos =
    let end = start + size in
    let cuts = cut_range-Cuts 0 start end a.range_tree tree.apart (omega arith) in
    elim (Option-cases (cut_range a.range_tree start end)) [
      | inl missed ↦
          inl
            (rw (remove_from_tree, missed) refl, subst (Cuts 0 start end a.range_tree) missed cuts)
      | inr (c, made) ↦
          let facts = subst (Cuts 0 start end a.range_tree) made cuts in
          inr (
            rw (remove_from_tree, made) refl,
            rw (remove_from_tree, made) (apply_cut-Removes d a start size c tree pos facts),
          )
    ]
