-- ===== src/Blk/Avl/Adding.antt =====
-- AvlAllocator::_add_to_tree of blk/avl_allocator.cc in terms of the free bytes.
use clab.Prelude.{
  ℕ, suc, ◌+◌, ◌-◌, ◌≤◌, ◌<◌, ◌≡◌, refl, sym, ap, subst, ◌∙◌, inl, inr, Bool, true, false, ◌&&◌,
  ◌||◌, List, [], ◌∷◌, arith, ltb, leb, if◌then◌else◌, Bool-cases,
}
use clab.Blk.Avl.{
  RangeSeg, seg_length, AvlTrees, Placed, place_after, place, range_size_tree_rm, add_to_tree,
  same_seg, size_insert, size_erase,
}

-- The byte `x` is free.
abbrev pub is_free : ℕ → List RangeSeg → Bool
is_free x [] = false
is_free x (r ∷ t) = (leb r.start x && ltb x r.end) || is_free x t

-- Ranges from `lo` on, none empty, with a gap between each and the next.
abbrev pub IsApart : ℕ → List RangeSeg → Type 0
IsApart lo [] = Unit {0}
IsApart lo (r ∷ t) = (lo ≤ r.start) × (r.start < r.end) × IsApart (suc r.end) t

-- No byte from `start` to `end` is free.
abbrev pub IsTaken : ℕ → ℕ → List RangeSeg → Type 0
IsTaken start end [] = Unit {0}
IsTaken start end (r ∷ t) = ((leb end r.start || leb r.end start) ≡ true) × IsTaken start end t

place_after-is_free :
    (x lo start end : ℕ) (before : RangeSeg) (t : List RangeSeg)
    → IsApart lo (before ∷ t)
    → IsTaken start end (before ∷ t)
    → start < end
    → before.start < end
    → is_free x (place_after before t start end).tree
      ≡ (is_free x (before ∷ t) || (leb start x && ltb x end))
unfolding place_after
place_after-is_free x lo start end before [] apart taken some over = ground arith
place_after-is_free x lo start end before (r ∷ t) apart taken some over =
    elim (Bool-cases (leb end r.start)) [
      | inl here ↦ ground (arith, here)
      | inr later ↦
          let rest =
            place_after-is_free x (suc before.end) start end r t apart.2 taken.1 some
              (ground arith) in
          rw (place_after, later) (ground (arith, rest))
    ]

place-is_free :
    (x start end : ℕ) (t : List RangeSeg)
    → IsApart 0 t
    → IsTaken start end t
    → start < end
    → is_free x (place t start end).tree ≡ (is_free x t || (leb start x && ltb x end))
unfolding place
place-is_free x start end [] apart taken some = ground arith
place-is_free x start end (r ∷ t) apart taken some = elim (Bool-cases (leb end r.start)) [
  | inl here ↦ ground (arith, here)
  | inr later ↦
      rw (place, later) (place_after-is_free x 0 start end r t apart taken some (ground arith))
]

place_after-IsApart :
    (lo start end : ℕ) (before : RangeSeg) (t : List RangeSeg)
    → IsApart lo (before ∷ t)
    → IsTaken start end (before ∷ t)
    → start < end
    → before.start < end
    → IsApart lo (place_after before t start end).tree
unfolding place_after
place_after-IsApart lo start end before [] apart taken some over = ground arith
place_after-IsApart lo start end before (r ∷ t) apart taken some over =
    elim (Bool-cases (leb end r.start)) [
      | inl here ↦ ground (arith, here)
      | inr later ↦
          let rest =
            place_after-IsApart (suc before.end) start end r t apart.2 taken.1 some
              (ground arith) in
          rw (IsApart, place_after, later) (apart.0, apart.1, rest)
    ]

place-IsApart :
    (start end : ℕ) (t : List RangeSeg)
    → IsApart 0 t
    → IsTaken start end t
    → start < end
    → IsApart 0 (place t start end).tree
unfolding place
place-IsApart start end [] apart taken some = ground arith
place-IsApart start end (r ∷ t) apart taken some = elim (Bool-cases (leb end r.start)) [
  | inl here ↦ ground (arith, here)
  | inr later ↦
      rw (IsApart, place, later)
        (place_after-IsApart 0 start end r t apart taken some (ground arith))
]

-- The bytes of all ranges.
abbrev pub total : List RangeSeg → ℕ
total [] = 0
total (r ∷ t) = seg_length r + total t

-- The node is in the tree so many times.
abbrev pub count : RangeSeg → List RangeSeg → ℕ
count q [] = 0
count q (r ∷ t) = (if same_seg r q then 1 else 0) + count q t

-- What goes out of the size tree and what comes in make up for the change of the range tree.
abbrev Balances : (RangeSeg → ℕ) → (List RangeSeg → ℕ) → List RangeSeg → Placed → Type 0
Balances one all t p =
    (all p.removed ≤ all t) × (all p.tree + all p.removed ≡ all t + one p.inserted)

abbrev pub one_of : RangeSeg → RangeSeg → ℕ
one_of q r = if same_seg r q then 1 else 0

place_after-count :
    (q : RangeSeg) (start end : ℕ) (before : RangeSeg) (t : List RangeSeg)
    → Balances (one_of q) (count q) (before ∷ t) (place_after before t start end)
unfolding place_after
place_after-count q start end before [] = ground arith
place_after-count q start end before (r ∷ t) = elim (Bool-cases (leb end r.start)) [
  | inl here ↦ ground (arith, here)
  | inr later ↦
      let rest = place_after-count q start end r t in
      rw (Balances, place_after, later) (omega (arith, rest.0), omega (arith, rest.1))
]

place_after-total :
    (start end : ℕ) (before : RangeSeg) (t : List RangeSeg)
    → Balances seg_length total (before ∷ t) (place_after before t start end)
unfolding place_after
place_after-total start end before [] = ground arith
place_after-total start end before (r ∷ t) = elim (Bool-cases (leb end r.start)) [
  | inl here ↦ ground (arith, here)
  | inr later ↦
      let rest = place_after-total start end r t in
      rw (Balances, place_after, later) (omega (arith, rest.0), omega (arith, rest.1))
]

place-count :
    (q : RangeSeg) (start end : ℕ) (t : List RangeSeg)
    → Balances (one_of q) (count q) t (place t start end)
unfolding place
place-count q start end [] = ground arith
place-count q start end (r ∷ t) = elim (Bool-cases (leb end r.start)) [
  | inl here ↦ ground (arith, here)
  | inr later ↦ rw (Balances, place, later) (place_after-count q start end r t)
]

place-total : (start end : ℕ) (t : List RangeSeg) → Balances seg_length total t (place t start end)
unfolding place
place-total start end [] = ground arith
place-total start end (r ∷ t) = elim (Bool-cases (leb end r.start)) [
  | inl here ↦ ground (arith, here)
  | inr later ↦ rw (Balances, place, later) (place_after-total start end r t)
]

place_after-grown :
    (lo start end : ℕ) (before : RangeSeg) (t : List RangeSeg)
    → IsApart lo (before ∷ t)
    → IsTaken start end (before ∷ t)
    → start < end
    → before.start < end
    → total (place_after before t start end).tree ≡ total (before ∷ t) + (end - start)
unfolding place_after
place_after-grown lo start end before [] apart taken some over = ground arith
place_after-grown lo start end before (r ∷ t) apart taken some over =
    elim (Bool-cases (leb end r.start)) [
      | inl here ↦ ground (arith, here)
      | inr later ↦
          let rest =
            place_after-grown (suc before.end) start end r t apart.2 taken.1 some (ground arith) in
          rw (place_after, later) (omega (arith, rest))
    ]

place-grown :
    (start end : ℕ) (t : List RangeSeg)
    → IsApart 0 t
    → IsTaken start end t
    → start < end
    → total (place t start end).tree ≡ total t + (end - start)
unfolding place
place-grown start end [] apart taken some = ground arith
place-grown start end (r ∷ t) apart taken some = elim (Bool-cases (leb end r.start)) [
  | inl here ↦ ground (arith, here)
  | inr later ↦
      rw (place, later) (place_after-grown 0 start end r t apart taken some (ground arith))
]

pub count-size_insert :
    (q r : RangeSeg) (t : List RangeSeg) → count q (size_insert r t) ≡ count q t + one_of q r
unfolding size_insert
count-size_insert q r [] = ground arith
count-size_insert q r (x ∷ t) = ground (arith, count-size_insert q r t)

-- Equal nodes have equal ends.
pub same-count : (q x r : RangeSeg) → same_seg x r ≡ true → one_of q x ≡ one_of q r
same-count q x r same = ground arith

count-size_erase :
    (q r : RangeSeg) (t : List RangeSeg) → count q (size_erase r t) ≡ count q t - one_of q r
unfolding size_erase
count-size_erase q r [] = ground arith
count-size_erase q r (x ∷ t) = elim (Bool-cases (same_seg x r)) [
  | inl same ↦ rw (size_erase, same) (omega (arith, same-count q x r same))
  | inr other ↦ elim (Bool-cases (same_seg x q)) [
    | inl hit ↦
        let apart : same_seg r q ≡ false = ground (arith, hit, other) in
        rw (size_erase, other) (ground (arith, hit, apart, count-size_erase q r t))
    | inr miss ↦ rw (size_erase, other) (ground (arith, miss, count-size_erase q r t))
  ]
]

pub count-range_size_tree_rm :
    (q : RangeSeg) (rs : List RangeSeg) (a : AvlTrees)
    → count q (range_size_tree_rm rs a).size_tree ≡ count q a.size_tree - count q rs
count-range_size_tree_rm q [] a = omega arith
count-range_size_tree_rm q (r ∷ rs) a =
    let next : AvlTrees = record a {
      size_tree = size_erase r a.size_tree;
      num_free = a.num_free - seg_length r;
    } in
    omega (arith, count-range_size_tree_rm q rs next, count-size_erase q r a.size_tree)

pub num_free-range_size_tree_rm :
    (rs : List RangeSeg) (a : AvlTrees)
    → ((range_size_tree_rm rs a).num_free ≡ a.num_free - total rs)
      × ((range_size_tree_rm rs a).range_tree ≡ a.range_tree)
num_free-range_size_tree_rm [] a = (omega arith, refl)
num_free-range_size_tree_rm (r ∷ rs) a =
    let next : AvlTrees = record a {
      size_tree = size_erase r a.size_tree;
      num_free = a.num_free - seg_length r;
    } in
    let rest = num_free-range_size_tree_rm rs next in (omega (arith, rest.0), rest.1)

-- The ranges are apart, both trees have the same nodes, and `num_free_` counts the free bytes.
pub record IsTree (a : AvlTrees) : Type 0 where
  pub apart : IsApart 0 a.range_tree
  pub same_nodes : (q : RangeSeg) → count q a.size_tree ≡ count q a.range_tree
  pub counted : a.num_free ≡ total a.range_tree

-- In an AVL allocator without a memory limit whose trees are sound: adding a range that is not
-- empty and of which no byte is free leaves sound trees (ranges apart and not empty, the same
-- nodes by offset and by size, the free bytes counted), makes exactly the bytes of the range free
-- besides those that were, and raises the count by its size.
pub add_to_tree-IsTree :
    (a : AvlTrees) (start size x : ℕ)
    → IsTree a
    → 0 < size
    → IsTaken start (start + size) a.range_tree
    → IsTree (add_to_tree a start size)
      × (is_free x (add_to_tree a start size).range_tree
          ≡ (is_free x a.range_tree || (leb start x && ltb x (start + size))))
      × ((add_to_tree a start size).num_free ≡ a.num_free + size)
unfolding add_to_tree
add_to_tree-IsTree a start size x tree some taken =
    let end = start + size in
    let p = place a.range_tree start end in
    let b : AvlTrees = record a { range_tree = p.tree } in
    let freed = num_free-range_size_tree_rm p.removed b in
    let sum = place-total start end a.range_tree in
    let grown = place-grown start end a.range_tree tree.apart taken (omega arith) in
    let same_tree : (range_size_tree_rm p.removed b).range_tree ≡ p.tree = freed.1 in
    (
      record {
        apart =
            subst (IsApart 0) (sym same_tree)
              (place-IsApart start end a.range_tree tree.apart taken (omega arith));
        same_nodes = λ q.
            let balance = place-count q start end a.range_tree in
            omega (
              arith,
              count-size_insert q p.inserted (range_size_tree_rm p.removed b).size_tree,
              count-range_size_tree_rm q p.removed b,
              tree.same_nodes q,
              balance.0,
              balance.1,
              ap (count q) same_tree,
            );
        counted = omega (arith, freed.0, tree.counted, sum.0, sum.1, ap total same_tree);
      },
      ap (is_free x) same_tree
          ∙ place-is_free x start end a.range_tree tree.apart taken (omega arith),
      omega (arith, freed.0, tree.counted, sum.0, sum.1, grown),
    )
