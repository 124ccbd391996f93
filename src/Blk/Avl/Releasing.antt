-- ===== src/Blk/Avl/Releasing.antt =====
-- AvlAllocator::release and Allocator::release of blk/: what was handed out comes back.
use clab.Prelude.{
  ℕ, suc, ◌+◌, max, ◌≤◌, ◌<◌, ◌≡◌, refl, sym, subst, inl, inr, true, false, ◌||◌, List, [], ◌∷◌,
  arith, leb, Bool-cases,
}
use clab.Blk.IntervalSet.{IntervalSet}
use clab.Blk.IntervalSet.Laws.{holds, IsSpaced, holds_early}
use clab.Blk.Avl.{RangeSeg, AvlTrees, place, place_after, add_to_tree}
use clab.Blk.Avl.Adding.{IsApart, IsTaken, is_free, add_to_tree-IsTree, num_free-range_size_tree_rm}
use clab.Blk.Avl.Removing.{IsBelow}
use clab.Blk.Avl.Allocating.{AvlAllocator, release}
use clab.Blk.Avl.Allocation.{IsAvl}

place_after-IsBelow :
    (d start end : ℕ) (before : RangeSeg) (t : List RangeSeg)
    → IsBelow d (before ∷ t)
    → end ≤ d
    → IsBelow d (place_after before t start end).tree
unfolding place_after
place_after-IsBelow d start end before [] below le = ground arith
place_after-IsBelow d start end before (r ∷ t) below le = elim (Bool-cases (leb end r.start)) [
  | inl here ↦ ground (arith, here)
  | inr later ↦
      rw (IsBelow, place_after, later) (below.0, place_after-IsBelow d start end r t below.1 le)
]

place-IsBelow :
    (d start end : ℕ) (t : List RangeSeg)
    → IsBelow d t
    → end ≤ d
    → IsBelow d (place t start end).tree
unfolding place
place-IsBelow d start end [] below le = ground arith
place-IsBelow d start end (r ∷ t) below le = elim (Bool-cases (leb end r.start)) [
  | inl here ↦ ground (arith, here)
  | inr later ↦ rw (IsBelow, place, later) (place_after-IsBelow d start end r t below le)
]

add_to_tree-IsBelow :
    (d : ℕ) (a : AvlTrees) (start size : ℕ)
    → IsBelow d a.range_tree
    → start + size ≤ d
    → IsBelow d (add_to_tree a start size).range_tree
unfolding add_to_tree
add_to_tree-IsBelow d a start size below le =
    let p = place a.range_tree start (start + size) in
    subst (IsBelow d)
      (sym (num_free-range_size_tree_rm p.removed (record a { range_tree = p.tree })).1)
      (place-IsBelow d start (start + size) a.range_tree below le)

-- A range without a free byte is taken.
no_free-IsTaken :
    (lo start end : ℕ) (t : List RangeSeg)
    → IsApart lo t
    → start < end
    → ((x : ℕ) → start ≤ x → x < end → is_free x t ≡ false)
    → IsTaken start end t
no_free-IsTaken lo start end [] apart pos none = tt
no_free-IsTaken lo start end (r ∷ t) apart pos none =
    let y = max start r.start in
    (
      elim (Bool-cases (leb end r.start || leb r.end start)) [
        | inl miss ↦ miss
        | inr hit ↦ absurd (ground (arith, hit, none y))
      ],
      no_free-IsTaken (suc r.end) start end t apart.2 pos
          (λ x from to. ground (arith, none x from to)),
    )

-- The bytes of a set, and that it lies in the device.
abbrev pub set_length : IntervalSet → ℕ
set_length [] = 0
set_length ((offset, length) ∷ set) = length + set_length set

abbrev pub IsWithin : ℕ → IntervalSet → Type 0
IsWithin d [] = Unit {0}
IsWithin d ((offset, length) ∷ set) = (offset + length ≤ d) × IsWithin d set

-- What release leaves.
pub record Released (a : AvlAllocator) (set : IntervalSet) (b : AvlAllocator) : Type 0 where
  pub sound : IsAvl b
  pub same_device : b.device_size ≡ a.device_size
  pub bytes : (x : ℕ) → is_free x b.trees.range_tree ≡ (is_free x a.trees.range_tree || holds x set)
  pub counted : b.trees.num_free ≡ a.trees.num_free + set_length set

-- In a sound AVL allocator without a memory limit, releasing the intervals of a set that lies in
-- the device, of which no byte is free, leaves a sound allocator of the same device: exactly the
-- bytes of the set become free besides those that were, and the count of free bytes rises by its
-- size.
pub release-Released :
    (lo : ℕ) (a : AvlAllocator) (set : IntervalSet)
    → IsAvl a
    → IsSpaced lo set
    → IsWithin a.device_size set
    → ((x : ℕ) → holds x set ≡ true → is_free x a.trees.range_tree ≡ false)
    → Released a set (release a set)
unfolding release
release-Released lo a [] avl spaced within taken = record {
  sound = avl;
  same_device = refl;
  bytes = λ x. ground arith;
  counted = omega arith;
}
release-Released lo a ((offset, length) ∷ set) avl spaced within taken =
    let t =
      no_free-IsTaken 0 offset (offset + length) a.trees.range_tree avl.sound.apart (omega arith)
        (λ x from to. taken x (ground arith)) in
    let b : AvlAllocator = record a { trees = add_to_tree a.trees offset length } in
    let added = λ (x : ℕ). add_to_tree-IsTree a.trees offset length x avl.sound spaced.1 t in
    let sound : IsAvl b = record {
      sound = (added 0).0;
      below = add_to_tree-IsBelow a.device_size a.trees offset length avl.below within.0;
    } in
    let rest = release-Released (suc (offset + length)) b set sound spaced.2 within.1 (λ x held.
      ground
        (arith, (added x).1, taken x, held, holds_early (suc (offset + length)) x set spaced.2)) in
    record {
      sound = rest.sound;
      same_device = rest.same_device;
      bytes = λ x. ground (arith, rest.bytes x, (added x).1);
      counted = omega (arith, rest.counted, (added 0).2);
    }
