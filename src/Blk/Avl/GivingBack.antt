-- ===== src/Blk/Avl/GivingBack.antt =====
-- Allocator::release(PExtentVector) of blk/allocator.cc after AvlAllocator::allocate.
use clab.Prelude.{
  ℕ, suc, ◌+◌, ◌-◌, ◌^◌, ◌≤◌, ◌<◌, ◌≡◌, refl, sym, ap, ap₂, subst, ◌∙◌, inl, inr, true, false, ◌&&◌,
  ◌||◌, List, [], ◌∷◌, arith, ltb, leb, ◌==◌, if◌then◌else◌, Bool-cases,
}
use clab.Common.Intarith.{u64}
use clab.Blk.Allocator.{PExtent}
use clab.Blk.IntervalSet.{IntervalSet, insert, release_set}
use clab.Blk.IntervalSet.Laws.{holds, IsSpaced, NoneLonger, insert-holds}
use clab.Blk.Avl.{RangeSeg}
use clab.Blk.Avl.Adding.{IsApart, is_free, total}
use clab.Blk.Avl.Removing.{IsBelow, before_first}
use clab.Blk.Avl.Allocating.{AvlAllocator, allocate, release, capped, extent_cap}
use clab.Blk.Avl.Allocation.{IsAvl}
use clab.Blk.Avl.Pieces.{covers, Served, allocate-Served}
use clab.Blk.Avl.Releasing.{IsWithin, release-Released}

-- Ranges that are apart are known by their free bytes.
same_start :
    (lo : ℕ) (r q : RangeSeg) (s t : List RangeSeg)
    → IsApart lo (r ∷ s)
    → IsApart lo (q ∷ t)
    → ((x : ℕ) → is_free x (r ∷ s) ≡ is_free x (q ∷ t))
    → r.start ≤ q.start
same_start lo r q s t left right same = ground (
  arith,
  same q.start,
  before_first (suc r.end) q.start s left.2,
  before_first (suc q.end) q.start t right.2,
)

same_end :
    (lo : ℕ) (r q : RangeSeg) (s t : List RangeSeg)
    → IsApart lo (r ∷ s)
    → IsApart lo (q ∷ t)
    → r.start ≡ q.start
    → ((x : ℕ) → is_free x (r ∷ s) ≡ is_free x (q ∷ t))
    → q.end ≤ r.end
same_end lo r q s t left right start same =
    ground (arith, same r.end, before_first (suc r.end) r.end s left.2)

same_seg_path : (r q : RangeSeg) → r.start ≡ q.start → r.end ≡ q.end → r ≡ q
same_seg_path r q p e = ap₂ (λ (a b : ℕ). let s : RangeSeg = record { start = a; end = b } in s) p e

apart_unique :
    (lo : ℕ) (s t : List RangeSeg)
    → IsApart lo s
    → IsApart lo t
    → ((x : ℕ) → is_free x s ≡ is_free x t)
    → s ≡ t
apart_unique lo [] [] left right same = refl
apart_unique lo [] (q ∷ t) left right same = absurd (ground (arith, same q.start))
apart_unique lo (r ∷ s) [] left right same = absurd (ground (arith, same r.start))
apart_unique lo (r ∷ s) (q ∷ t) left right same =
    let back = λ (x : ℕ). sym (same x) in
    let ge = same_start lo q r t s right left back in
    let le = same_start lo r q s t left right same in
    let start : r.start ≡ q.start = omega (arith, le, ge) in
    let end : r.end ≡ q.end = omega (
      arith,
      same_end lo r q s t left right start same,
      same_end lo q r t s right left (sym start) back,
    ) in
    ap₂ (◌∷◌) (same_seg_path r q start end) (
      apart_unique (suc r.end) s t left.2 (subst (λ e. IsApart (suc e) t) (sym end) right.2) (λ x.
        ground (
          arith,
          same x,
          start,
          end,
          before_first (suc r.end) x s left.2,
          before_first (suc q.end) x t right.2,
        )))

-- Pieces that are apart from each other and from a set become part of it.
not_longer :
    (off len lo : ℕ) (m : IntervalSet)
    → IsSpaced lo m
    → 0 < len
    → holds off m ≡ false
    → NoneLonger off (off + len) m
not_longer off len lo [] spaced pos free = tt
not_longer off len lo ((first, second) ∷ t) spaced pos free = (
  ground (arith, free),
  not_longer off len (suc (first + second)) t spaced.2 pos (ground (arith, free)),
)

abbrev held_bit : ℕ → IntervalSet → ℕ
held_bit x m = if holds x m then 1 else 0

insert_piece :
    (x : ℕ) (m : IntervalSet) (off len : ℕ)
    → IsSpaced 0 m
    → (0 < len → holds off m ≡ false)
    → IsSpaced 0 (insert m off len)
      × (holds x (insert m off len) ≡ ((leb off x && ltb x (off + len)) || holds x m))
unfolding insert
insert_piece x m off len spaced free = elim (Bool-cases (len == 0)) [
  | inl empty ↦ rw (insert, empty) (spaced, ground (arith, empty))
  | inr full ↦
      let pos : 0 < len = ground (arith, full) in
      insert-holds x m off len spaced (not_longer off len 0 m spaced pos (free pos))
]

release_set-holds :
    (m : IntervalSet) (v : List PExtent)
    → IsSpaced 0 m
    → ((x : ℕ) → held_bit x m + covers x v ≤ 1)
    → IsSpaced 0 (release_set m v)
      × ((x : ℕ) → held_bit x (release_set m v) ≡ held_bit x m + covers x v)
unfolding release_set
release_set-holds m [] spaced apart = (spaced, λ x. omega arith)
release_set-holds m (e ∷ v) spaced apart =
    let put = λ (x : ℕ).
      insert_piece x m e.offset e.length spaced (λ pos. ground (arith, apart e.offset, pos)) in
    let rest =
      release_set-holds (insert m e.offset e.length) v (put 0).0
        (λ x. ground (arith, apart x, (put x).1)) in
    (rest.0, λ x. ground (arith, rest.1 x, (put x).1, apart x))

IsWithin-device :
    (d lo : ℕ) (m : IntervalSet)
    → IsSpaced lo m
    → ((x : ℕ) → holds x m ≡ true → x < d)
    → IsWithin d m
IsWithin-device d lo [] spaced inside = tt
IsWithin-device d lo ((first, second) ∷ t) spaced inside =
    let last = first + second - 1 in
    (
      ground (arith, inside last),
      IsWithin-device d (suc (first + second)) t spaced.2
          (λ x held. inside x (ground (arith, held))),
    )

free_in_device : (d x : ℕ) (t : List RangeSeg) → IsBelow d t → is_free x t ≡ true → x < d
free_in_device d x [] below free = absurd (ground arith)
free_in_device d x (r ∷ t) below free = ground (arith, free, free_in_device d x t below.1)

-- What was served and is given back leaves the ranges as they were.
Served-back :
    (a : AvlAllocator) (want unit max_alloc_size : ℕ) (r : AvlAllocator × ℕ × List PExtent)
    → IsAvl a
    → Served a want unit max_alloc_size 0 r
    → ((release r.0 (release_set [] r.2)).trees.range_tree ≡ a.trees.range_tree)
      × ((release r.0 (release_set [] r.2)).trees.num_free ≡ a.trees.num_free)
Served-back a want unit max_alloc_size r avl served =
    let set = release_set [] r.2 in
    let made = release_set-holds [] r.2 tt (λ x. ground (arith, served.bytes x)) in
    let was_free = λ (x : ℕ) (held : holds x set ≡ true).
      (let e : is_free x a.trees.range_tree ≡ true =
          ground (arith, made.1 x, served.bytes x, held) in
        e) in
    let back =
      release-Released 0 r.0 set served.sound made.0
        (subst (λ d. IsWithin d set) (sym served.same_device)
          (IsWithin-device a.device_size 0 set made.0 (λ x held.
            free_in_device a.device_size x a.trees.range_tree avl.below (was_free x held))))
        (λ x held. ground (arith, made.1 x, served.bytes x, held)) in
    let trees =
      apart_unique 0 (release r.0 set).trees.range_tree a.trees.range_tree back.sound.sound.apart
        avl.sound.apart (λ x. ground (arith, back.bytes x, made.1 x, served.bytes x)) in
    (trees, back.sound.sound.counted ∙ ap total trees ∙ sym avl.sound.counted)

-- In a sound AVL allocator without a memory limit, with a unit and a block size that are powers of
-- two (the block size below 2^32), a size above 0, and the sum of device size, unit and size below
-- 2^64: releasing the vector of pieces that allocate returned brings the ranges by offset and the
-- count of free bytes back to what they were.
pub release-allocate :
    (k w j v : ℕ) (a : AvlAllocator) (want max_alloc_size : ℕ)
    → k + w ≡ 64
    → j + v ≡ 64
    → 2 ^ j ≤ extent_cap
    → a.block_size ≡ 2 ^ j
    → IsAvl a
    → 0 < want
    → a.device_size + 2 ^ k + want < u64
    → ((release
          (allocate a want (2 ^ k) max_alloc_size).0
          (release_set [] (allocate a want (2 ^ k) max_alloc_size).2)).trees.range_tree
        ≡ a.trees.range_tree)
      × ((release
            (allocate a want (2 ^ k) max_alloc_size).0
            (release_set [] (allocate a want (2 ^ k) max_alloc_size).2)).trees.num_free
          ≡ a.trees.num_free)
release-allocate k w j v a want max_alloc_size unit_sum block_sum small block avl pos fits =
    Served-back a want (2 ^ k) (capped a.block_size want max_alloc_size)
      (allocate a want (2 ^ k) max_alloc_size) avl
      (allocate-Served k w j v a want max_alloc_size unit_sum block_sum small block avl pos fits)
