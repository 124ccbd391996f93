-- ===== src/Blk/Avl/Searching.antt =====
-- The searches of blk/avl_allocator.cc: what they find lies in a free range.
use clab.Prelude.{
  ℕ, suc, ◌+◌, ◌-◌, ◌%◌, ◌^◌, ◌≤◌, ◌<◌, ◌≡◌, refl, inl, inr, true, Option, none, some, List, [],
  ◌∷◌, arith, ltb, ◌==◌, Bool-cases,
}
use native.Mathlib.Nat.{mod-eq_of_lt}
use clab.Common.Intarith.{u64, p2roundup}
use clab.Common.Intarith.Powers.{p2roundup-power}
use clab.Blk.Avl.{RangeSeg, seg_length, same_seg}
use clab.Blk.Avl.Adding.{IsApart, count, is_free}
use clab.Blk.Avl.Removing.{IsBelow}
use clab.Blk.Avl.Pick.{
  Search, found, given_up, exhausted, fits_in, search_on, search_front, nodes_before, nodes_from,
  first_start, offset_of, search_again, pick_block_after, fits_from, pick_block_fits,
  max_search_count, max_search_bytes,
}

-- The offset is the start of a node of the list, rounded up, and the size fits in the node there.
abbrev pub FoundIn : ℕ → ℕ → List RangeSeg → ℕ → Type 0
FoundIn size align t o =
    (r : RangeSeg) × (0 < count r t) × (fits_in size align r ≡ true) × (o ≡ p2roundup r.start align)

abbrev pub Finds : ℕ → ℕ → List RangeSeg → Option ℕ → Type 0
Finds size align t none = Unit {0}
Finds size align t (some o) = FoundIn size align t o

-- What is found in some of the nodes is found in all of them.
Finds-more :
    (size align : ℕ) (s t : List RangeSeg) (o : Option ℕ)
    → ((q : RangeSeg) → count q s ≤ count q t)
    → Finds size align s o
    → Finds size align t o
Finds-more size align s t none more f = tt
Finds-more size align s t (some o) more f = (f.0, omega (arith, f.1, more f.0), f.2, f.3)

same_self : (r : RangeSeg) → same_seg r r ≡ true
same_self r = ground arith

first-Finds :
    (size align : ℕ) (r : RangeSeg) (t : List RangeSeg)
    → fits_in size align r ≡ true
    → Finds size align (r ∷ t) (some (p2roundup r.start align))
first-Finds size align r t fits = (r, ground (arith, same_self r), fits, refl)

rest-Finds :
    (size align : ℕ) (r : RangeSeg) (t : List RangeSeg) (o : Option ℕ)
    → Finds size align t o
    → Finds size align (r ∷ t) o
rest-Finds size align r t o f = Finds-more size align t (r ∷ t) o (λ q. omega arith) f

search_on-Finds :
    (size align first : ℕ) (t : List RangeSeg) (c b : ℕ)
    → Finds size align t (offset_of (search_on size align first t c b))
unfolding search_on
search_on-Finds size align first [] c b = tt
search_on-Finds size align first (r ∷ t) c b = elim (Bool-cases (fits_in size align r)) [
  | inl fits ↦ rw (search_on, fits) (first-Finds size align r t fits)
  | inr miss ↦ elim (Bool-cases (ltb max_search_count (suc c))) [
    | inl stop ↦ rw (search_on, miss, stop) tt
    | inr on ↦ elim (Bool-cases (ltb max_search_bytes (r.start - first))) [
      | inl stop ↦ rw (search_on, miss, on, stop) tt
      | inr further ↦
          rw (search_on, miss, on, further)
            (rest-Finds size align r t
              (offset_of (search_on size align first t (suc c) (r.start - first)))
              (search_on-Finds size align first t (suc c) (r.start - first)))
    ]
  ]
]

search_front-Finds :
    (size align first : ℕ) (t : List RangeSeg) (c b : ℕ)
    → Finds size align t (offset_of (search_front size align first t c b))
unfolding search_front
search_front-Finds size align first [] c b = tt
search_front-Finds size align first (r ∷ t) c b = elim (Bool-cases (fits_in size align r)) [
  | inl fits ↦ rw (search_front, fits) (first-Finds size align r t fits)
  | inr miss ↦ elim (Bool-cases (ltb max_search_count (suc c))) [
    | inl stop ↦ rw (search_front, miss, stop) tt
    | inr on ↦ elim (Bool-cases (ltb max_search_bytes ((b + (first + u64 - r.start)) % u64))) [
      | inl stop ↦ rw (search_front, miss, on, stop) tt
      | inr further ↦
          rw (search_front, miss, on, further)
            (rest-Finds size align r t (offset_of (search_front size align first t (suc c) b))
              (search_front-Finds size align first t (suc c) b))
    ]
  ]
]

count-nodes :
    (cursor : ℕ) (q : RangeSeg) (t : List RangeSeg)
    → count q (nodes_before cursor t) + count q (nodes_from cursor t) ≡ count q t
unfolding nodes_before nodes_from
count-nodes cursor q [] = refl
count-nodes cursor q (r ∷ t) = ground (arith, count-nodes cursor q t)

search_again-Finds :
    (size align cursor first : ℕ) (t : List RangeSeg) (s : Search)
    → Finds size align t (offset_of s)
    → Finds size align t (search_again size align cursor first (nodes_before cursor t) s)
search_again-Finds size align cursor first t (found o) f = f
search_again-Finds size align cursor first t given_up f = tt
search_again-Finds size align cursor first t (exhausted c b) f = elim (Bool-cases (cursor == 0)) [
  | inl at_start ↦ rw (search_again, at_start) tt
  | inr later ↦
      rw (search_again, later)
        (Finds-more size align (nodes_before cursor t) t
          (offset_of (search_front size align first (nodes_before cursor t) c b))
          (λ q. omega (arith, count-nodes cursor q t))
          (search_front-Finds size align first (nodes_before cursor t) c b))
]

pub pick_block_after-Finds :
    (unspecified : ℕ) (t : List RangeSeg) (cursor size align : ℕ)
    → Finds size align t (pick_block_after unspecified t cursor size align)
unfolding pick_block_after
pick_block_after-Finds unspecified t cursor size align =
    let first = first_start unspecified (nodes_from cursor t) in
    let s = search_on size align first (nodes_from cursor t) 0 0 in
    search_again-Finds size align cursor first t s (
      Finds-more size align (nodes_from cursor t) t (offset_of s)
        (λ q. omega (arith, count-nodes cursor q t))
        (search_on-Finds size align first (nodes_from cursor t) 0 0))

fits_from-Finds :
    (size align : ℕ) (t : List RangeSeg) (c : ℕ) → Finds size align t (fits_from size align t c)
unfolding fits_from
fits_from-Finds size align [] c = tt
fits_from-Finds size align (r ∷ t) c = elim (Bool-cases (ltb max_search_count (suc c))) [
  | inl stop ↦ rw (fits_from, stop) tt
  | inr on ↦ elim (Bool-cases (fits_in size align r)) [
    | inl fits ↦ rw (fits_from, on, fits) (first-Finds size align r t fits)
    | inr miss ↦
        rw (fits_from, on, miss)
          (rest-Finds size align r t (fits_from size align t (suc c))
            (fits_from-Finds size align t (suc c)))
  ]
]

pub pick_block_fits-Finds :
    (t : List RangeSeg) (size align : ℕ) → Finds size align t (pick_block_fits t size align)
unfolding pick_block_fits
pick_block_fits-Finds [] size align = tt
pick_block_fits-Finds (r ∷ t) size align = elim (Bool-cases (ltb (seg_length r) size)) [
  | inl short ↦
      rw (pick_block_fits, short)
        (rest-Finds size align r t (pick_block_fits t size align)
          (pick_block_fits-Finds t size align))
  | inr long ↦ rw (pick_block_fits, long) (fits_from-Finds size align (r ∷ t) 0)
]

-- Some range of the tree holds every byte from `start` to `end`.
abbrev pub IsInside : ℕ → ℕ → List RangeSeg → Type 0
IsInside start end t = (x : ℕ) → start ≤ x → x < end → is_free x t ≡ true

node_bounds :
    (lo d : ℕ) (q : RangeSeg) (t : List RangeSeg)
    → IsApart lo t
    → IsBelow d t
    → 0 < count q t
    → (q.start < q.end) × (q.end ≤ d) × ((x : ℕ) → q.start ≤ x → x < q.end → is_free x t ≡ true)
node_bounds lo d q [] apart below hit = absurd (omega arith)
node_bounds lo d q (r ∷ t) apart below hit = elim (Bool-cases (same_seg r q)) [
  | inl same ↦ (ground (arith, same), ground (arith, same), λ x from to. ground (arith, same))
  | inr other ↦
      let rest = node_bounds (suc r.end) d q t apart.2 below.1 (ground (arith, other)) in
      (rest.0, rest.1, λ x from to. ground (arith, rest.2 x from to))
]

-- What a search finds is free, when no sum leaves the word.
pub FoundIn-IsInside :
    (k w d size o : ℕ) (s t : List RangeSeg)
    → k + w ≡ 64
    → d + 2 ^ k + size < u64
    → IsApart 0 t
    → IsBelow d t
    → ((q : RangeSeg) → count q s ≡ count q t)
    → FoundIn size (2 ^ k) s o
    → (o + size ≤ d) × IsInside o (o + size) t
FoundIn-IsInside k w d size o s t sum fits apart below same f =
    let r = f.0 in
    let bounds = node_bounds 0 d r t apart below (omega (arith, f.1, same r)) in
    let up = p2roundup-power k w r.start sum (omega (arith, bounds.0, bounds.1)) in
    let whole : (p2roundup r.start (2 ^ k) + size) % u64 ≡ p2roundup r.start (2 ^ k) + size =
      mod-eq_of_lt (omega (arith, up.0, up.1, bounds.0, bounds.1)) in
    let room : o + size ≤ r.end = ground (arith, f.2, f.3, whole) in
    (
      omega (arith, room, bounds.1),
      λ x from to. bounds.2 x (omega (arith, up.0, f.3, from)) (omega (arith, to, room)),
    )
