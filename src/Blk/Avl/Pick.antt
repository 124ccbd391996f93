-- ===== src/Blk/Avl/Pick.antt =====
-- blk/avl_allocator.cc: _pick_block_after and _pick_block_fits, for the values
-- that the constructor gives the limits of the searches. An offset of
-- -1ULL, which says that nothing was found, is `none`.
use clab.Prelude.{
  ℕ, suc, ◌+◌, ◌-◌, ◌*◌, ◌%◌, Bool, Option, none, some, List, [], ◌∷◌, ltb, leb, ◌==◌,
  if◌then◌else◌,
}
use clab.Common.Intarith.{u64, p2roundup}
use clab.Blk.Avl.{RangeSeg, seg_length}

abbrev pub max_search_count : ℕ
max_search_count = 100

abbrev pub max_search_bytes : ℕ
max_search_bytes = 16 * 1024 * 1024

abbrev pub range_size_alloc_threshold : ℕ
range_size_alloc_threshold = 128 * 1024

abbrev pub range_size_alloc_free_pct : ℕ
range_size_alloc_free_pct = 4

-- How a loop over the nodes ends: at an offset, at a limit, or at the end of its nodes with the
-- counts so far.
pub data Search : Type 0 where
  found : ℕ → Search
  given_up : Search
  exhausted : ℕ → ℕ → Search

-- The size fits at the offset that the start of the node is rounded up to.
abbrev pub fits_in : ℕ → ℕ → RangeSeg → Bool
fits_in size align r = leb ((p2roundup r.start align + size) % u64) r.end

-- The first loop, from the node `rs_start`, whose start is `first`.
unfoldable pub search_on : ℕ → ℕ → ℕ → List RangeSeg → ℕ → ℕ → Search
search_on size align first [] search_count search_bytes = exhausted search_count search_bytes
search_on size align first (r ∷ t) search_count search_bytes =
    let rest = search_on size align first t (suc search_count) (r.start - first) in
    if fits_in size align r
    then found (p2roundup r.start align)
    else (if ltb max_search_count (suc search_count)
        then given_up
        else (if ltb max_search_bytes (r.start - first) then given_up else rest))

-- The second loop, from the first node to before `rs_start`.
unfoldable pub search_front : ℕ → ℕ → ℕ → List RangeSeg → ℕ → ℕ → Search
search_front size align first [] search_count search_bytes = exhausted search_count search_bytes
search_front size align first (r ∷ t) search_count search_bytes =
    let rest = search_front size align first t (suc search_count) search_bytes in
    if fits_in size align r
    then found (p2roundup r.start align)
    else (if ltb max_search_count (suc search_count)
        then given_up
        else (if ltb max_search_bytes ((search_bytes + (first + u64 - r.start)) % u64)
            then given_up
            else rest))

-- `lower_bound` at the cursor: the nodes that end at it or before, and the rest.
unfoldable pub nodes_before : ℕ → List RangeSeg → List RangeSeg
nodes_before cursor [] = []
nodes_before cursor (r ∷ t) =
    let rest = nodes_before cursor t in if leb r.end cursor then r ∷ rest else []

unfoldable pub nodes_from : ℕ → List RangeSeg → List RangeSeg
nodes_from cursor [] = []
nodes_from cursor (r ∷ t) =
    let rest = nodes_from cursor t in if leb r.end cursor then rest else r ∷ t

-- `rs_start->start`. The second loop reads it at `end()` as well, where C++ gives it no value: this
-- is `unspecified`.
abbrev pub first_start : ℕ → List RangeSeg → ℕ
first_start unspecified [] = unspecified
first_start unspecified (r ∷ t) = r.start

abbrev pub offset_of : Search → Option ℕ
offset_of (found o) = some o
offset_of given_up = none
offset_of (exhausted c b) = none

abbrev pub search_again : ℕ → ℕ → ℕ → ℕ → List RangeSeg → Search → Option ℕ
search_again size align cursor first front (found o) = some o
search_again size align cursor first front given_up = none
search_again size align cursor first front (exhausted search_count search_bytes) =
    if cursor == 0
    then none
    else offset_of (search_front size align first front search_count search_bytes)

-- AvlAllocator::_pick_block_after; its caller moves the cursor behind what was found.
unfoldable pub pick_block_after : ℕ → List RangeSeg → ℕ → ℕ → ℕ → Option ℕ
unfolding search_on search_front nodes_before nodes_from
pick_block_after unspecified tree cursor size align =
    let first = first_start unspecified (nodes_from cursor tree) in
    search_again size align cursor first (nodes_before cursor tree)
      (search_on size align first (nodes_from cursor tree) 0 0)

-- AvlAllocator::_pick_block_fits, on the nodes by size.
unfoldable pub fits_from : ℕ → ℕ → List RangeSeg → ℕ → Option ℕ
fits_from size align [] search_count = none
fits_from size align (r ∷ t) search_count =
    let rest = fits_from size align t (suc search_count) in
    if ltb max_search_count (suc search_count)
    then none
    else (if fits_in size align r then some (p2roundup r.start align) else rest)

unfoldable pub pick_block_fits : List RangeSeg → ℕ → ℕ → Option ℕ
unfolding fits_from
pick_block_fits [] size align = none
pick_block_fits (r ∷ t) size align =
    let rest = pick_block_fits t size align in
    if ltb (seg_length r) size then rest else fits_from size align (r ∷ t) 0
