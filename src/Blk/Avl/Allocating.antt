-- ===== src/Blk/Avl/Allocating.antt =====
-- blk/avl_allocator.h and blk/avl_allocator.cc: the allocator without a memory limit, its
-- allocation and the other operations that it offers.
use clab.Prelude.{
  ℕ, zero, suc, ◌+◌, ◌-◌, ◌*◌, ◌/◌, ◌%◌, ◌^◌, min, bit_and, ◌||◌, Option, none, some, List, [], ◌∷◌,
  ltb, leb, ◌==◌, if◌then◌else◌,
}
use clab.Common.Intarith.{u64, p2align, neg64, cbits}
use clab.Blk.Allocator.{PExtent, Allocator}
use clab.Blk.Avl.{RangeSeg, AvlTrees, seg_length, add_to_tree}
use clab.Blk.Avl.Removal.{remove_from_tree}
use clab.Blk.Avl.Pick.{
  pick_block_after, pick_block_fits, range_size_alloc_threshold, range_size_alloc_free_pct,
}

-- `lbas_` as a function from the index; `unspecified` is what the search reads at `end()`.
pub record AvlAllocator : Type 0 where
  pub trees : AvlTrees
  pub lbas : ℕ → ℕ
  pub device_size : ℕ
  pub block_size : ℕ
  pub unspecified : ℕ

-- The constructor.
abbrev pub new_avl : ℕ → ℕ → ℕ → AvlAllocator
new_avl device_size block_size unspecified = record {
  trees = record { range_tree = []; size_tree = []; num_free = 0 };
  lbas = λ i. 0;
  device_size = device_size;
  block_size = block_size;
  unspecified = unspecified;
}

-- The length of `range_size_tree_.rbegin()`, 0 when there is none.
abbrev pub max_size : List RangeSeg → ℕ
max_size [] = 0
max_size (r ∷ []) = seg_length r
max_size (r ∷ s ∷ t) = max_size (s ∷ t)

abbrev pub set_cursor : ℕ → ℕ → (ℕ → ℕ) → ℕ → ℕ
set_cursor i cursor lbas j = if j == i then cursor else lbas j

-- The do loop: halve the size until a node fits or the size is below the unit. 64 rounds are enough
-- for a word.
unfoldable pub halve_until_fits : ℕ → List RangeSeg → ℕ → ℕ → Option (ℕ × ℕ)
unfolding pick_block_fits p2align
halve_until_fits zero nodes size unit = none
halve_until_fits (suc fuel) nodes size unit =
    let next = p2align (size / 2) unit in
    let rest = halve_until_fits fuel nodes next unit in
    elim (pick_block_fits nodes size unit) [
      | some offset ↦ some (offset, size)
      | none ↦ if leb unit next then rest else none
    ]

-- The first search, for the index of the cursor that stands for the alignment of the size.
abbrev pub cursor_index : ℕ → ℕ
cursor_index size = cbits (bit_and size (neg64 size)) - 1

-- `int free_pct`
abbrev pub free_pct : AvlAllocator → ℕ
free_pct a = (a.trees.num_free * 100) % u64 / a.device_size

abbrev pub with_cursors : (ℕ → ℕ) → Option (ℕ × ℕ) → Option (ℕ × ℕ × (ℕ → ℕ))
with_cursors lbas none = none
with_cursors lbas (some found) = some (found.0, found.1, lbas)

abbrev pub by_size : AvlAllocator → ℕ → ℕ → Option (ℕ × ℕ × (ℕ → ℕ))
by_size a size unit = with_cursors a.lbas (halve_until_fits 64 a.trees.size_tree size unit)

abbrev pub by_cursor : AvlAllocator → ℕ → ℕ → Option ℕ → Option (ℕ × ℕ × (ℕ → ℕ))
by_cursor a size unit none = by_size a size unit
by_cursor a size unit (some offset) =
    some (offset, size, set_cursor (cursor_index size) ((offset + size) % u64) a.lbas)

-- _allocate_single up to the removal: where the piece is, how long it is, and the cursors after the
-- search; `none` is -ENOSPC.
unfoldable pub choose : AvlAllocator → ℕ → ℕ → Option (ℕ × ℕ × (ℕ → ℕ))
unfolding pick_block_after halve_until_fits p2align neg64 cbits
choose a size unit =
    let largest = max_size a.trees.size_tree in
    if ltb largest size
    then (if ltb largest unit then none else by_size a (p2align largest unit) unit)
    else (if ltb largest range_size_alloc_threshold || ltb (free_pct a) range_size_alloc_free_pct
        then by_size a size unit
        else by_cursor a size unit (
            pick_block_after a.unspecified a.trees.range_tree (a.lbas (cursor_index size)) size
              unit))

abbrev pub taken_out : AvlAllocator → Option (ℕ × ℕ × (ℕ → ℕ)) → AvlAllocator × Option (ℕ × ℕ)
taken_out a none = (a, none)
taken_out a (some (offset, length, lbas)) = (
  record a { trees = (remove_from_tree a.trees offset length).0; lbas = lbas },
  some (offset, length),
)

-- AvlAllocator::_allocate_single
unfoldable pub allocate_single : AvlAllocator → ℕ → ℕ → AvlAllocator × Option (ℕ × ℕ)
unfolding choose remove_from_tree
allocate_single a size unit = taken_out a (choose a size unit)

abbrev pub push_extent : ℕ → ℕ → AvlAllocator × ℕ × List PExtent → AvlAllocator × ℕ × List PExtent
push_extent offset length rest =
    (rest.0, rest.1, record { offset = offset; length = length % 2 ^ 32 } ∷ rest.2)

-- The loop of _allocate. Each round takes a byte at least, so that `want` rounds are enough.
unfoldable pub allocate_loop : ℕ → AvlAllocator → ℕ → ℕ → ℕ → ℕ → AvlAllocator × ℕ × List PExtent
unfolding allocate_single
allocate_loop zero a want unit max_alloc_size allocated = (a, allocated, [])
allocate_loop (suc fuel) a want unit max_alloc_size allocated =
    let next = allocate_single a (min max_alloc_size (want - allocated)) unit in
    if ltb allocated want
    then elim next.1 [
      | none ↦ (next.0, allocated, [])
      | some piece ↦
          push_extent piece.0 piece.1
            (allocate_loop fuel next.0 want unit max_alloc_size (allocated + piece.1))
    ]
    else (a, allocated, [])

abbrev pub extent_cap : ℕ
extent_cap = 2 ^ 32 - 1

-- The largest piece that `allocate` goes on with.
abbrev pub capped : ℕ → ℕ → ℕ → ℕ
capped block_size want max_alloc_size =
    let asked = if max_alloc_size == 0 then want else max_alloc_size in
    if leb extent_cap asked then p2align extent_cap block_size else asked

-- AvlAllocator::allocate, with 0 for -ENOSPC.
unfoldable pub allocate : AvlAllocator → ℕ → ℕ → ℕ → AvlAllocator × ℕ × List PExtent
unfolding allocate_loop p2align
allocate a want unit max_alloc_size =
    allocate_loop want a want unit (capped a.block_size want max_alloc_size) 0

-- AvlAllocator::init_add_free
unfoldable pub init_add_free : AvlAllocator → ℕ → ℕ → AvlAllocator
unfolding add_to_tree
init_add_free a offset length =
    if length == 0 then a else record a { trees = add_to_tree a.trees offset length }

-- AvlAllocator::init_rm_free
unfoldable pub init_rm_free : AvlAllocator → ℕ → ℕ → AvlAllocator
unfolding remove_from_tree
init_rm_free a offset length =
    if length == 0 then a else record a { trees = (remove_from_tree a.trees offset length).0 }

-- AvlAllocator::release, for the intervals of the set.
unfoldable pub release : AvlAllocator → List (ℕ × ℕ) → AvlAllocator
unfolding add_to_tree
release a [] = a
release a ((offset, length) ∷ set) =
    release (record a { trees = add_to_tree a.trees offset length }) set

abbrev pub get_free : AvlAllocator → ℕ
get_free a = a.trees.num_free

-- AvlAllocator::shutdown
abbrev pub shutdown : AvlAllocator → AvlAllocator
shutdown a = record a { trees = record { range_tree = []; size_tree = []; num_free = 0 } }

-- What the extent map calls.
unfoldable pub avl_allocator : Allocator AvlAllocator
unfolding allocate release init_add_free init_rm_free
avl_allocator = record {
  allocate = allocate;
  release = release;
  init_add_free = init_add_free;
  init_rm_free = init_rm_free;
  get_free = get_free;
  get_capacity = λ a. a.device_size;
}
