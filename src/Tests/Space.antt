-- ===== src/Tests/Space.antt =====
-- Allocation and deferred frees of btier/extent_map.cc over an allocator that counts bytes.
use clab.Prelude.{ℕ, ◌+◌, ◌-◌, refl, false, [], ◌∷◌, some}
use clab.Prelude.Assoc.{find}
use clab.Blk.Allocator.{Allocator}
use clab.Btier.Types.{Tier}
use clab.Btier.ExtentMap.{ExtentMap, DeferredFree}
use clab.Btier.ExtentMap.Space.{allocate_extent}
use clab.Btier.ExtentMap.Space.Fresh.{IsFresh, Gives, allocate_extent-IsFresh}

-- An allocator whose state is the number of bytes given out, from the start of the device.
abbrev counting : Allocator ℕ
counting = record {
  allocate = λ a want unit max. (a + want, want, (record { offset = a; length = want } ∷ []));
  release = λ a set. a;
  init_add_free = λ a off len. a;
  init_rm_free = λ a off len. a;
  get_free = λ a. 1048576 - a;
  get_capacity = λ a. 1048576;
}

abbrev queued : DeferredFree
queued = record {
  loc = record { offset = 65536; length = 4096; tier = Tier.slow };
  added_at_seqno = 6;
}

abbrev recently_queued : DeferredFree
recently_queued = record queued { added_at_seqno = 7 }

abbrev two_tiers : ExtentMap ℕ
two_tiers = record {
  block_size = 4096;
  entries = [];
  next_extent_id = 1;
  allocators = record { on_fast = some 0; on_slow = some 131072 };
  has_device = record { on_fast = false; on_slow = false };
  free_lists = record { on_fast = []; on_slow = [] };
  deferred_free = queued ∷ recently_queued ∷ [];
  seqno = 7;
  dirty_headers = [];
  header_writes = [];
}

two_tiers-IsFresh : IsFresh two_tiers
unfolding find
two_tiers-IsFresh id le = refl

allocate_extent-IsFresh_example :
    IsFresh (allocate_extent counting two_tiers Tier.fast 10000).0
    × Gives two_tiers
        (allocate_extent counting two_tiers Tier.fast 10000).0
        1
        (allocate_extent counting two_tiers Tier.fast 10000).1
allocate_extent-IsFresh_example =
    allocate_extent-IsFresh counting two_tiers Tier.fast 10000 1 two_tiers-IsFresh
