-- ===== src/Btier/ExtentMap.antt =====
-- btier/extent_map.h and the state of btier/extent_map.cc, with its helpers. Every method runs
-- under the locks it needs, so a method is one step; the compare-and-swap loops succeed at once.
pub mod Slots
pub mod Space
pub mod Migration
pub mod Recovery
use clab.Prelude.{
  ℕ, ◌+◌, ◌-◌, ◌%◌, ◌^◌, min, Bool, true, false, not, ◌&&◌, ◌||◌, List, [], ◌∷◌, ◌++◌, Option, none,
  some, length, ltb, leb, ◌==◌, if◌then◌else◌, nat_eq,
}
use clab.Prelude.Assoc.{find, insert}
use clab.Btier.Types.{
  Tier, tier_byte, DiskLocation, IoOp, header_size, pack, access_count, write_count, randomness,
  state, generation,
}

-- uint32_t sums and differences
abbrev pub add32 : ℕ → ℕ → ℕ
add32 a b = (a + b) % 2 ^ 32

abbrev pub sub32 : ℕ → ℕ → ℕ
sub32 a b = (a + 2 ^ 32 - b) % 2 ^ 32

abbrev pub uint32_max : ℕ
uint32_max = 0xFFFF_FFFF

abbrev pub uint64_max : ℕ
uint64_max = 0xFFFF_FFFF_FFFF_FFFF

pub record ExtentEntry : Type 0 where
  pub raw : ℕ
  pub last_access_time : ℕ
  pub location : DiskLocation
  pub used_bytes : ℕ
  pub live_bytes : ℕ
  pub io_refs : ℕ

-- `std::make_shared<ExtentEntry>(loc)`
abbrev pub new_entry : DiskLocation → ExtentEntry
new_entry loc = record {
  raw = 0;
  last_access_time = 0;
  location = loc;
  used_bytes = 0;
  live_bytes = 0;
  io_refs = 0;
}

-- The fields that differ in the headers that are written; `magic`, `reserved` and `crc` follow.
pub record ExtentHeader : Type 0 where
  pub extent_id : ℕ
  pub length : ℕ
  pub used_bytes : ℕ
  pub live_bytes : ℕ
  pub generation : ℕ

-- A write of a header to the device of a tier.
pub record HeaderWrite : Type 0 where
  pub tier : Tier
  pub offset : ℕ
  pub header : ExtentHeader

pub record DeferredFree : Type 0 where
  pub loc : DiskLocation
  pub added_at_seqno : ℕ

-- A value for each tier: the arrays of length two. An index past them is undefined behaviour; the
-- model reads the given default and writes nothing.
pub record PerTier {ℓ} (B : Type ℓ) : Type ℓ where
  pub on_fast : B
  pub on_slow : B

module _ {ℓ} {B : Type ℓ} where
  abbrev pub of_tier : PerTier B → Tier → B → B
  of_tier p Tier.fast d = p.on_fast
  of_tier p Tier.slow d = p.on_slow
  of_tier p (Tier.other b) d = d

  abbrev pub with_tier : PerTier B → Tier → B → PerTier B
  with_tier p Tier.fast v = record p { on_fast = v }
  with_tier p Tier.slow v = record p { on_slow = v }
  with_tier p (Tier.other b) v = p

-- ExtentFreeEntry: the free bytes, then the extent id; std::set keeps them in that order.
abbrev pub FreeList : Type 0
FreeList = List (ℕ × ℕ)

abbrev pub free_less : ℕ × ℕ → ℕ × ℕ → Bool
free_less (a, i) (b, j) = ltb a b || ((a == b) && ltb i j)

abbrev pub free_same : ℕ × ℕ → ℕ × ℕ → Bool
free_same (a, i) (b, j) = (a == b) && (i == j)

unfoldable pub free_insert : ℕ × ℕ → FreeList → FreeList
free_insert x [] = x ∷ []
free_insert x (y ∷ ys) =
    let rest = free_insert x ys in
    if free_less x y then x ∷ y ∷ ys else if free_less y x then y ∷ rest else y ∷ ys

pub free_erase : ℕ × ℕ → FreeList → FreeList
free_erase x [] = []
free_erase x (y ∷ ys) = let rest = free_erase x ys in if free_same x y then ys else y ∷ rest

-- `list.lower_bound(x)` to the end.
pub free_from : ℕ × ℕ → FreeList → FreeList
free_from x [] = []
free_from x (y ∷ ys) = let rest = free_from x ys in if free_less y x then rest else y ∷ ys

-- std::set<uint64_t>
pub id_insert : ℕ → List ℕ → List ℕ
id_insert x [] = x ∷ []
id_insert x (y ∷ ys) =
    let rest = id_insert x ys in
    if ltb x y then x ∷ y ∷ ys else if ltb y x then y ∷ rest else y ∷ ys

pub record ExtentMap (A : Type 0) : Type 0 where
  pub block_size : ℕ
  pub entries : List (ℕ × ExtentEntry)
  pub next_extent_id : ℕ
  pub allocators : PerTier (Option A)
  pub has_device : PerTier Bool
  pub free_lists : PerTier FreeList
  pub deferred_free : List DeferredFree
  pub seqno : ℕ
  pub dirty_headers : List ℕ
  -- what was written to the devices, oldest first
  pub header_writes : List HeaderWrite

-- ExtentMap::ExtentMap
unfoldable pub construct : {A : Type 0} → ℕ → ExtentMap A
construct block_size = record {
  block_size = block_size;
  entries = [];
  next_extent_id = 1;
  allocators = record { on_fast = none; on_slow = none };
  has_device = record { on_fast = false; on_slow = false };
  free_lists = record { on_fast = []; on_slow = [] };
  deferred_free = [];
  seqno = 0;
  dirty_headers = [];
  header_writes = [];
}

module _ {A : Type 0} where
  abbrev pub lookup : ExtentMap A → ℕ → Option ExtentEntry
  lookup m id = find id m.entries

  -- A write through the shared pointer.
  abbrev pub store : ExtentMap A → ℕ → ExtentEntry → ExtentMap A
  store m id e = record m { entries = insert id e m.entries }

  abbrev pub mark_dirty : ExtentMap A → ℕ → ExtentMap A
  mark_dirty m id = record m { dirty_headers = id_insert id m.dirty_headers }

  abbrev pub add_deferred_free : ExtentMap A → DiskLocation → ExtentMap A
  add_deferred_free m loc = record m {
    deferred_free = m.deferred_free ++ (record { loc = loc; added_at_seqno = m.seqno } ∷ []);
  }

  abbrev pub change_free_list : ExtentMap A → Tier → (FreeList → FreeList) → ExtentMap A
  change_free_list m tier f = record m {
    free_lists = with_tier m.free_lists tier (f (of_tier m.free_lists tier []));
  }

  abbrev pub update_free_list : ExtentMap A → ℕ → Tier → ℕ → ℕ → ExtentMap A
  update_free_list m id tier old_free new_free =
      change_free_list m tier (λ l. free_insert (new_free, id) (free_erase (old_free, id) l))

  -- Impl::write_extent_header, and the same body in `flush_dirty_headers`.
  abbrev pub write_header : ExtentMap A → DiskLocation → ExtentHeader → ExtentMap A
  write_header m loc h =
      if of_tier m.has_device loc.tier false
      then record m {
        header_writes =
            m.header_writes ++ (record { tier = loc.tier; offset = loc.offset; header = h } ∷ []);
      }
      else m

-- Impl::bump_generation
pub bump_generation : ℕ → ℕ
bump_generation old =
    pack (access_count old) (write_count old) (randomness old) (state old) (generation old + 1)

abbrev pub capacity_of : ExtentEntry → ℕ
capacity_of e = sub32 e.location.length header_size

abbrev pub free_bytes_of : ExtentEntry → ℕ
free_bytes_of e = sub32 (capacity_of e) e.used_bytes
