-- ===== src/Btier/KeyMap.antt =====
-- btier/key_map.cc: the forward map from keys to locations and the reverse index from extents to
-- the keys they hold. A std::string is its bytes; each method runs under the map's one lock, so a
-- method is one step.
pub mod Index
pub mod Laws
pub mod History
pub mod Stride
use clab.Prelude.{
  ℕ, ◌+◌, ◌-◌, ◌*◌, Bool, true, false, List, [], ◌∷◌, Option, none, some, length, ltb, leb, ◌==◌,
  if◌then◌else◌, bytes_eq, nat_eq,
}
use clab.Prelude.Assoc.{find, insert, erase, add, remove}
use clab.Btier.Types.{KeyLocation}

abbrev pub Key : Type 0
Key = List ℕ

abbrev pub k_sequential_threshold : ℕ
k_sequential_threshold = 64 * 1024

abbrev pub k_max_seq_award : ℕ
k_max_seq_award = 63

pub record KeyEntry : Type 0 where
  pub loc : KeyLocation
  pub last_lba : ℕ
  pub consecutive_sequential : ℕ

abbrev pub default_location : KeyLocation
default_location = record { extent_id = 0; offset = 0; length = 0 }

abbrev pub default_entry : KeyEntry
default_entry = record { loc = default_location; last_lba = 0; consecutive_sequential = 0 }

abbrev pub Reverse : Type 0
Reverse = List (ℕ × List Key)

pub record KeyMap : Type 0 where
  pub entries : List (Key × KeyEntry)
  pub reverse_index : Reverse

unfoldable pub empty : KeyMap
empty = record { entries = []; reverse_index = [] }

unfoldable pub lookup : KeyMap → Key → Option KeyLocation
lookup m key = elim (find key m.entries) [ none ↦ none | some e ↦ some e.loc ]

abbrev is_empty : List Key → Bool
is_empty [] = true
is_empty (k ∷ ks) = false

-- `it->second.erase(key)`, and the bucket goes with its last key.
pub unlink : ℕ → Key → Reverse → Reverse
unlink extent key r = elim (find extent r) [
  | none ↦ r
  | some s ↦
      let rest = remove key s in if is_empty rest then erase extent r else insert extent rest r
]

abbrev pub bucket : ℕ → Reverse → List Key
bucket extent r = elim (find extent r) [ none ↦ [] | some s ↦ s ]

-- `reverse_index_[extent].insert(key)`
unfoldable pub link : ℕ → Key → Reverse → Reverse
link extent key r = insert extent (add key (bucket extent r)) r

-- The stride tracking of `put`.
unfoldable pub track : KeyEntry → ℕ → KeyEntry
track e lba =
    let delta = if ltb e.last_lba lba then lba - e.last_lba else e.last_lba - lba in
    let seq =
      if leb delta k_sequential_threshold
      then (if ltb e.consecutive_sequential k_max_seq_award
          then e.consecutive_sequential + 1
          else e.consecutive_sequential)
      else 0 in
    record e { last_lba = lba; consecutive_sequential = seq }

-- The cleanup of the old extent, made only when the key was there and has moved.
abbrev moved : Option KeyEntry → ℕ → Key → Reverse → Reverse
moved none extent key r = r
moved (some e) extent key r = if e.loc.extent_id == extent then r else unlink e.loc.extent_id key r

abbrev entry_or_default : Option KeyEntry → KeyEntry
entry_or_default none = default_entry
entry_or_default (some e) = e

unfoldable pub put : KeyMap → Key → KeyLocation → ℕ → KeyMap
put m key loc lba =
    let old = find key m.entries in
    let tracked = track (entry_or_default old) lba in
    record {
      entries = insert key (record tracked { loc = loc }) m.entries;
      reverse_index = link loc.extent_id key (moved old loc.extent_id key m.reverse_index);
    }

pub remove_key : KeyMap → Key → KeyMap
remove_key m key = elim (find key m.entries) [
  | none ↦ m
  | some e ↦ record {
    entries = erase key m.entries;
    reverse_index = unlink e.loc.extent_id key m.reverse_index;
  }
]

unfoldable pub keys_in_extent : KeyMap → ℕ → List Key
keys_in_extent m extent = bucket extent m.reverse_index

-- One round of `batch_update`: the stride of the key is kept.
pub update_one : KeyMap → Key → KeyLocation → KeyMap
update_one m key loc =
    let old = find key m.entries in
    record {
      entries = insert key (record (entry_or_default old) { loc = loc }) m.entries;
      reverse_index = link loc.extent_id key (moved old loc.extent_id key m.reverse_index);
    }

pub batch_update : KeyMap → List (Key × KeyLocation) → KeyMap
batch_update m [] = m
batch_update m ((key, loc) ∷ rest) = batch_update (update_one m key loc) rest

unfoldable pub get_consecutive_sequential : KeyMap → Key → ℕ
get_consecutive_sequential m key = elim (find key m.entries) [
  | none ↦ 0
  | some e ↦ e.consecutive_sequential
]

pub size : KeyMap → ℕ
size m = length m.entries

pub keys_in_extent_count : KeyMap → ℕ → ℕ
keys_in_extent_count m extent = elim (find extent m.reverse_index) [ none ↦ 0 | some s ↦ length s ]
