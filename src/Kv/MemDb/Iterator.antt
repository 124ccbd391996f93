-- ===== src/Kv/MemDb/Iterator.antt =====
-- `MemDB::MDBWholeSpaceIteratorImpl` of kv/mem/mem_db.cc: a copy of the contents with a position in
-- it. A move by key copies the contents again if the sequence number has changed.
pub mod Walk
use clab.Prelude.{
  ℕ, zero, suc, ◌+◌, ◌-◌, Bool, true, false, List, [], ◌∷◌, Option, none, some, length, get_elem?,
  ltb, leb, ◌==◌, if◌then◌else◌, bytes_beq,
}
use clab.Kv.Bytes.{Bytes, bytes_lt}
use clab.Kv.MemDb.{Map, MemDb, decode_key}

-- The position is `none` for -1.
pub record Iterator : Type 0 where
  pub items : Map
  pub seqno : ℕ
  pub pos : Option ℕ

-- MemDB::get_wholespace_iterator
abbrev pub get_wholespace_iterator : MemDb → Iterator
get_wholespace_iterator d = record { items = d.db; seqno = d.seqno; pos = none }

-- `std::lower_bound`: the first place whose key is not below `to`. The items are in key order.
unfoldable pub lower_index : Bytes → Map → ℕ
lower_index to [] = 0
lower_index to ((j, w) ∷ m) = let rest = lower_index to m in if bytes_lt j to then suc rest else 0

-- `std::upper_bound`: the first place whose key is behind `after`.
unfoldable pub upper_index : Bytes → Map → ℕ
upper_index after [] = 0
upper_index after ((j, w) ∷ m) =
    let rest = upper_index after m in if bytes_lt after j then 0 else suc rest

abbrev pub place : ℕ → Map → Option ℕ
place i items = if leb (length items) i then none else some i

-- The item at the position.
abbrev pub entry : Iterator → Option (Bytes × Bytes)
entry it = elim it.pos [ none ↦ none | some i ↦ get_elem? it.items i ]

-- Where the position comes to be after the copy: at its key, or behind it if that is gone. An
-- empty key counts as none.
abbrev pub moved_to : Option (Bytes × Bytes) → Map → Option ℕ → Option ℕ
moved_to none items old = old
moved_to (some ([], v)) items old = old
moved_to (some (b ∷ k, v)) items old = place (lower_index (b ∷ k) items) items

unfoldable pub refresh : MemDb → Iterator → Iterator
refresh d it =
    if d.seqno == it.seqno
    then it
    else record { items = d.db; seqno = d.seqno; pos = moved_to (entry it) d.db it.pos }

unfoldable pub seek_to_first : MemDb → Iterator → Iterator
unfolding refresh
seek_to_first d it = let r = refresh d it in record r { pos = place 0 r.items }

unfoldable pub seek_to_last : MemDb → Iterator → Iterator
unfolding refresh
seek_to_last d it =
    let r = refresh d it in
    record r { pos = elim r.items [ [] ↦ none | x ∷ xs ↦ some (length r.items - 1) ] }

unfoldable pub lower_bound : MemDb → Iterator → Bytes → Iterator
unfolding refresh
lower_bound d it to =
    let r = refresh d it in record r { pos = place (lower_index to r.items) r.items }

unfoldable pub upper_bound : MemDb → Iterator → Bytes → Iterator
unfolding refresh
upper_bound d it after =
    let r = refresh d it in record r { pos = place (upper_index after r.items) r.items }

abbrev pub valid : Iterator → Bool
valid it = elim it.pos [ none ↦ false | some i ↦ ltb i (length it.items) ]

unfoldable pub next : Iterator → Iterator
next it = elim it.pos [ none ↦ it | some i ↦ record it { pos = place (suc i) it.items } ]

abbrev before : Option ℕ → Option ℕ
before none = none
before (some zero) = none
before (some (suc i)) = some i

unfoldable pub prev : Iterator → Iterator
prev it = record it { pos = before it.pos }

-- `key` and `value` index the items without a check; `none` stands for an index out of range.
abbrev pub key : Iterator → Option Bytes
key it = elim (entry it) [ none ↦ none | some e ↦ some e.0 ]

abbrev pub value : Iterator → Option Bytes
value it = elim (entry it) [ none ↦ none | some e ↦ some e.1 ]

unfoldable pub raw_key : Iterator → Option (Bytes × Bytes)
unfolding decode_key
raw_key it = elim (entry it) [ none ↦ none | some e ↦ some (decode_key e.0) ]

unfoldable pub raw_key_is_prefixed : Iterator → Bytes → Option Bool
unfolding decode_key
raw_key_is_prefixed it prefix = elim (entry it) [
  | none ↦ none
  | some e ↦ some (bytes_beq (decode_key e.0).0 prefix)
]
