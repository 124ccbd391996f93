-- ===== src/Kv/MemDb.antt =====
-- kv/mem/mem_db.cc: an ordered map in memory with transactions. A method runs under the lock, so it
-- is one step. The operators are those that kv/key_value_db.cc has registered.
pub mod Order
pub mod Ranges
pub mod Laws
pub mod Submit
pub mod Iterator
use clab.Prelude.{
  ℕ, ◌+◌, Bool, true, false, not, ◌&&◌, List, [], ◌∷◌, ◌++◌, Option, none, some, length, ◌==◌,
  if◌then◌else◌, bytes_beq,
}
use clab.Kv.Bytes.{Bytes, bytes_lt, starts_with}
use clab.Kv.MergeOp.{MergeOperator}

-- std::map<std::string, std::string>, in its order.
abbrev pub Map : Type 0
Map = List (Bytes × Bytes)

unfoldable pub get_key : Bytes → Map → Option Bytes
get_key k [] = none
get_key k ((j, w) ∷ m) = if bytes_beq j k then some w else get_key k m

-- `m[k] = v`
pub put_key : Bytes → Bytes → Map → Map
put_key k v [] = (k, v) ∷ []
put_key k v ((j, w) ∷ m) =
    let rest = put_key k v m in
    if bytes_lt k j then (k, v) ∷ (j, w) ∷ m else if bytes_lt j k then (j, w) ∷ rest else (k, v) ∷ m

pub drop_key : Bytes → Map → Map
drop_key k [] = []
drop_key k ((j, w) ∷ m) = let rest = drop_key k m in if bytes_beq j k then m else (j, w) ∷ rest

-- `while (it != end && test(it->first)) it = erase(it);`
pub drop_while : (Bytes → Bool) → Map → Map
drop_while test [] = []
drop_while test ((j, w) ∷ m) = let rest = drop_while test m in if test j then rest else (j, w) ∷ m

-- The same from `lower_bound(s)` on.
pub drop_from : Bytes → (Bytes → Bool) → Map → Map
drop_from s test [] = []
drop_from s test ((j, w) ∷ m) =
    let rest = drop_from s test m in
    if bytes_lt j s then (j, w) ∷ rest else drop_while test ((j, w) ∷ m)

-- encode_key: the prefix, a zero byte, the key.
pub encode_key : Bytes → Bytes → Bytes
encode_key prefix key = prefix ++ (0 ∷ key)

abbrev with_byte : ℕ → Bytes × Bytes → Bytes × Bytes
with_byte b (p, k) = (b ∷ p, k)

-- decode_key: what stands before and behind the first zero byte.
pub decode_key : Bytes → Bytes × Bytes
decode_key [] = ([], [])
decode_key (b ∷ full) =
    let rest = decode_key full in if b == 0 then ([], full) else with_byte b rest

pub record MemDb : Type 0 where
  pub db : Map
  pub seqno : ℕ

pub set_key : MemDb → Bytes → Bytes → MemDb
set_key d full value = record { db = put_key full value d.db; seqno = d.seqno + 1 }

pub rmkey : MemDb → Bytes → MemDb
rmkey d full = record { db = drop_key full d.db; seqno = d.seqno + 1 }

pub rmkeys_by_prefix : MemDb → Bytes → MemDb
rmkeys_by_prefix d prefix =
    let s = encode_key prefix [] in
    record { db = drop_from s (starts_with s) d.db; seqno = d.seqno + 1 }

pub rm_range_keys : MemDb → Bytes → Bytes → Bytes → MemDb
rm_range_keys d prefix from to =
    let s = encode_key prefix from in
    let e = encode_key prefix to in
    record { db = drop_from s (λ k. bytes_lt k e) d.db; seqno = d.seqno + 1 }

-- The registered operators, each with its prefix.
abbrev pub MergeOps : Type 0
MergeOps = List (Bytes × MergeOperator)

pub find_operator : Bytes → MergeOps → Option MergeOperator
find_operator prefix [] = none
find_operator prefix ((p, op) ∷ ops) =
    if bytes_beq p prefix then some op else find_operator prefix ops

abbrev pub merged : MergeOperator → Option Bytes → Bytes → Bytes
merged op none operand = op.merge_nonexistent operand
merged op (some old) operand = op.merge old operand

-- `_merge`; `false` is -ENOENT.
pub merge : MergeOps → MemDb → Bytes → Bytes → Bytes → MemDb × Bool
unfolding find_operator
merge mops d prefix full operand = elim (find_operator prefix mops) [
  | none ↦ (d, false)
  | some op ↦ (
    record { db = put_key full (merged op (get_key full d.db) operand) d.db; seqno = d.seqno + 1 },
    true,
  )
]

-- MDBTransactionImpl::Op
pub data Op : Type 0 where
  set : Bytes → Bytes → Bytes → Op
  rm : Bytes → Bytes → Op
  rm_prefix : Bytes → Op
  rm_range : Bytes → Bytes → Bytes → Op
  merge_op : Bytes → Bytes → Bytes → Op

pub apply : MergeOps → MemDb → Op → MemDb × Bool
unfolding set_key rmkey rmkeys_by_prefix rm_range_keys merge encode_key
apply mops d (set prefix key value) = (set_key d (encode_key prefix key) value, true)
apply mops d (rm prefix key) = (rmkey d (encode_key prefix key), true)
apply mops d (rm_prefix prefix) = (rmkeys_by_prefix d prefix, true)
apply mops d (rm_range prefix from to) = (rm_range_keys d prefix from to, true)
apply mops d (merge_op prefix key value) = merge mops d prefix (encode_key prefix key) value

-- submit_transaction: the operations in order, up to a merge that fails.
pub submit_transaction : MergeOps → MemDb → List Op → MemDb × Bool
submit_transaction mops d [] = (d, true)
submit_transaction mops d (op ∷ ops) =
    let rest = submit_transaction mops (apply mops d op).0 ops in
    if (apply mops d op).1 then rest else ((apply mops d op).0, false)

-- MemDB::get for one key of the set.
unfoldable pub get : MemDb → Bytes → Bytes → Option Bytes
unfolding encode_key get_key
get d prefix key = get_key (encode_key prefix key) d.db

pub close : MemDb → MemDb
close d = record d { db = [] }

pub estimated_size : Map → ℕ
estimated_size [] = 0
estimated_size ((k, v) ∷ m) = length k + length v + estimated_size m
