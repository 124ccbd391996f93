-- ===== src/Kv/MemDb/Laws.antt =====
-- What a transaction does to the keys of every prefix.
pub mod Prefixes
use clab.Prelude.{
  ℕ, ◌+◌, ◌≡◌, refl, sym, ap, ◌∙◌, inl, inr, Bool, true, false, not, ◌&&◌, List, [], ◌∷◌, Option,
  none, some, arith, if◌then◌else◌, bytes_beq, Bool-cases, Option-cases,
}
use clab.Kv.Bytes.{Bytes, bytes_lt, starts_with}
use clab.Kv.MergeOp.{MergeOperator}
use clab.Kv.MemDb.{
  Map, get_key, put_key, drop_key, drop_from, encode_key, MemDb, set_key, rmkey, rmkeys_by_prefix,
  rm_range_keys, MergeOps, find_operator, merged, merge, Op, set, rm, rm_prefix, rm_range, merge_op,
  apply, submit_transaction, get,
}
use clab.Kv.MemDb.Order.{
  IsSorted, get_key-put_key, put_key-IsSorted, get_key-drop_key, drop_key-IsSorted,
}
use clab.Kv.MemDb.Ranges.{
  get_key-drop_from, drop_from-IsSorted, starts_with-IsStretch, range-IsStretch,
}
use clab.Kv.MemDb.Laws.Prefixes.{NoZero, encode_key-same, in_stretch-prefix, in_stretch-range}

-- The contents as a function of the prefix and the key.
abbrev pub View : Type 0
View = Bytes → Bytes → Option Bytes

abbrev pub same_key : Bytes → Bytes → Bytes → Bytes → Bool
same_key p k q j = bytes_beq p q && bytes_beq k j

abbrev pub written : View → Bytes → Bytes → Bytes → View
written f p k v q j = if same_key p k q j then some v else f q j

-- The operation on the contents, whatever holds them.
abbrev pub effect : MergeOps → Op → View → View
effect mops (set p k v) f q j = written f p k v q j
effect mops (rm p k) f q j = if same_key p k q j then none else f q j
effect mops (rm_prefix p) f q j = if bytes_beq p q then none else f q j
effect mops (rm_range p a b) f q j =
    if bytes_beq p q && (not (bytes_lt j a) && bytes_lt j b) then none else f q j
effect mops (merge_op p k v) f q j = elim (find_operator p mops) [
  | none ↦ f q j
  | some op ↦ written f p k (merged op (f p k) v) q j
]

-- Only a merge can be refused, for want of an operator.
abbrev pub accepts : MergeOps → Op → Bool
accepts mops (merge_op p k v) = elim (find_operator p mops) [ none ↦ false | some op ↦ true ]
accepts mops (set p k v) = true
accepts mops (rm p k) = true
accepts mops (rm_prefix p) = true
accepts mops (rm_range p a b) = true

abbrev pub prefix_of : Op → Bytes
prefix_of (set p k v) = p
prefix_of (rm p k) = p
prefix_of (rm_prefix p) = p
prefix_of (rm_range p a b) = p
prefix_of (merge_op p k v) = p

-- The contents of the database are `f`.
abbrev pub Shows : MemDb → View → Type 0
Shows d f = (q j : Bytes) → NoZero q → get d q j ≡ f q j

put_key-Shows :
    (d : MemDb) (f : View) (p k v : Bytes)
    → NoZero p
    → Shows d f
    → (q j : Bytes) → NoZero q
    → get_key (encode_key q j) (put_key (encode_key p k) v d.db) ≡ written f p k v q j
unfolding get
put_key-Shows d f p k v np shows q j nq =
    get_key-put_key (encode_key p k) (encode_key q j) v d.db
    ∙ ap (λ b. if b then some v else get d q j) (encode_key-same p q k j np nq)
    ∙ ap (λ g. if same_key p k q j then some v else g) (shows q j nq)

pub apply-Shows :
    (mops : MergeOps) (d : MemDb) (op : Op) (f : View)
    → IsSorted d.db
    → NoZero (prefix_of op)
    → Shows d f
    → Shows (apply mops d op).0 (effect mops op f)
unfolding get apply set_key rmkey rmkeys_by_prefix rm_range_keys merge
apply-Shows mops d (set p k v) f sorted np shows q j nq = put_key-Shows d f p k v np shows q j nq
apply-Shows mops d (rm p k) f sorted np shows q j nq =
    get_key-drop_key (encode_key p k) (encode_key q j) d.db sorted
    ∙ ap (λ b. if b then none else get d q j) (encode_key-same p q k j np nq)
    ∙ ap (λ g. if same_key p k q j then none else g) (shows q j nq)
apply-Shows mops d (rm_prefix p) f sorted np shows q j nq =
    let s = encode_key p [] in
    get_key-drop_from (encode_key q j) s (starts_with s) d.db (starts_with-IsStretch s) sorted
    ∙ ap (λ b. if b then none else get d q j) (in_stretch-prefix p q j np nq)
    ∙ ap (λ g. if bytes_beq p q then none else g) (shows q j nq)
apply-Shows mops d (rm_range p a b) f sorted np shows q j nq =
    let s = encode_key p a in
    let e = encode_key p b in
    get_key-drop_from (encode_key q j) s (λ z. bytes_lt z e) d.db (range-IsStretch s e) sorted
    ∙ ap (λ x. if x then none else get d q j) (in_stretch-range p q a b j np nq)
    ∙ ap (λ g. if bytes_beq p q && (not (bytes_lt j a) && bytes_lt j b) then none else g)
        (shows q j nq)
apply-Shows mops d (merge_op p k v) f sorted np shows q j nq =
    elim (Option-cases (find_operator p mops)) [
      | inl missing ↦ rw (effect, merge, missing) (shows q j nq)
      | inr (op, found) ↦
          rw (effect, merge, found)
            (put_key-Shows d f p k (merged op (get d p k) v) np shows q j nq
              ∙ ap (λ o. written f p k (merged op o v) q j) (shows p k np))
    ]

pub apply-IsSorted :
    (mops : MergeOps) (d : MemDb) (op : Op) → IsSorted d.db → IsSorted (apply mops d op).0.db
unfolding apply set_key rmkey rmkeys_by_prefix rm_range_keys merge
apply-IsSorted mops d (set p k v) sorted = put_key-IsSorted (encode_key p k) v d.db sorted
apply-IsSorted mops d (rm p k) sorted = drop_key-IsSorted (encode_key p k) d.db sorted
apply-IsSorted mops d (rm_prefix p) sorted =
    drop_from-IsSorted (encode_key p []) (starts_with (encode_key p [])) d.db sorted
apply-IsSorted mops d (rm_range p a b) sorted =
    drop_from-IsSorted (encode_key p a) (λ z. bytes_lt z (encode_key p b)) d.db sorted
apply-IsSorted mops d (merge_op p k v) sorted = elim (Option-cases (find_operator p mops)) [
  | inl missing ↦ rw (IsSorted, merge, missing) sorted
  | inr (op, found) ↦
      rw (IsSorted, merge, found)
        (put_key-IsSorted (encode_key p k) (merged op (get_key (encode_key p k) d.db) v) d.db
          sorted)
]
