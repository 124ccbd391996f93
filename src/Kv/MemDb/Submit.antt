-- ===== src/Kv/MemDb/Submit.antt =====
-- A transaction as a whole: how far it gets, and what it leaves.
use clab.Prelude.{
  ℕ, ◌+◌, ◌≡◌, refl, ap, inl, inr, ◌⊎◌, ◌<◌, Bool, true, false, List, [], ◌∷◌, arith, if◌then◌else◌,
  Bool-cases, Option-cases,
}
use clab.Kv.MemDb.{
  MemDb, set_key, rmkey, rmkeys_by_prefix, rm_range_keys, MergeOps, find_operator, merge, Op, set,
  rm, rm_prefix, rm_range, merge_op, apply, submit_transaction,
}
use clab.Kv.MemDb.Order.{IsSorted}
use clab.Kv.MemDb.Laws.{View, effect, accepts, prefix_of, Shows, apply-Shows, apply-IsSorted}
use clab.Kv.MemDb.Laws.Prefixes.{NoZero}

-- The operations in order, up to the first that is refused.
abbrev pub effects : MergeOps → List Op → View → View
effects mops [] f = f
effects mops (op ∷ ops) f = if accepts mops op then effects mops ops (effect mops op f) else f

abbrev pub accepted : MergeOps → List Op → Bool
accepted mops [] = true
accepted mops (op ∷ ops) = if accepts mops op then accepted mops ops else false

abbrev pub accepted_count : MergeOps → List Op → ℕ
accepted_count mops [] = 0
accepted_count mops (op ∷ ops) = if accepts mops op then accepted_count mops ops + 1 else 0

abbrev pub NoZeros : List Op → Type 0
NoZeros [] = Unit {0}
NoZeros (op ∷ ops) = NoZero (prefix_of op) × NoZeros ops

apply-accepts : (mops : MergeOps) (d : MemDb) (op : Op) → (apply mops d op).1 ≡ accepts mops op
unfolding apply merge
apply-accepts mops d (set p k v) = refl
apply-accepts mops d (rm p k) = refl
apply-accepts mops d (rm_prefix p) = refl
apply-accepts mops d (rm_range p a b) = refl
apply-accepts mops d (merge_op p k v) = elim (Option-cases (find_operator p mops)) [
  | inl missing ↦ rw (accepts, merge, missing) refl
  | inr (op, found) ↦ rw (accepts, merge, found) refl
]

apply-seqno :
    (mops : MergeOps) (d : MemDb) (op : Op)
    → (apply mops d op).0.seqno ≡ d.seqno + (if accepts mops op then 1 else 0)
unfolding apply merge set_key rmkey rmkeys_by_prefix rm_range_keys
apply-seqno mops d (set p k v) = refl
apply-seqno mops d (rm p k) = refl
apply-seqno mops d (rm_prefix p) = refl
apply-seqno mops d (rm_range p a b) = refl
apply-seqno mops d (merge_op p k v) = elim (Option-cases (find_operator p mops)) [
  | inl missing ↦ rw (accepts, merge, missing) (omega arith)
  | inr (op, found) ↦ rw (accepts, merge, found) refl
]

-- A refused operation leaves the database as it was.
apply-refused :
    (mops : MergeOps) (d : MemDb) (op : Op) → accepts mops op ≡ false → (apply mops d op).0 ≡ d
unfolding apply merge
apply-refused mops d (set p k v) refused = ground arith
apply-refused mops d (rm p k) refused = ground arith
apply-refused mops d (rm_prefix p) refused = ground arith
apply-refused mops d (rm_range p a b) refused = ground arith
apply-refused mops d (merge_op p k v) refused = elim (Option-cases (find_operator p mops)) [
  | inl missing ↦ rw (merge, missing) refl
  | inr (op, found) ↦ ground (arith, rw (accepts, found) at refused)
]

-- For a database in key order that shows some contents by prefix and key, and operations whose
-- prefixes have no zero byte: submit_transaction leaves a database in key order that shows what
-- the operations make of the contents in order up to the first merge without an operator; its
-- result says whether there was no such merge, and the sequence number grows by the number of
-- operations done.
pub submit_transaction-refines :
    (mops : MergeOps) (ops : List Op) (d : MemDb) (f : View)
    → IsSorted d.db
    → NoZeros ops
    → Shows d f
    → IsSorted (submit_transaction mops d ops).0.db
      × (Shows (submit_transaction mops d ops).0 (effects mops ops f)
          × (((submit_transaction mops d ops).1 ≡ accepted mops ops)
              × ((submit_transaction mops d ops).0.seqno ≡ d.seqno + accepted_count mops ops)))
unfolding submit_transaction
submit_transaction-refines mops [] d f sorted nz shows = (sorted, (shows, (refl, omega arith)))
submit_transaction-refines mops (op ∷ ops) d f sorted nz shows =
    let d' = (apply mops d op).0 in
    let flag = apply-accepts mops d op in
    let seqno = apply-seqno mops d op in
    elim (Bool-cases (accepts mops op)) [
      | inl ok ↦
          let rest =
            submit_transaction-refines mops ops d' (effect mops op f)
              (apply-IsSorted mops d op sorted) nz.1 (apply-Shows mops d op f sorted nz.0 shows) in
          rw (submit_transaction, effects, accepted, accepted_count, flag, ok)
            (rest.0, (rest.1.0, (rest.1.1.0, ground (arith, rest.1.1.1, seqno, ok))))
      | inr refused ↦
          let same = apply-refused mops d op refused in
          rw (submit_transaction, effects, accepted, accepted_count, flag, refused, same)
            (sorted, (shows, (refl, omega arith)))
    ]

-- A transaction that changes the contents counts on.
pub submit_transaction-seqno :
    (mops : MergeOps) (d : MemDb) (ops : List Op)
    → ((submit_transaction mops d ops).0 ≡ d) ⊎ (d.seqno < (submit_transaction mops d ops).0.seqno)
unfolding submit_transaction
submit_transaction-seqno mops d [] = inl refl
submit_transaction-seqno mops d (op ∷ ops) =
    let d' = (apply mops d op).0 in
    let flag = apply-accepts mops d op in
    let seqno = apply-seqno mops d op in
    elim (Bool-cases (accepts mops op)) [
      | inl ok ↦
          rw (submit_transaction, flag, ok)
            (inr (elim (submit_transaction-seqno mops d' ops) [
              | inl same ↦ ground (arith, ap (λ k. k.seqno) same, seqno, ok)
              | inr on ↦ ground (arith, on, seqno, ok)
            ]))
      | inr refused ↦ rw (submit_transaction, flag, refused) (inl (apply-refused mops d op refused))
    ]
