-- ===== src/Tests/Kv.antt =====
-- kv/mem/mem_db.cc at a concrete transaction.
use clab.Prelude.{◌+◌, ◌≡◌, refl, List, [], ◌∷◌, none, arith, inr, true}
use clab.Kv.Bytes.{Bytes}
use clab.Kv.MemDb.Iterator.{Iterator, get_wholespace_iterator, entry, lower_bound, seek_to_first}
use clab.Kv.MemDb.Iterator.Walk.{
  IsCurrent, answered, is_from, walk, lower_bound-answered, walk-seek_to_first,
}
use clab.Kv.MergeOp.{xor_operator, xor_merge}
use clab.Kv.MergeOp.Xor.{xor_merge-twice}
use clab.Kv.MemDb.{
  MemDb, MergeOps, Op, set, rm, rm_prefix, rm_range, merge_op, submit_transaction, get, get_key,
  encode_key, decode_key,
}
use clab.Kv.MemDb.Order.{IsSorted}
use clab.Kv.MemDb.Laws.{View, Shows}
use clab.Kv.MemDb.Laws.Prefixes.{decode_key-encode_key}
use clab.Kv.MemDb.Submit.{effects, accepted, accepted_count, submit_transaction-refines}

abbrev operators : MergeOps
operators = ((120 ∷ [], xor_operator) ∷ [])

abbrev nothing : MemDb
nothing = record { db = []; seqno = 0 }

abbrev no_keys : View
no_keys q j = none

-- A set and a merge under "x", the keys of "y" dropped, and a merge that "y" has no operator for.
abbrev operations : List Op
operations =
    set (120 ∷ []) (1 ∷ []) (7 ∷ [])
    ∷ merge_op (120 ∷ []) (1 ∷ []) (5 ∷ [])
    ∷ set (121 ∷ []) (0 ∷ []) (1 ∷ [])
    ∷ rm_range (121 ∷ []) [] (9 ∷ [])
    ∷ rm_prefix (121 ∷ [])
    ∷ merge_op (121 ∷ []) (2 ∷ []) (5 ∷ [])
    ∷ rm (120 ∷ []) (1 ∷ [])
    ∷ []

submit_transaction-refines_example :
    IsSorted (submit_transaction operators nothing operations).0.db
    × (Shows
          (submit_transaction operators nothing operations).0
          (effects operators operations no_keys)
        × (((submit_transaction operators nothing operations).1 ≡ accepted operators operations)
            × ((submit_transaction operators nothing operations).0.seqno
                ≡ nothing.seqno + accepted_count operators operations)))
unfolding get get_key
submit_transaction-refines_example =
    submit_transaction-refines operators operations nothing no_keys tt
      (
        (refl, tt),
        ((refl, tt), ((refl, tt), ((refl, tt), ((refl, tt), ((refl, tt), ((refl, tt), tt)))))),
      )
      (λ q j nq. refl)

decode_key-encode_key_example :
    decode_key (encode_key (120 ∷ 121 ∷ []) (0 ∷ 1 ∷ [])) ≡ (120 ∷ 121 ∷ [], 0 ∷ 1 ∷ [])
decode_key-encode_key_example =
    decode_key-encode_key (120 ∷ 121 ∷ []) (0 ∷ 1 ∷ []) (refl, (refl, tt))

-- Two keys under "x".
abbrev two_keys : MemDb
two_keys = record { db = ((120 ∷ 0 ∷ 1 ∷ [], 7 ∷ []) ∷ (120 ∷ 0 ∷ 2 ∷ [], 8 ∷ []) ∷ []); seqno = 2 }

-- An iterator from when the database was empty.
abbrev old_iterator : Iterator
old_iterator = get_wholespace_iterator nothing

old_iterator-IsCurrent : IsCurrent two_keys old_iterator
old_iterator-IsCurrent = inr (omega arith)

lower_bound-answered_example :
    (get_key (120 ∷ 0 ∷ 2 ∷ []) two_keys.db
      ≡ answered
          (120 ∷ 0 ∷ 1 ∷ 5 ∷ [])
          (entry (lower_bound two_keys old_iterator (120 ∷ 0 ∷ 1 ∷ 5 ∷ [])))
          (120 ∷ 0 ∷ 2 ∷ [])
          (get_key (120 ∷ 0 ∷ 2 ∷ []) two_keys.db))
    × (is_from
          (120 ∷ 0 ∷ 1 ∷ 5 ∷ [])
          (entry (lower_bound two_keys old_iterator (120 ∷ 0 ∷ 1 ∷ 5 ∷ [])))
        ≡ true)
lower_bound-answered_example =
    lower_bound-answered two_keys old_iterator (120 ∷ 0 ∷ 1 ∷ 5 ∷ []) (120 ∷ 0 ∷ 2 ∷ [])
      old_iterator-IsCurrent ((refl, tt), (tt, tt))

walk-seek_to_first_example : walk 3 (seek_to_first two_keys old_iterator) ≡ two_keys.db
walk-seek_to_first_example = walk-seek_to_first two_keys old_iterator old_iterator-IsCurrent

abbrev two_words : Bytes
two_words = 255 ∷ 255 ∷ 255 ∷ 255 ∷ 255 ∷ 255 ∷ 255 ∷ 255 ∷ 1 ∷ 0 ∷ 0 ∷ 0 ∷ 0 ∷ 0 ∷ 0 ∷ 0 ∷ []

xor_merge-twice_example :
    xor_merge (xor_merge (5 ∷ 255 ∷ 7 ∷ []) (3 ∷ 1 ∷ [])) (3 ∷ 1 ∷ []) ≡ 5 ∷ 255 ∷ []
xor_merge-twice_example =
    xor_merge-twice (5 ∷ 255 ∷ 7 ∷ []) (3 ∷ 1 ∷ []) (omega arith, (omega arith, (omega arith, tt)))
      (omega arith, (omega arith, tt))
