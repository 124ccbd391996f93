-- ===== src/Btier/Engine/Keys.antt =====
-- The key map in recovery (btier/btier.cc): replaying any records, and replaying a checkpoint.
use clab.Prelude.{
  ℕ, ◌≡◌, refl, sym, ap, ap₂, ◌∙◌, inl, inr, Bool, true, false, ◌||◌, List, [], ◌∷◌, ◌++◌, map,
  Option, none, some, if◌then◌else◌, Bool-cases, Option-cases, bytes_beq, bytes_beq_iff, bytes_eq,
  arith,
}
use clab.Prelude.Assoc.{has}
use clab.Btier.Types.{KeyLocation}
use clab.Btier.KeyMap.{Key, KeyMap, lookup, keys_in_extent, empty}
use clab.Btier.KeyMap.History.{lookup-empty}
use clab.Btier.KeyMap.Laws.{IsIndexed, located, lookup-put, lookup-remove_key}
use clab.Btier.ExtentMap.Recovery.{SnapshotEntry, snapshot}
use clab.Btier.Journal.Codec.{
  JournalRecord, JournalOp, key_put, key_del, txn_begin, mark_dead, extent_new, extent_free,
  txn_commit, checkpoint,
}
use clab.Btier.Journal.Codec.RoundTrip.{kept}
use clab.Btier.Engine.{
  Impl, filled, put_record, new_record, key_records, state_records, build_checkpoint_state,
}
use clab.Btier.Engine.Replay.{put_one, replay_puts, del_one, replay_dels}

-- The location that the last OP_KEY_PUT of the records gives a key.
abbrev pub put_by : JournalOp → JournalRecord → Key → Option KeyLocation → Option KeyLocation
put_by key_put r j old = if bytes_beq r.key j then some r.key_loc else old
put_by _ r j old = old

abbrev pub last_put : Key → List JournalRecord → Option KeyLocation → Option KeyLocation
last_put j [] old = old
last_put j (r ∷ rs) old = last_put j rs (put_by r.op r j old)

-- Some OP_KEY_DEL of the records names the key.
abbrev pub deletes_by : JournalOp → JournalRecord → Key → Bool
deletes_by key_del r j = bytes_beq r.key j
deletes_by _ r j = false

abbrev pub is_deleted : Key → List JournalRecord → Bool
is_deleted j [] = false
is_deleted j (r ∷ rs) = deletes_by r.op r j || is_deleted j rs

lookup-put_one :
    (o : JournalOp) (r : JournalRecord) (m : KeyMap) (j : Key)
    → lookup (put_one o r m) j ≡ put_by o r j (lookup m j)
lookup-put_one key_put r m j = lookup-put m r.key j r.key_loc 0
lookup-put_one txn_begin r m j = refl
lookup-put_one key_del r m j = refl
lookup-put_one mark_dead r m j = refl
lookup-put_one extent_new r m j = refl
lookup-put_one extent_free r m j = refl
lookup-put_one txn_commit r m j = refl
lookup-put_one checkpoint r m j = refl
lookup-put_one (JournalOp.other b) r m j = refl

lookup-replay_puts :
    (rs : List JournalRecord) (m : KeyMap) (j : Key)
    → lookup (replay_puts rs m) j ≡ last_put j rs (lookup m j)
unfolding replay_puts
lookup-replay_puts [] m j = refl
lookup-replay_puts (r ∷ rs) m j =
    lookup-replay_puts rs (put_one r.op r m) j ∙ ap (last_put j rs) (lookup-put_one r.op r m j)

lookup-del_one :
    (o : JournalOp) (r : JournalRecord) (m : KeyMap) (j : Key)
    → lookup (del_one o r m) j ≡ (if deletes_by o r j then none else lookup m j)
lookup-del_one key_del r m j = lookup-remove_key m r.key j
lookup-del_one key_put r m j = refl
lookup-del_one txn_begin r m j = refl
lookup-del_one mark_dead r m j = refl
lookup-del_one extent_new r m j = refl
lookup-del_one extent_free r m j = refl
lookup-del_one txn_commit r m j = refl
lookup-del_one checkpoint r m j = refl
lookup-del_one (JournalOp.other b) r m j = refl

lookup-replay_dels :
    (rs : List JournalRecord) (m : KeyMap) (j : Key)
    → lookup (replay_dels rs m) j ≡ (if is_deleted j rs then none else lookup m j)
unfolding replay_dels
lookup-replay_dels [] m j = refl
lookup-replay_dels (r ∷ rs) m j =
    ground (arith, lookup-replay_dels rs (del_one r.op r m) j, lookup-del_one r.op r m j)

-- After recovery has replayed records into a key map, a key that any OP_KEY_DEL of the records
-- names has no location, wherever the record stands among the others; every other key has the
-- location of the last OP_KEY_PUT that names it, or the one it had if there is none.
pub lookup-replay :
    (rs : List JournalRecord) (m : KeyMap) (j : Key)
    → lookup (replay_dels rs (replay_puts rs m)) j
      ≡ (if is_deleted j rs then none else last_put j rs (lookup m j))
lookup-replay rs m j =
    lookup-replay_dels rs (replay_puts rs m) j
    ∙ ap (λ o. if is_deleted j rs then none else o) (lookup-replay_puts rs m j)

last_put-append :
    (j : Key) (xs ys : List JournalRecord) (old : Option KeyLocation)
    → last_put j (xs ++ ys) old ≡ last_put j ys (last_put j xs old)
last_put-append j [] ys old = refl
last_put-append j (x ∷ xs) ys old = last_put-append j xs ys (put_by x.op x j old)

is_deleted-append :
    (j : Key) (xs ys : List JournalRecord)
    → is_deleted j (xs ++ ys) ≡ (is_deleted j xs || is_deleted j ys)
is_deleted-append j [] ys = refl
is_deleted-append j (x ∷ xs) ys = ground (arith, is_deleted-append j xs ys)

-- The keys are all in the map.
abbrev AllIn : KeyMap → List Key → Type 0
AllIn m keys = (j : Key) → has j keys ≡ true → lookup m j ≡ some (filled (lookup m j))

last_put-key_records :
    (m : KeyMap) (keys : List Key) (j : Key) (old : Option KeyLocation)
    → AllIn m keys
    → last_put j (key_records m keys) old ≡ (if has j keys then lookup m j else old)
unfolding key_records has
last_put-key_records m [] j old all = refl
last_put-key_records m (key ∷ keys) j old all =
    let tail : AllIn m keys = λ i hit. all i (ground (arith, hit)) in
    let rest =
      last_put-key_records m keys j (if bytes_beq key j then some (filled (lookup m key)) else old)
        tail in
    elim (Bool-cases (bytes_beq key j)) [
      | inl same ↦
          let path : key ≡ j = (bytes_beq_iff key j).0 same in
          let here : some (filled (lookup m key)) ≡ lookup m j =
            ap (λ k. some (filled (lookup m k))) path ∙ sym (all j (ground (arith, same))) in
          rest ∙ ground (arith, same, here)
      | inr other ↦ rest ∙ ground (arith, other)
    ]

is_deleted-key_records :
    (m : KeyMap) (keys : List Key) (j : Key) → is_deleted j (key_records m keys) ≡ false
unfolding key_records
is_deleted-key_records m [] j = refl
is_deleted-key_records m (key ∷ keys) j = is_deleted-key_records m keys j

-- The location is in an extent of the snapshot.
abbrev pub is_known : Option KeyLocation → List SnapshotEntry → Bool
is_known o [] = false
is_known o (s ∷ snaps) = located o s.extent_id || is_known o snaps

bucket-AllIn : (m : KeyMap) (x : ℕ) → IsIndexed m → AllIn m (keys_in_extent m x)
bucket-AllIn m x v j hit = elim (Option-cases (lookup m j)) [
  | inl missed ↦ absurd (ground (arith, sym (v.agrees j x) ∙ hit, missed))
  | inr (loc, found) ↦ found ∙ ap (λ o. some (filled o)) (sym found)
]

last_put-state_records :
    (m : KeyMap) (snaps : List SnapshotEntry) (j : Key) (old : Option KeyLocation)
    → IsIndexed m
    → last_put j (state_records m snaps) old
      ≡ (if is_known (lookup m j) snaps then lookup m j else old)
unfolding state_records
last_put-state_records m [] j old v = refl
last_put-state_records m (s ∷ snaps) j old v =
    let keys = keys_in_extent m s.extent_id in
    last_put-append j (key_records m keys) (state_records m snaps) old
    ∙ ap (last_put j (state_records m snaps))
        (last_put-key_records m keys j old (bucket-AllIn m s.extent_id v))
    ∙ last_put-state_records m snaps j (if has j keys then lookup m j else old) v
    ∙ ground (arith, v.agrees j s.extent_id)

is_deleted-state_records :
    (m : KeyMap) (snaps : List SnapshotEntry) (j : Key)
    → is_deleted j (state_records m snaps) ≡ false
unfolding state_records
is_deleted-state_records m [] j = refl
is_deleted-state_records m (s ∷ snaps) j =
    let keys = keys_in_extent m s.extent_id in
    ground (
      arith,
      is_deleted-append j (key_records m keys) (state_records m snaps),
      is_deleted-key_records m keys j,
      is_deleted-state_records m snaps j,
    )

-- Replaying a checkpoint.
pub lookup-replay_checkpoint :
    {A D : Type 0} (i : Impl A D) (j : Key)
    → IsIndexed i.key_map
    → lookup
        (replay_dels (build_checkpoint_state i) (replay_puts (build_checkpoint_state i) empty))
        j
      ≡ (if is_known (lookup i.key_map j) (snapshot i.extent_map) then lookup i.key_map j else none)
unfolding build_checkpoint_state
lookup-replay_checkpoint i j v =
    let rs = state_records i.key_map (snapshot i.extent_map) in
    lookup-replay rs empty j
    ∙ ap (λ b. if b then none else last_put j rs (lookup empty j))
        (is_deleted-state_records i.key_map (snapshot i.extent_map) j)
    ∙ ap (last_put j rs) (lookup-empty j)
    ∙ last_put-state_records i.key_map (snapshot i.extent_map) j none v

-- What a checkpoint holds is written and read as it is.
kept-key_records :
    (m : KeyMap) (keys : List Key) → map kept (key_records m keys) ≡ key_records m keys
unfolding key_records
kept-key_records m [] = refl
kept-key_records m (key ∷ keys) =
    ap (◌∷◌ (put_record key (filled (lookup m key)))) (kept-key_records m keys)

map_append : (xs ys : List JournalRecord) → map kept (xs ++ ys) ≡ map kept xs ++ map kept ys
map_append [] ys = refl
map_append (x ∷ xs) ys = ap (◌∷◌ (kept x)) (map_append xs ys)

kept-state_records :
    (m : KeyMap) (snaps : List SnapshotEntry)
    → map kept (state_records m snaps) ≡ state_records m snaps
unfolding state_records
kept-state_records m [] = refl
kept-state_records m (s ∷ snaps) =
    let keys = keys_in_extent m s.extent_id in
    ap (◌∷◌ (new_record s.extent_id s.location)) (
      map_append (key_records m keys) (state_records m snaps)
      ∙ ap₂ (◌++◌) (kept-key_records m keys) (kept-state_records m snaps))

pub kept-build_checkpoint_state :
    {A D : Type 0} (i : Impl A D) → map kept (build_checkpoint_state i) ≡ build_checkpoint_state i
unfolding build_checkpoint_state
kept-build_checkpoint_state i = kept-state_records i.key_map (snapshot i.extent_map)
