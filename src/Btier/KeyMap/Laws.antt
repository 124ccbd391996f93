-- ===== src/Btier/KeyMap/Laws.antt =====
-- The methods of the key map against two views of it: the map from keys to locations that the
-- caller has in mind, and the keys that each extent holds.
use clab.Prelude.{
  ℕ, ◌≡◌, refl, ◌∙◌, Bool, false, List, [], ◌∷◌, Option, none, some, inl, inr, arith, ◌==◌,
  if◌then◌else◌, Option-cases, Bool-cases, sym, ap, bytes_beq, bytes_beq_iff, bytes_eq, nat_eq,
}
use clab.Prelude.Assoc.{find, has, find-insert, find-erase}
use clab.Btier.Types.{KeyLocation}
use clab.Btier.KeyMap.{
  Key, KeyEntry, KeyMap, Reverse, empty, lookup, unlink, bucket, moved, link, track,
  entry_or_default, put, remove_key, keys_in_extent, update_one, batch_update,
}
use clab.Btier.KeyMap.Index.{has-link, has-unlink, HasNoEmpty, link-HasNoEmpty, unlink-HasNoEmpty}

-- Is the key stored in the extent?
abbrev pub located : Option KeyLocation → ℕ → Bool
located none extent = false
located (some loc) extent = loc.extent_id == extent

-- Both directions at once: the bucket of an extent holds the keys that are located there.
pub record IsIndexed (m : KeyMap) : Type 0 where
  pub agrees :
      (key : Key) (extent : ℕ) → has key (keys_in_extent m extent) ≡ located (lookup m key) extent
  pub tidy : HasNoEmpty m.reverse_index

pub lookup-put :
    (m : KeyMap) (key j : Key) (loc : KeyLocation) (lba : ℕ)
    → lookup (put m key loc lba) j ≡ (if bytes_beq key j then some loc else lookup m j)
unfolding lookup put
lookup-put m key j loc lba = ground (
  arith,
  find-insert key j (record (track (entry_or_default (find key m.entries)) lba) { loc = loc })
      m.entries,
)

pub lookup-update_one :
    (m : KeyMap) (key j : Key) (loc : KeyLocation)
    → lookup (update_one m key loc) j ≡ (if bytes_beq key j then some loc else lookup m j)
unfolding lookup update_one
lookup-update_one m key j loc = ground (
  arith,
  find-insert key j (record (entry_or_default (find key m.entries)) { loc = loc }) m.entries,
)

pub lookup-remove_key :
    (m : KeyMap) (key j : Key)
    → lookup (remove_key m key) j ≡ (if bytes_beq key j then none else lookup m j)
unfolding lookup remove_key
lookup-remove_key m key j = ground (arith, find-erase key j m.entries, bytes_beq_iff key j)

-- The index after a key has been moved to an extent.
relink-agrees :
    (m : KeyMap) (key j : Key) (loc : KeyLocation) (x : ℕ)
    → IsIndexed m
    → has j (
        bucket x
          (link loc.extent_id key (moved (find key m.entries) loc.extent_id key m.reverse_index)))
      ≡ located (if bytes_beq key j then some loc else lookup m j) x
unfolding lookup keys_in_extent
relink-agrees m key j loc x v = elim (Option-cases (find key m.entries)) [
  | inl e ↦ ground (
    arith,
    has-link loc.extent_id x key j m.reverse_index,
    bytes_beq_iff key j,
    v.agrees j x,
    v.agrees key x,
  )
  | inr (old, e) ↦ ground (
    arith,
    has-link loc.extent_id x key j m.reverse_index,
    has-link loc.extent_id x key j (unlink old.loc.extent_id key m.reverse_index),
    has-unlink old.loc.extent_id x key j m.reverse_index,
    bytes_beq_iff key j,
    v.agrees j x,
    v.agrees key x,
  )
]

moved-HasNoEmpty :
    (o : Option KeyEntry) (extent : ℕ) (key : Key) (r : Reverse)
    → HasNoEmpty r
    → HasNoEmpty (moved o extent key r)
moved-HasNoEmpty none extent key r h = h
moved-HasNoEmpty (some e) extent key r h = elim (Bool-cases (e.loc.extent_id == extent)) [
  | inl same ↦ rw same h
  | inr other ↦ rw other (unlink-HasNoEmpty e.loc.extent_id key r h)
]

relink-tidy :
    (m : KeyMap) (key : Key) (extent : ℕ)
    → IsIndexed m
    → HasNoEmpty (link extent key (moved (find key m.entries) extent key m.reverse_index))
relink-tidy m key extent v =
    link-HasNoEmpty extent key _ (moved-HasNoEmpty (find key m.entries) extent key _ v.tidy)

pub put-IsIndexed :
    (m : KeyMap) (key : Key) (loc : KeyLocation) (lba : ℕ)
    → IsIndexed m
    → IsIndexed (put m key loc lba)
unfolding keys_in_extent
put-IsIndexed m key loc lba v = record {
  agrees = λ j x. rw (lookup-put m key j loc lba) (unfold put in relink-agrees m key j loc x v);
  tidy = unfold put in relink-tidy m key loc.extent_id v;
}

pub update_one-IsIndexed :
    (m : KeyMap) (key : Key) (loc : KeyLocation) → IsIndexed m → IsIndexed (update_one m key loc)
unfolding keys_in_extent
update_one-IsIndexed m key loc v = record {
  agrees = λ j x.
      rw (lookup-update_one m key j loc) (unfold update_one in relink-agrees m key j loc x v);
  tidy = unfold update_one in relink-tidy m key loc.extent_id v;
}

-- The index agrees with the map after any batch.
pub batch_update-IsIndexed :
    (m : KeyMap) (us : List (Key × KeyLocation)) → IsIndexed m → IsIndexed (batch_update m us)
unfolding batch_update
batch_update-IsIndexed m [] v = v
batch_update-IsIndexed m ((key, loc) ∷ us) v =
    batch_update-IsIndexed (update_one m key loc) us (update_one-IsIndexed m key loc v)

remove_key-agrees :
    (m : KeyMap) (key j : Key) (x : ℕ)
    → IsIndexed m
    → has j (keys_in_extent (remove_key m key) x)
      ≡ located (if bytes_beq key j then none else lookup m j) x
unfolding keys_in_extent remove_key lookup
remove_key-agrees m key j x v = elim (Option-cases (find key m.entries)) [
  | inl e ↦ ground (arith, bytes_beq_iff key j, v.agrees j x)
  | inr (old, e) ↦ ground (
    arith,
    has-unlink old.loc.extent_id x key j m.reverse_index,
    bytes_beq_iff key j,
    v.agrees j x,
  )
]

remove_key-tidy :
    (m : KeyMap) (key : Key) → IsIndexed m → HasNoEmpty (remove_key m key).reverse_index
unfolding remove_key
remove_key-tidy m key v = elim (Option-cases (find key m.entries)) [
  | inl e ↦ rw (e, remove_key) v.tidy
  | inr (old, e) ↦ rw (e, remove_key) (unlink-HasNoEmpty old.loc.extent_id key _ v.tidy)
]

pub remove_key-IsIndexed : (m : KeyMap) (key : Key) → IsIndexed m → IsIndexed (remove_key m key)
remove_key-IsIndexed m key v = record {
  agrees = λ j x.
      remove_key-agrees m key j x v ∙ sym (ap (λ o. located o x) (lookup-remove_key m key j));
  tidy = remove_key-tidy m key v;
}

pub empty-IsIndexed : IsIndexed empty
unfolding empty lookup keys_in_extent find has
empty-IsIndexed = record { agrees = λ key extent. refl; tidy = λ x e. ground arith }

-- The last location that a batch gives a key.
abbrev pub latest : Key → List (Key × KeyLocation) → Option KeyLocation → Option KeyLocation
latest j [] old = old
latest j ((key, loc) ∷ us) old = latest j us (if bytes_beq key j then some loc else old)

-- A batch moves each key to the last location it names for it, and leaves the other keys.
pub lookup-batch_update :
    (m : KeyMap) (us : List (Key × KeyLocation)) (j : Key)
    → lookup (batch_update m us) j ≡ latest j us (lookup m j)
unfolding batch_update
lookup-batch_update m [] j = refl
lookup-batch_update m ((key, loc) ∷ us) j =
    lookup-batch_update (update_one m key loc) us j
    ∙ ap (latest j us) (lookup-update_one m key j loc)
