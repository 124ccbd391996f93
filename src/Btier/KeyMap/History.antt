-- ===== src/Btier/KeyMap/History.antt =====
-- Any history of calls on the key map, against a plain function from keys to locations.
use clab.Prelude.{
  ℕ, ◌≡◌, refl, ◌∙◌, ap, List, [], ◌∷◌, Option, none, some, if◌then◌else◌, bytes_beq, bytes_eq,
}
use clab.Prelude.Assoc.{has, find}
use clab.Btier.Types.{KeyLocation}
use clab.Btier.KeyMap.{Key, KeyMap, empty, lookup, put, remove_key, batch_update, keys_in_extent}
use clab.Btier.KeyMap.Laws.{
  located, IsIndexed, latest, lookup-put, lookup-remove_key, lookup-batch_update, put-IsIndexed,
  remove_key-IsIndexed, batch_update-IsIndexed, empty-IsIndexed,
}

pub data Call : Type 0 where
  puts : Key → KeyLocation → ℕ → Call
  erases : Key → Call
  batches : List (Key × KeyLocation) → Call

abbrev pub step : KeyMap → Call → KeyMap
step m (puts key loc lba) = put m key loc lba
step m (erases key) = remove_key m key
step m (batches us) = batch_update m us

abbrev pub run : KeyMap → List Call → KeyMap
run m [] = m
run m (c ∷ cs) = run (step m c) cs

-- The plain function: `old` is where the key `j` was before the calls.
abbrev pub placed_by : Call → Key → Option KeyLocation → Option KeyLocation
placed_by (puts key loc lba) j old = if bytes_beq key j then some loc else old
placed_by (erases key) j old = if bytes_beq key j then none else old
placed_by (batches us) j old = latest j us old

abbrev pub place_after : List Call → Key → Option KeyLocation → Option KeyLocation
place_after [] j old = old
place_after (c ∷ cs) j old = place_after cs j (placed_by c j old)

lookup-step : (m : KeyMap) (c : Call) (j : Key) → lookup (step m c) j ≡ placed_by c j (lookup m j)
lookup-step m (puts key loc lba) j = lookup-put m key j loc lba
lookup-step m (erases key) j = lookup-remove_key m key j
lookup-step m (batches us) j = lookup-batch_update m us j

step-IsIndexed : (m : KeyMap) (c : Call) → IsIndexed m → IsIndexed (step m c)
step-IsIndexed m (puts key loc lba) v = put-IsIndexed m key loc lba v
step-IsIndexed m (erases key) v = remove_key-IsIndexed m key v
step-IsIndexed m (batches us) v = batch_update-IsIndexed m us v

pub lookup-run :
    (m : KeyMap) (cs : List Call) (j : Key) → lookup (run m cs) j ≡ place_after cs j (lookup m j)
lookup-run m [] j = refl
lookup-run m (c ∷ cs) j = lookup-run (step m c) cs j ∙ ap (place_after cs j) (lookup-step m c j)

run-IsIndexed : (m : KeyMap) (cs : List Call) → IsIndexed m → IsIndexed (run m cs)
run-IsIndexed m [] v = v
run-IsIndexed m (c ∷ cs) v = run-IsIndexed (step m c) cs (step-IsIndexed m c v)

pub lookup-empty : (j : Key) → lookup empty j ≡ none
unfolding lookup empty find
lookup-empty j = refl

-- After any puts, erases and batch updates on an empty key map, lookup answers with the last
-- location a call gave the key, or not at all if it was erased since, and the key stands in the
-- reverse index of an extent exactly when that location is in the extent.
pub run-refines :
    (cs : List Call) (j : Key) (extent : ℕ)
    → (lookup (run empty cs) j ≡ place_after cs j none)
      × (has j (keys_in_extent (run empty cs) extent) ≡ located (place_after cs j none) extent)
run-refines cs j extent =
    let found = lookup-run empty cs j ∙ ap (place_after cs j) (lookup-empty j) in
    let v = run-IsIndexed empty cs empty-IsIndexed in
    (found, v.agrees j extent ∙ ap (λ o. located o extent) found)
