-- ===== src/Prelude/Assoc.antt =====
-- Maps as association lists: std::unordered_map and std::map, when their order is not observed.
use mathlib.Core.Path.{◌≡◌, refl}
use mathlib.Core.Bool.{Bool, true, false, not, ◌&&◌, ◌||◌}
use mathlib.Core.List.{List, [], ◌∷◌}
use mathlib.Core.Option.{Option, none, some}
use native.Mathlib.Omega.{arith}
use clab.Prelude.Tests.{if◌then◌else◌, Eq}

module _ {ℓ κ} {K : Type ℓ} {V : Type κ} ⦃e : Eq K⦄ where
  -- `m.find(k)`; `none` is `m.end()`.
  unfoldable pub find : K → List (K × V) → Option V
  find k [] = none
  find k ((j, v) ∷ m) = if e.beq j k then some v else find k m

  -- `m[k] = v`: the entry is replaced in place, or added.
  unfoldable pub insert : K → V → List (K × V) → List (K × V)
  insert k v [] = (k, v) ∷ []
  insert k v ((j, w) ∷ m) = if e.beq j k then (k, v) ∷ m else (j, w) ∷ insert k v m

  -- `m.erase(k)`.
  unfoldable pub erase : K → List (K × V) → List (K × V)
  erase k [] = []
  erase k ((j, w) ∷ m) = if e.beq j k then erase k m else (j, w) ∷ erase k m

  pub find-insert :
      (k j : K) (v : V) (m : List (K × V))
      → find j (insert k v m) ≡ (if e.beq k j then some v else find j m)
  unfolding find insert
  find-insert k j v [] = refl
  find-insert k j v ((i, w) ∷ m) =
      ground (arith, e.beq_iff k j, e.beq_iff i k, e.beq_iff i j, find-insert k j v m)

  pub find-erase :
      (k j : K) (m : List (K × V)) → find j (erase k m) ≡ (if e.beq k j then none else find j m)
  unfolding find erase
  find-erase k j [] = ground arith
  find-erase k j ((i, w) ∷ m) =
      ground (arith, e.beq_iff k j, e.beq_iff i k, e.beq_iff i j, find-erase k j m)

module _ {ℓ} {K : Type ℓ} ⦃e : Eq K⦄ where
  -- Sets without an order: `s.count(k)`, `s.insert(k)`, `s.erase(k)`.
  unfoldable pub has : K → List K → Bool
  has k [] = false
  has k (j ∷ s) = e.beq j k || has k s

  unfoldable pub add : K → List K → List K
  add k s = if has k s then s else k ∷ s

  unfoldable pub remove : K → List K → List K
  remove k [] = []
  remove k (j ∷ s) = if e.beq j k then remove k s else j ∷ remove k s

  pub beq_self : (k : K) → e.beq k k ≡ true
  beq_self k = (e.beq_iff k k).1 refl

  pub has-add : (k j : K) (s : List K) → has j (add k s) ≡ (e.beq k j || has j s)
  unfolding has add
  has-add k j s = ground (arith, e.beq_iff k j)

  pub has-remove : (k j : K) (s : List K) → has j (remove k s) ≡ (not (e.beq k j) && has j s)
  unfolding has remove
  has-remove k j [] = ground arith
  has-remove k j (i ∷ s) =
      ground (arith, e.beq_iff k j, e.beq_iff i k, e.beq_iff i j, has-remove k j s)
