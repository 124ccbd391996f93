-- ===== src/Btier/KeyMap/Index.antt =====
-- The reverse index by itself: what linking and unlinking a key does to each bucket.
use clab.Prelude.{
  ℕ, ◌≡◌, ◌≢◌, not, ◌&&◌, ◌||◌, List, [], ◌∷◌, some, inl, inr, arith, ◌==◌, if◌then◌else◌,
  Option-cases, bytes_beq, bytes_eq, nat_eq,
}
use clab.Prelude.Assoc.{find, has, add, remove, find-insert, find-erase, has-add, has-remove}
use clab.Btier.KeyMap.{Key, Reverse, unlink, link, bucket}

pub has-link :
    (extent x : ℕ) (key j : Key) (r : Reverse)
    → has j (bucket x (link extent key r))
      ≡ (if extent == x then bytes_beq key j || has j (bucket x r) else has j (bucket x r))
unfolding link
has-link extent x key j r =
    ground
      (arith, find-insert extent x (add key (bucket extent r)) r, has-add key j (bucket extent r))

pub has-unlink :
    (extent x : ℕ) (key j : Key) (r : Reverse)
    → has j (bucket x (unlink extent key r))
      ≡ (if extent == x then not (bytes_beq key j) && has j (bucket x r) else has j (bucket x r))
unfolding unlink has
has-unlink extent x key j r = elim (Option-cases (find extent r)) [
  | inl e ↦ ground arith
  | inr (s, e) ↦
      ground
        (arith, has-remove key j s, find-erase extent x r, find-insert extent x (remove key s) r)
]

-- No bucket is kept for an extent without keys.
abbrev pub HasNoEmpty : Reverse → Type 0
HasNoEmpty r = (x : ℕ) → find x r ≢ some []

add-ne-nil : (k : Key) (s : List Key) → add k s ≢ []
unfolding add has
add-ne-nil k [] = ground arith
add-ne-nil k (j ∷ s) = ground arith

pub link-HasNoEmpty :
    (extent : ℕ) (key : Key) (r : Reverse) → HasNoEmpty r → HasNoEmpty (link extent key r)
unfolding link
link-HasNoEmpty extent key r h x e = ground (
  arith,
  h x,
  find-insert extent x (add key (bucket extent r)) r,
  add-ne-nil key (bucket extent r),
)

pub unlink-HasNoEmpty :
    (extent : ℕ) (key : Key) (r : Reverse) → HasNoEmpty r → HasNoEmpty (unlink extent key r)
unfolding unlink
unlink-HasNoEmpty extent key r h x e = elim (Option-cases (find extent r)) [
  | inl n ↦ ground (arith, h x)
  | inr (s, n) ↦ ground (arith, h x, find-erase extent x r, find-insert extent x (remove key s) r)
]
