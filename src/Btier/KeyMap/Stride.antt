-- ===== src/Btier/KeyMap/Stride.antt =====
-- The stride counter of a key, which the scoring reads as a sign of sequential writes.
use clab.Prelude.{
  ℕ, ◌+◌, ◌-◌, ◌≤◌, ◌≡◌, false, min, List, [], ◌∷◌, arith, length, bytes_beq, bytes_beq_iff,
  bytes_eq,
}
use clab.Prelude.Assoc.{find, find-insert}
use clab.Btier.Types.{KeyLocation}
use clab.Btier.KeyMap.{
  Key, KeyMap, k_sequential_threshold, k_max_seq_award, track, put, entry_or_default,
  get_consecutive_sequential,
}

abbrev pub distance : ℕ → ℕ → ℕ
distance a b = (a - b) + (b - a)

-- The address of the last write of a key; a key that is new counts from address 0.
abbrev pub last_lba_of : KeyMap → Key → ℕ
last_lba_of m key = (entry_or_default (find key m.entries)).last_lba

-- A write within 64 KiB of the last one lengthens the streak up to 63, any other ends it, and the
-- streaks of other keys stay.
pub get_consecutive_sequential-put :
    (m : KeyMap) (key j : Key) (loc : KeyLocation) (lba : ℕ)
    → get_consecutive_sequential m key ≤ k_max_seq_award
    → (distance lba (last_lba_of m key) ≤ k_sequential_threshold
        → get_consecutive_sequential (put m key loc lba) key
          ≡ min k_max_seq_award (get_consecutive_sequential m key + 1))
      × (k_sequential_threshold + 1 ≤ distance lba (last_lba_of m key)
          → get_consecutive_sequential (put m key loc lba) key ≡ 0)
      × (bytes_beq key j ≡ false
          → get_consecutive_sequential (put m key loc lba) j ≡ get_consecutive_sequential m j)
unfolding get_consecutive_sequential put track
get_consecutive_sequential-put m key j loc lba small =
    let e = track (entry_or_default (find key m.entries)) lba in
    let at_key = find-insert key key (record e { loc = loc }) m.entries in
    (
      ground (arith, at_key, bytes_beq_iff key key),
      ground (arith, at_key, bytes_beq_iff key key),
      ground (arith, find-insert key j (record e { loc = loc }) m.entries),
    )

last_lba_of-put :
    (m : KeyMap) (key : Key) (loc : KeyLocation) (lba : ℕ)
    → last_lba_of (put m key loc lba) key ≡ lba
unfolding put track
last_lba_of-put m key loc lba = ground (
  arith,
  find-insert key key (record (track (entry_or_default (find key m.entries)) lba) { loc = loc })
      m.entries,
  bytes_beq_iff key key,
)

abbrev pub put_all : KeyMap → Key → List (KeyLocation × ℕ) → KeyMap
put_all m key [] = m
put_all m key ((loc, lba) ∷ ws) = put_all (put m key loc lba) key ws

-- Each write lies within 64 KiB of the one before it.
abbrev pub IsSequential : ℕ → List (KeyLocation × ℕ) → Type 0
IsSequential prev [] = Unit {0}
IsSequential prev ((loc, lba) ∷ ws) =
    (distance lba prev ≤ k_sequential_threshold) × IsSequential lba ws

-- For a key whose stride counter is at most 63, and puts of that key each within 64 KiB of the one
-- before: n of them bring the counter from c to the smaller of 63 and c + n.
pub get_consecutive_sequential-put_all :
    (m : KeyMap) (key : Key) (ws : List (KeyLocation × ℕ))
    → get_consecutive_sequential m key ≤ k_max_seq_award
    → IsSequential (last_lba_of m key) ws
    → get_consecutive_sequential (put_all m key ws) key
      ≡ min k_max_seq_award (get_consecutive_sequential m key + length ws)
get_consecutive_sequential-put_all m key [] small s = omega arith
get_consecutive_sequential-put_all m key ((loc, lba) ∷ ws) small s =
    let one = (get_consecutive_sequential-put m key key loc lba small).0 s.0 in
    let rest =
      get_consecutive_sequential-put_all (put m key loc lba) key ws (omega (arith, one))
        (rw (last_lba_of-put m key loc lba) s.1) in
    omega (arith, one, rest)
