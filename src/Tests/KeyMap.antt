-- ===== src/Tests/KeyMap.antt =====
-- btier/key_map.cc at concrete calls.
use clab.Prelude.{ℕ, ◌+◌, ◌≡◌, min, arith, List, [], ◌∷◌, none, length, bytes_eq}
use clab.Prelude.Assoc.{has, find}
use clab.Btier.Types.{KeyLocation}
use clab.Btier.KeyMap.{
  Key, empty, lookup, keys_in_extent, get_consecutive_sequential, k_max_seq_award,
}
use clab.Btier.KeyMap.Laws.{located}
use clab.Btier.KeyMap.History.{Call, puts, erases, batches, run, place_after, run-refines}
use clab.Btier.KeyMap.Stride.{put_all, get_consecutive_sequential-put_all}

abbrev key_a : Key
key_a = 97 ∷ []

abbrev key_b : Key
key_b = 98 ∷ 0 ∷ []

abbrev at_extent : ℕ → KeyLocation
at_extent id = record { extent_id = id; offset = 0; length = 8 }

-- Two keys in extent 1, one of them moved to extent 2, the other erased and put again.
abbrev calls : List Call
calls =
    puts key_a (at_extent 1) 0
    ∷ puts key_b (at_extent 1) 8
    ∷ batches ((key_a, at_extent 2) ∷ [])
    ∷ erases key_b
    ∷ puts key_b (at_extent 2) 16
    ∷ []

run-refines_example :
    (lookup (run empty calls) key_b ≡ place_after calls key_b none)
    × (has key_b (keys_in_extent (run empty calls) 2) ≡ located (place_after calls key_b none) 2)
run-refines_example = run-refines calls key_b 2

abbrev writes : List (KeyLocation × ℕ)
writes = (at_extent 1, 4096) ∷ (at_extent 1, 69632) ∷ []

put_all_example :
    get_consecutive_sequential (put_all empty key_a writes) key_a
    ≡ min k_max_seq_award (get_consecutive_sequential empty key_a + length writes)
unfolding get_consecutive_sequential empty find
put_all_example =
    get_consecutive_sequential-put_all empty key_a writes (omega arith)
      (omega arith, (omega arith, tt))
