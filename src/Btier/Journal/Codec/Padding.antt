-- ===== src/Btier/Journal/Codec/Padding.antt =====
-- What the reader makes of the zero bytes that pad a transaction.
use clab.Prelude.{ℕ, zero, suc, ◌+◌, ◌*◌, ◌≤◌, ◌≡◌, refl, List, [], ◌∷◌, some, arith, length}
use clab.Btier.Journal.Codec.{JournalOp, ◌>>=◌, get_le, to_op, blank, deserialize_record}

get_le_total :
    (n : ℕ) (p : List ℕ) → n ≤ length p → (v : ℕ) × (rest : List ℕ) × (get_le n p ≡ some (v, rest))
unfolding get_le
get_le_total zero p h = (0, p, refl)
get_le_total (suc n) [] h = absurd (omega arith)
get_le_total (suc n) (b ∷ p) h =
    let (v, rest, e) = get_le_total n p (omega arith) in (b + 256 * v, rest, rw e)

get_u8_zero : (q : List ℕ) → get_le 1 (0 ∷ q) ≡ some (0, q)
unfolding get_le
get_u8_zero q = refl

-- A zero byte is read as a record whose op is 0, whatever the eight bytes behind it are.
pub deserialize_record_zero :
    (q : List ℕ)
    → 8 ≤ length q
    → (id : ℕ) × (rest : List ℕ) × (deserialize_record (0 ∷ q)
        ≡ some (blank (JournalOp.other 0) id, rest))
unfolding deserialize_record to_op
deserialize_record_zero q h =
    let (id, rest, e) = get_le_total 8 q h in (id, rest, rw (◌>>=◌, get_u8_zero q, e))
