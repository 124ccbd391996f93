-- ===== src/Btier/Journal/Codec/Shrinks.antt =====
-- How many bytes the reads of btier/journal.cc leave.
use clab.Prelude.{
  ℕ, zero, suc, ◌≤◌, ◌<◌, ◌≡◌, inl, inr, List, [], ◌∷◌, some, arith, length, Option-cases,
}
use clab.Btier.Journal.Codec.{
  JournalOp, key_put, key_del, mark_dead, extent_new, extent_free, txn_commit, JournalRecord, Get,
  ◌>>=◌, get_le, get_chars, get_string, get_key_location, get_disk_location, get_body, to_op, blank,
  deserialize_record,
}

-- A read never leaves more bytes than it was given.
abbrev Shrinks : {A : Type 0} → Get A → Type 0
Shrinks {A} m = (p : List ℕ) (a : A) (rest : List ℕ) → m p ≡ some (a, rest) → length rest ≤ length p

get_le-Shrinks : (n : ℕ) → Shrinks (get_le n)
unfolding get_le
get_le-Shrinks zero p a rest e = ground arith
get_le-Shrinks (suc n) [] a rest e = ground arith
get_le-Shrinks (suc n) (b ∷ p) a rest e = elim (Option-cases (get_le n p)) [
  | inl h ↦ ground arith
  | inr ((v, r), h) ↦ ground (arith, get_le-Shrinks n p v r)
]

get_chars-Shrinks : (n : ℕ) → Shrinks (get_chars n)
unfolding get_chars
get_chars-Shrinks zero p a rest e = ground arith
get_chars-Shrinks (suc n) [] a rest e = ground arith
get_chars-Shrinks (suc n) (b ∷ p) a rest e = elim (Option-cases (get_chars n p)) [
  | inl h ↦ ground arith
  | inr ((v, r), h) ↦ ground (arith, get_chars-Shrinks n p v r)
]

>>=-Shrinks :
    {A B : Type 0} (m : Get A) (f : A → Get B)
    → Shrinks m
    → ((a : A) → Shrinks (f a))
    → Shrinks (m >>= f)
>>=-Shrinks m f hm hf p b rest e = elim (Option-cases (m p)) [
  | inl h ↦ ground arith
  | inr ((a, r), h) ↦ ground (arith, hm p a r, hf a r b rest)
]

pure-Shrinks : {A : Type 0} (a : A) → Shrinks (λ p. some (a, p))
pure-Shrinks a p b rest e = ground arith

get_string-Shrinks : Shrinks get_string
unfolding get_string
get_string-Shrinks = >>=-Shrinks _ _ (get_le-Shrinks 4) (λ n. get_chars-Shrinks n)

get_key_location-Shrinks : Shrinks get_key_location
unfolding get_key_location
get_key_location-Shrinks = >>=-Shrinks _ _ (get_le-Shrinks 8) (λ e.
    >>=-Shrinks _ _ (get_le-Shrinks 4)
      (λ o. >>=-Shrinks _ _ (get_le-Shrinks 4) (λ l. pure-Shrinks _)))

get_disk_location-Shrinks : Shrinks get_disk_location
unfolding get_disk_location
get_disk_location-Shrinks = >>=-Shrinks _ _ (get_le-Shrinks 8) (λ o.
    >>=-Shrinks _ _ (get_le-Shrinks 4)
      (λ l. >>=-Shrinks _ _ (get_le-Shrinks 1) (λ b. pure-Shrinks _)))

get_body-Shrinks : (o : JournalOp) (r : JournalRecord) → Shrinks (get_body o r)
get_body-Shrinks key_put r =
    >>=-Shrinks _ _ get_string-Shrinks
      (λ k. >>=-Shrinks _ _ get_key_location-Shrinks (λ l. pure-Shrinks _))
get_body-Shrinks key_del r = >>=-Shrinks _ _ get_string-Shrinks (λ k. pure-Shrinks _)
get_body-Shrinks mark_dead r =
    >>=-Shrinks _ _ (get_le-Shrinks 8)
      (λ e. >>=-Shrinks _ _ (get_le-Shrinks 4) (λ d. pure-Shrinks _))
get_body-Shrinks extent_new r =
    >>=-Shrinks _ _ (get_le-Shrinks 8)
      (λ e. >>=-Shrinks _ _ get_disk_location-Shrinks (λ l. pure-Shrinks _))
get_body-Shrinks extent_free r = >>=-Shrinks _ _ (get_le-Shrinks 8) (λ e. pure-Shrinks _)
get_body-Shrinks txn_commit r = >>=-Shrinks _ _ (get_le-Shrinks 4) (λ c. pure-Shrinks _)
get_body-Shrinks _ r = pure-Shrinks r

get_u8-lt :
    (p : List ℕ) (v : ℕ) (rest : List ℕ) → get_le 1 p ≡ some (v, rest) → length rest < length p
unfolding get_le
get_u8-lt [] v rest e = ground arith
get_u8-lt (b ∷ p) v rest e = ground arith

-- A record that is read takes at least one byte.
pub deserialize_record-lt :
    (p : List ℕ) (r : JournalRecord) (rest : List ℕ)
    → deserialize_record p ≡ some (r, rest)
    → length rest < length p
unfolding deserialize_record
deserialize_record-lt p r rest e = elim (Option-cases (get_le 1 p)) [
  | inl h ↦ ground arith
  | inr ((b, q), h) ↦
      let tail =
        >>=-Shrinks (get_le 8) (λ id. get_body (to_op b) (blank (to_op b) id)) (get_le-Shrinks 8)
          (λ id. get_body-Shrinks (to_op b) (blank (to_op b) id)) in
      ground (arith, get_u8-lt p b q h, tail q r rest)
]
