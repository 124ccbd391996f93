-- ===== src/Btier/Journal/Codec.antt =====
-- btier/journal.h and the serialization helpers of btier/journal.cc. Numbers are written as on a
-- little-endian machine; a read past the end of the buffer throws, which is `none`.
pub mod RoundTrip
pub mod Shrinks
pub mod Padding
use clab.Prelude.{
  ℕ, zero, suc, ◌+◌, ◌*◌, ◌/◌, ◌%◌, ◌^◌, Bool, List, [], ◌∷◌, ◌++◌, Option, none, some, length,
  ◌==◌, if◌then◌else◌,
}
use clab.Btier.Types.{DiskLocation, KeyLocation, Tier, tier_byte, to_tier}

-- A uint8_t enumeration: `other` is what a cast makes of a byte that names no operation.
pub data JournalOp : Type 0 where
  txn_begin key_put key_del mark_dead extent_new extent_free txn_commit checkpoint : JournalOp
  other : ℕ → JournalOp

abbrev pub op_byte : JournalOp → ℕ
op_byte txn_begin = 1
op_byte key_put = 2
op_byte key_del = 3
op_byte mark_dead = 4
op_byte extent_new = 5
op_byte extent_free = 6
op_byte txn_commit = 7
op_byte checkpoint = 8
op_byte (JournalOp.other b) = b

-- `(JournalOp)b`
pub to_op : ℕ → JournalOp
to_op b =
    if b == 1
    then txn_begin
    else if b == 2
    then key_put
    else if b == 3
    then key_del
    else if b == 4
    then mark_dead
    else if b == 5
    then extent_new
    else if b == 6
    then extent_free
    else if b == 7
    then txn_commit
    else if b == 8
    then checkpoint
    else JournalOp.other b

pub record JournalRecord : Type 0 where
  pub op : JournalOp
  pub txn_id : ℕ
  pub key : List ℕ
  pub key_loc : KeyLocation
  pub extent_id : ℕ
  pub extent_loc : DiskLocation
  pub dead_length : ℕ
  pub crc : ℕ

-- `JournalRecord rec; rec.op = op; rec.txn_id = id;`
abbrev pub blank : JournalOp → ℕ → JournalRecord
blank op id = record {
  op = op;
  txn_id = id;
  key = [];
  key_loc = record { extent_id = 0; offset = 0; length = 0 };
  extent_id = 0;
  extent_loc = record { offset = 0; length = 0; tier = Tier.fast };
  dead_length = 0;
  crc = 0;
}

-- The `n` low bytes of a number.
unfoldable pub put_le : ℕ → ℕ → List ℕ
put_le zero v = []
put_le (suc n) v = (v % 256) ∷ put_le n (v / 256)

abbrev pub put_u8 : ℕ → List ℕ
put_u8 v = put_le 1 v

abbrev pub put_u32 : ℕ → List ℕ
put_u32 v = put_le 4 v

abbrev pub put_u64 : ℕ → List ℕ
put_u64 v = put_le 8 v

abbrev pub put_string : List ℕ → List ℕ
put_string s = put_u32 (length s) ++ s

abbrev pub put_key_location : KeyLocation → List ℕ
put_key_location kl = put_u64 kl.extent_id ++ (put_u32 kl.offset ++ put_u32 kl.length)

abbrev pub put_disk_location : DiskLocation → List ℕ
put_disk_location dl = put_u64 dl.offset ++ (put_u32 dl.length ++ put_u8 (tier_byte dl.tier))

-- What the switch of `serialize_record` writes.
abbrev pub body : JournalOp → JournalRecord → List ℕ
body key_put r = put_string r.key ++ put_key_location r.key_loc
body key_del r = put_string r.key
body mark_dead r = put_u64 r.extent_id ++ put_u32 r.dead_length
body extent_new r = put_u64 r.extent_id ++ put_disk_location r.extent_loc
body extent_free r = put_u64 r.extent_id
body txn_commit r = put_u32 r.crc
body _ r = []

unfoldable pub serialize_record : JournalRecord → List ℕ
serialize_record r = put_u8 (op_byte r.op) ++ (put_u64 r.txn_id ++ body r.op r)

-- A read takes bytes from the front of what is left of the buffer.
abbrev pub Get : Type 0 → Type 0
Get A = List ℕ → Option (A × List ℕ)

infixl 5 ◌>>=◌
abbrev pub ◌>>=◌ : {A B : Type 0} → Get A → (A → Get B) → Get B
◌>>=◌ m f p = elim (m p) [ none ↦ none | some (a, rest) ↦ f a rest ]

abbrev pub pure : {A : Type 0} → A → Get A
pure a p = some (a, p)

abbrev cons_byte : ℕ → Option (ℕ × List ℕ) → Option (ℕ × List ℕ)
cons_byte b none = none
cons_byte b (some (v, rest)) = some (b + 256 * v, rest)

pub get_le : ℕ → Get ℕ
get_le zero p = some (0, p)
get_le (suc n) [] = none
get_le (suc n) (b ∷ p) = cons_byte b (get_le n p)

abbrev cons_char : ℕ → Option (List ℕ × List ℕ) → Option (List ℕ × List ℕ)
cons_char b none = none
cons_char b (some (s, rest)) = some (b ∷ s, rest)

pub get_chars : ℕ → Get (List ℕ)
get_chars zero p = some ([], p)
get_chars (suc n) [] = none
get_chars (suc n) (b ∷ p) = cons_char b (get_chars n p)

abbrev pub get_u8 : Get ℕ
get_u8 = get_le 1

abbrev pub get_u32 : Get ℕ
get_u32 = get_le 4

abbrev pub get_u64 : Get ℕ
get_u64 = get_le 8

pub get_string : Get (List ℕ)
get_string = do len ← get_u32; get_chars len

pub get_key_location : Get KeyLocation
get_key_location = do
  extent ← get_u64
  off ← get_u32
  len ← get_u32
  pure (record { extent_id = extent; offset = off; length = len })

pub get_disk_location : Get DiskLocation
get_disk_location = do
  off ← get_u64
  len ← get_u32
  b ← get_u8
  pure (record { offset = off; length = len; tier = to_tier b })

-- What the switch of `deserialize_record` reads into a record that has its op and txn_id.
abbrev pub get_body : JournalOp → JournalRecord → Get JournalRecord
get_body key_put r = do
  k ← get_string
  kl ← get_key_location
  pure (record r { key = k; key_loc = kl })
get_body key_del r = do k ← get_string; pure (record r { key = k })
get_body mark_dead r = do
  e ← get_u64
  d ← get_u32
  pure (record r { extent_id = e; dead_length = d })
get_body extent_new r = do
  e ← get_u64
  l ← get_disk_location
  pure (record r { extent_id = e; extent_loc = l })
get_body extent_free r = do e ← get_u64; pure (record r { extent_id = e })
get_body txn_commit r = do c ← get_u32; pure (record r { crc = c })
get_body _ r = pure r

pub deserialize_record : Get JournalRecord
deserialize_record = do b ← get_u8; id ← get_u64; get_body (to_op b) (blank (to_op b) id)
