-- ===== src/Btier/Journal/Codec/RoundTrip.antt =====
-- Reading back what `serialize_record` wrote, with any bytes behind it.
use native.Mathlib.Nat.{pow-suc}
use mathlib.Core.List.{append_assoc}
use clab.Prelude.{
  ℕ, zero, suc, ◌/◌, ◌^◌, ◌≤◌, ◌<◌, ◌≡◌, refl, ap, ◌⊎◌, List, [], ◌∷◌, ◌++◌, some, arith, length,
  length-append,
}
use clab.Btier.Types.{DiskLocation, KeyLocation, Tier, tier_byte, to_tier}
use clab.Btier.Journal.Codec.{
  JournalOp, txn_begin, key_put, key_del, mark_dead, extent_new, extent_free, txn_commit, op_byte,
  to_op, JournalRecord, blank, put_le, put_u8, put_u32, put_u64, put_string, put_key_location,
  put_disk_location, body, serialize_record, ◌>>=◌, get_le, get_chars, get_string, get_key_location,
  get_disk_location, get_body, deserialize_record,
}

-- The bytes that the enumerators leave free.
abbrev pub IsOp : JournalOp → Type 0
IsOp (JournalOp.other b) = ((b ≡ 0) ⊎ (9 ≤ b)) × (b < 256)
IsOp _ = Unit {0}

abbrev pub IsTier : Tier → Type 0
IsTier (Tier.other b) = (2 ≤ b) × (b < 256)
IsTier _ = Unit {0}

pub to_op-op_byte : (o : JournalOp) → IsOp o → to_op (op_byte o) ≡ o
unfolding to_op
to_op-op_byte (JournalOp.other b) h = ground arith
to_op-op_byte txn_begin h = refl
to_op-op_byte _ h = refl

op_byte-lt : (o : JournalOp) → IsOp o → op_byte o < 256
op_byte-lt (JournalOp.other b) h = h.1
op_byte-lt txn_begin h = omega arith
op_byte-lt _ h = omega arith

to_tier-tier_byte : (t : Tier) → IsTier t → (to_tier (tier_byte t) ≡ t) × (tier_byte t < 256)
to_tier-tier_byte Tier.fast h = (refl, omega arith)
to_tier-tier_byte Tier.slow h = (refl, omega arith)
to_tier-tier_byte (Tier.other b) h = (ground arith, h.1)

pub get_le-put_le :
    (n v : ℕ) (rest : List ℕ) → v < 256 ^ n → get_le n (put_le n v ++ rest) ≡ some (v, rest)
unfolding get_le put_le
get_le-put_le zero v rest h = ap (λ (k : ℕ). some (k, rest)) (omega arith)
get_le-put_le (suc n) v rest h =
    rw (get_le-put_le n (v / 256) rest (omega (arith, pow-suc 256 n)))
      (ap (λ (k : ℕ). some (k, rest)) (omega arith))

get_chars-append : (s rest : List ℕ) → get_chars (length s) (s ++ rest) ≡ some (s, rest)
unfolding get_chars
get_chars-append [] rest = refl
get_chars-append (c ∷ s) rest = rw (get_chars-append s rest)

pub length-put_le : (n v : ℕ) → length (put_le n v) ≡ n
unfolding put_le
length-put_le zero v = refl
length-put_le (suc n) v = ap suc (length-put_le n (v / 256))

-- Every field lies in the range of its C++ type, and a key has a 32-bit length.
pub record Fits (r : JournalRecord) : Type 0 where
  pub op : IsOp r.op
  pub txn_id : r.txn_id < 2 ^ 64
  pub key : length r.key < 2 ^ 32
  pub key_extent : r.key_loc.extent_id < 2 ^ 64
  pub key_offset : r.key_loc.offset < 2 ^ 32
  pub key_length : r.key_loc.length < 2 ^ 32
  pub extent_id : r.extent_id < 2 ^ 64
  pub loc_offset : r.extent_loc.offset < 2 ^ 64
  pub loc_length : r.extent_loc.length < 2 ^ 32
  pub loc_tier : IsTier r.extent_loc.tier
  pub dead_length : r.dead_length < 2 ^ 32
  pub crc : r.crc < 2 ^ 32

-- What an operation keeps of a record: its own fields. The others are not written.
abbrev pub kept_of : JournalOp → JournalRecord → JournalRecord
kept_of key_put r = record (blank key_put r.txn_id) { key = r.key; key_loc = r.key_loc }
kept_of key_del r = record (blank key_del r.txn_id) { key = r.key }
kept_of mark_dead r = record (blank mark_dead r.txn_id) {
  extent_id = r.extent_id;
  dead_length = r.dead_length;
}
kept_of extent_new r = record (blank extent_new r.txn_id) {
  extent_id = r.extent_id;
  extent_loc = r.extent_loc;
}
kept_of extent_free r = record (blank extent_free r.txn_id) { extent_id = r.extent_id }
kept_of txn_commit r = record (blank txn_commit r.txn_id) { crc = r.crc }
kept_of o r = blank o r.txn_id

abbrev pub kept : JournalRecord → JournalRecord
kept r = kept_of r.op r

get_string-append :
    (s rest : List ℕ) → length s < 2 ^ 32 → get_string (put_string s ++ rest) ≡ some (s, rest)
unfolding get_string
get_string-append s rest h =
    rw (append_assoc (put_u32 (length s)) s rest, get_le-put_le 4 (length s) (s ++ rest) h, ◌>>=◌)
      (get_chars-append s rest)

get_key_location-append :
    (k : KeyLocation) (rest : List ℕ)
    → k.extent_id < 2 ^ 64
    → k.offset < 2 ^ 32
    → k.length < 2 ^ 32
    → get_key_location (put_key_location k ++ rest) ≡ some (k, rest)
unfolding get_key_location
get_key_location-append k rest a b c = rw (
  ◌>>=◌,
  append_assoc (put_u64 k.extent_id) (put_u32 k.offset ++ put_u32 k.length) rest,
  append_assoc (put_u32 k.offset) (put_u32 k.length) rest,
  get_le-put_le 8 k.extent_id (put_u32 k.offset ++ (put_u32 k.length ++ rest)) a,
  get_le-put_le 4 k.offset (put_u32 k.length ++ rest) b,
  get_le-put_le 4 k.length rest c,
)

get_disk_location-append :
    (l : DiskLocation) (rest : List ℕ)
    → l.offset < 2 ^ 64
    → l.length < 2 ^ 32
    → IsTier l.tier
    → get_disk_location (put_disk_location l ++ rest) ≡ some (l, rest)
unfolding get_disk_location
get_disk_location-append l rest a b c = rw (
  ◌>>=◌,
  append_assoc (put_u64 l.offset) (put_u32 l.length ++ put_u8 (tier_byte l.tier)) rest,
  append_assoc (put_u32 l.length) (put_u8 (tier_byte l.tier)) rest,
  get_le-put_le 8 l.offset (put_u32 l.length ++ (put_u8 (tier_byte l.tier) ++ rest)) a,
  get_le-put_le 4 l.length (put_u8 (tier_byte l.tier) ++ rest) b,
  get_le-put_le 1 (tier_byte l.tier) rest (to_tier-tier_byte l.tier c).1,
  (to_tier-tier_byte l.tier c).0,
)

get_body-append :
    (o : JournalOp) (r : JournalRecord) (rest : List ℕ)
    → Fits r
    → get_body o (blank o r.txn_id) (body o r ++ rest) ≡ some (kept_of o r, rest)
get_body-append key_put r rest f = rw (
  ◌>>=◌,
  append_assoc (put_string r.key) (put_key_location r.key_loc) rest,
  get_string-append r.key (put_key_location r.key_loc ++ rest) f.key,
  get_key_location-append r.key_loc rest f.key_extent f.key_offset f.key_length,
)
get_body-append key_del r rest f = rw (◌>>=◌, get_string-append r.key rest f.key)
get_body-append mark_dead r rest f = rw (
  ◌>>=◌,
  append_assoc (put_u64 r.extent_id) (put_u32 r.dead_length) rest,
  get_le-put_le 8 r.extent_id (put_u32 r.dead_length ++ rest) f.extent_id,
  get_le-put_le 4 r.dead_length rest f.dead_length,
)
get_body-append extent_new r rest f = rw (
  ◌>>=◌,
  append_assoc (put_u64 r.extent_id) (put_disk_location r.extent_loc) rest,
  get_le-put_le 8 r.extent_id (put_disk_location r.extent_loc ++ rest) f.extent_id,
  get_disk_location-append r.extent_loc rest f.loc_offset f.loc_length f.loc_tier,
)
get_body-append extent_free r rest f = rw (◌>>=◌, get_le-put_le 8 r.extent_id rest f.extent_id)
get_body-append txn_commit r rest f = rw (◌>>=◌, get_le-put_le 4 r.crc rest f.crc)
get_body-append _ r rest f = refl

-- For a record whose fields fit their C++ types, reading back what serialize_record wrote gives
-- the operation, the transaction id and the fields of that operation, and leaves the bytes behind
-- it.
pub deserialize_record-serialize_record :
    (r : JournalRecord) (rest : List ℕ)
    → Fits r
    → deserialize_record (serialize_record r ++ rest) ≡ some (kept r, rest)
unfolding deserialize_record serialize_record
deserialize_record-serialize_record r rest f =
    rw
      (
        ◌>>=◌,
        append_assoc (put_u8 (op_byte r.op)) (put_u64 r.txn_id ++ body r.op r) rest,
        append_assoc (put_u64 r.txn_id) (body r.op r) rest,
        get_le-put_le 1 (op_byte r.op) (put_u64 r.txn_id ++ (body r.op r ++ rest))
            (op_byte-lt r.op f.op),
        get_le-put_le 8 r.txn_id (body r.op r ++ rest) f.txn_id,
        to_op-op_byte r.op f.op,
      )
      (get_body-append r.op r rest f)

-- The fields that are not kept are not written either.
pub serialize_record-kept : (r : JournalRecord) → serialize_record (kept r) ≡ serialize_record r
unfolding serialize_record
serialize_record-kept r = go r.op r refl
  where
    go :
        (o : JournalOp) (r : JournalRecord)
        → r.op ≡ o
        → serialize_record (kept_of o r) ≡ put_u8 (op_byte o) ++ (put_u64 r.txn_id ++ body o r)
    go key_put r e = refl
    go _ r e = refl

-- A record has its op and its transaction id at least.
pub length-serialize_record : (r : JournalRecord) → 9 ≤ length (serialize_record r)
unfolding serialize_record
length-serialize_record r = omega (
  arith,
  length-append (put_u8 (op_byte r.op)) (put_u64 r.txn_id ++ body r.op r),
  length-append (put_u64 r.txn_id) (body r.op r),
  length-put_le 1 (op_byte r.op),
  length-put_le 8 r.txn_id,
)
