-- ===== src/Btier/Journal/State.antt =====
-- `Journal` and `Journal::Impl` of btier/journal.cc. Every method holds the one lock while it
-- touches the state, so a method is one step. Offsets and ids are
-- taken to stay so far below 2 ^ 64 that their sums do not wrap.
use clab.Prelude.{
  ℕ, ◌+◌, ◌-◌, ◌*◌, Bool, true, List, [], ◌∷◌, ◌++◌, none, some, length, replicate, ltb, leb, ◌==◌,
  if◌then◌else◌, nat_eq,
}
use clab.Prelude.Assoc.{find, insert, erase}
use clab.Btier.Device.{Status, ok, error, enoent, eio, Read, got, failed, BlockDevice}
use clab.Btier.Journal.Codec.{JournalRecord, put_u64, Get, ◌>>=◌, pure, get_u64, serialize_record}
use clab.Btier.Journal.Block.{txn_block, checkpoint_block, padded_length, pad}

abbrev pub k_superblock_size : ℕ
k_superblock_size = 4096

abbrev pub k_data_start : ℕ
k_data_start = k_superblock_size

abbrev pub magic_number : ℕ
magic_number = 0x4254_4A53_5042_3031

-- JournalSuperBlock
pub record SuperBlock : Type 0 where
  pub magic : ℕ
  pub checkpoint_offset : ℕ
  pub checkpoint_seqno : ℕ
  pub write_offset : ℕ

abbrev pub fresh_superblock : SuperBlock
fresh_superblock = record {
  magic = magic_number;
  checkpoint_offset = 0;
  checkpoint_seqno = 0;
  write_offset = 0;
}

-- `uint64_t pad[508]`; nothing reads it.
unfoldable pub pad_words : List ℕ
pad_words = replicate 4064 0

unfoldable pub encode_superblock : SuperBlock → List ℕ
encode_superblock sb =
    put_u64 sb.magic
    ++ (put_u64 sb.checkpoint_offset
        ++ (put_u64 sb.checkpoint_seqno ++ (put_u64 sb.write_offset ++ pad_words)))

unfoldable pub get_superblock : Get SuperBlock
get_superblock = do
  m ← get_u64
  c ← get_u64
  q ← get_u64
  w ← get_u64
  pure (record { magic = m; checkpoint_offset = c; checkpoint_seqno = q; write_offset = w })

-- The `memcpy` out of a buffer, which has been found long enough.
unfoldable pub decode_superblock : List ℕ → SuperBlock
unfolding get_superblock
decode_superblock bl = elim (get_superblock bl) [
  | none ↦ record { magic = 0; checkpoint_offset = 0; checkpoint_seqno = 0; write_offset = 0 }
  | some (sb, rest) ↦ sb
]

pub record TxnBuffer : Type 0 where
  pub txn_id : ℕ
  pub txn_records : List JournalRecord
  pub serialized : List ℕ

pub record Journal (D : Type 0) : Type 0 where
  pub dev : D
  pub data_size : ℕ
  pub next_txn_id : ℕ
  pub active_txns : List (ℕ × TxnBuffer)
  pub superblock : SuperBlock
  pub write_offset : ℕ

-- Journal::get_used_bytes
pub get_used_bytes : {D : Type 0} → Journal D → ℕ
get_used_bytes j =
    if leb j.superblock.checkpoint_offset j.write_offset
    then j.write_offset - j.superblock.checkpoint_offset
    else j.data_size - j.superblock.checkpoint_offset + j.write_offset

-- `get_usage() >= percent / 100.0`. Below 2 ^ 50 bytes the quotient of doubles compares with the
-- literals as the fraction does.
abbrev usage_at_least : {D : Type 0} → Journal D → ℕ → Bool
usage_at_least j percent =
    if j.data_size == 0 then true else leb (percent * j.data_size) (100 * get_used_bytes j)

pub needs_checkpoint : {D : Type 0} → Journal D → Bool
needs_checkpoint j = usage_at_least j 80

pub is_near_full : {D : Type 0} → Journal D → Bool
is_near_full j = usage_at_least j 95

-- Journal::begin_txn
unfoldable pub begin_txn : {D : Type 0} → Journal D → Journal D × ℕ
begin_txn j =
    let id = j.next_txn_id in
    let old : TxnBuffer = elim (find id j.active_txns) [
      | none ↦ record { txn_id = id; txn_records = []; serialized = [] }
      | some tb ↦ record tb { txn_id = id }
    ] in
    (record j { next_txn_id = id + 1; active_txns = insert id old j.active_txns }, id)

-- Journal::append
unfoldable pub append : {D : Type 0} → Journal D → ℕ → JournalRecord → Journal D × Status
append j id rec = elim (find id j.active_txns) [
  | none ↦ (j, error enoent)
  | some tb ↦
      let r = record rec { txn_id = id } in
      let tb' = record tb {
        txn_records = tb.txn_records ++ (r ∷ []);
        serialized = tb.serialized ++ serialize_record r;
      } in
      (record j { active_txns = insert id tb' j.active_txns }, ok)
]

module _ {D : Type 0} (device : BlockDevice D) where
  -- Journal::sync and Journal::close: a flush.
  pub sync : Journal D → Journal D
  sync j = let (d, st) = device.flush j.dev in record j { dev = d }

  abbrev pub flush_after : Journal D → D × Status → Journal D × Status
  flush_after j (d, error e) = (record j { dev = d }, error e)
  flush_after j (d, ok) = let (d', st) = device.flush d in (record j { dev = d' }, st)

  unfoldable pub write_superblock : Journal D → Journal D × Status
  write_superblock j = flush_after j (device.write j.dev 0 (encode_superblock j.superblock))

  -- The two early returns, and the first use of a device without a superblock.
  abbrev pub on_superblock : Journal D → Read → Journal D × Status
  on_superblock j (failed e) = (j, error e)
  on_superblock j (got bl) =
      let sb = decode_superblock bl in
      let first_use =
        write_superblock (record j { superblock = fresh_superblock; write_offset = 0 }) in
      if ltb (length bl) k_superblock_size
      then (j, error eio)
      else if sb.magic == magic_number
      then (record j { superblock = sb; write_offset = sb.write_offset }, ok)
      else first_use

  unfoldable pub read_superblock : Journal D → Journal D × Status
  unfolding write_superblock
  read_superblock j = on_superblock j (device.read j.dev 0 k_superblock_size)

  -- Journal::Journal
  unfoldable pub construct : D → ℕ → Journal D
  unfolding read_superblock
  construct d dev_size =
      (read_superblock (record {
        dev = d;
        data_size = dev_size - k_superblock_size;
        next_txn_id = 1;
        active_txns = [];
        superblock = record fresh_superblock { magic = 0 };
        write_offset = 0;
      })).0

  abbrev pub advance : Journal D → ℕ → ℕ
  advance j next = if leb j.data_size next then 0 else next

  abbrev pub after_data : Journal D → ℕ → D × Status → Journal D × Status
  after_data j padded (d, error e) = (record j { dev = d }, error e)
  after_data j padded (d, ok) =
      let (d', st) = device.flush d in
      (record j { dev = d'; write_offset = advance j (j.write_offset + padded) }, st)

  -- A block that does not fit behind the write head goes to the beginning.
  unfoldable pub pad_and_write : Journal D → List ℕ → Journal D × Status
  pad_and_write j bl =
      let padded = padded_length (length bl) in
      let wrapped : Journal D =
        if ltb j.data_size (j.write_offset + padded) then record j { write_offset = 0 } else j in
      after_data wrapped padded
        (device.write wrapped.dev (k_data_start + wrapped.write_offset) (pad bl))

  abbrev pub after_commit : Journal D × Status → Journal D × Status
  after_commit (j, error e) = (j, error e)
  after_commit (j, ok) =
      let (j', st) =
        write_superblock
          (record j { superblock = record (j.superblock) { write_offset = j.write_offset } }) in
      (j', ok)

  -- Journal::commit_txn
  unfoldable pub commit_txn : Journal D → ℕ → Journal D × Status
  unfolding write_superblock pad_and_write
  commit_txn j id = elim (find id j.active_txns) [
    | none ↦ (j, error enoent)
    | some tb ↦ after_commit (
        pad_and_write (record j { active_txns = erase id j.active_txns })
          (txn_block id tb.serialized))
  ]

  abbrev pub after_checkpoint : ℕ → Journal D × Status → Journal D × Status
  after_checkpoint from (j, error e) = (j, error e)
  after_checkpoint from (j, ok) =
      let sb = record (j.superblock) {
        checkpoint_offset = from;
        write_offset = j.write_offset;
        checkpoint_seqno = j.superblock.checkpoint_seqno + 1;
      } in
      let (j', st) = write_superblock (record j { superblock = sb }) in (j', ok)

  -- Journal::checkpoint
  unfoldable pub write_checkpoint : Journal D → List JournalRecord → Journal D × Status
  unfolding write_superblock pad_and_write
  write_checkpoint j full_state =
      after_checkpoint j.write_offset (pad_and_write j (checkpoint_block full_state))

  -- Journal::trim
  unfoldable pub trim : Journal D → Journal D
  unfolding write_superblock
  trim j =
      let sb = record (j.superblock) {
        checkpoint_offset = j.write_offset;
        write_offset = j.write_offset;
      } in
      (write_superblock (record j { superblock = sb })).0
