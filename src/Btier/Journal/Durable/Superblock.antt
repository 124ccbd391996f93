-- ===== src/Btier/Journal/Durable/Superblock.antt =====
-- The bytes of the superblock of btier/journal.cc.
use clab.Prelude.{ℕ, ◌^◌, ◌<◌, ◌≡◌, refl, ◌++◌, arith, length, length-append, length-replicate}
use clab.Btier.Journal.Codec.{put_u64, ◌>>=◌}
use clab.Btier.Journal.Codec.RoundTrip.{get_le-put_le, length-put_le}
use clab.Btier.Journal.State.{
  SuperBlock, pad_words, encode_superblock, decode_superblock, get_superblock, k_superblock_size,
}

length-pad_words : length pad_words ≡ 4064
unfolding pad_words
length-pad_words = length-replicate {A = ℕ} 4064 0

pub length-encode_superblock : (sb : SuperBlock) → length (encode_superblock sb) ≡ k_superblock_size
unfolding encode_superblock
length-encode_superblock sb = omega (
  arith,
  length-append (put_u64 sb.magic) (
      put_u64 sb.checkpoint_offset
      ++ (put_u64 sb.checkpoint_seqno ++ (put_u64 sb.write_offset ++ pad_words))),
  length-append (put_u64 sb.checkpoint_offset)
      (put_u64 sb.checkpoint_seqno ++ (put_u64 sb.write_offset ++ pad_words)),
  length-append (put_u64 sb.checkpoint_seqno) (put_u64 sb.write_offset ++ pad_words),
  length-append (put_u64 sb.write_offset) pad_words,
  length-put_le 8 sb.magic,
  length-put_le 8 sb.checkpoint_offset,
  length-put_le 8 sb.checkpoint_seqno,
  length-put_le 8 sb.write_offset,
  length-pad_words,
)

-- A superblock whose fields are 64-bit words is read back as it was written.
pub decode_superblock-encode_superblock :
    (sb : SuperBlock)
    → sb.magic < 2 ^ 64
    → sb.checkpoint_offset < 2 ^ 64
    → sb.checkpoint_seqno < 2 ^ 64
    → sb.write_offset < 2 ^ 64
    → decode_superblock (encode_superblock sb) ≡ sb
unfolding encode_superblock decode_superblock get_superblock
decode_superblock-encode_superblock sb m c q w =
    rw
      (
        decode_superblock,
        ◌>>=◌,
        get_le-put_le 8 sb.magic
            (put_u64 sb.checkpoint_offset
              ++ (put_u64 sb.checkpoint_seqno ++ (put_u64 sb.write_offset ++ pad_words)))
            m,
        get_le-put_le 8 sb.checkpoint_offset
            (put_u64 sb.checkpoint_seqno ++ (put_u64 sb.write_offset ++ pad_words)) c,
        get_le-put_le 8 sb.checkpoint_seqno (put_u64 sb.write_offset ++ pad_words) q,
        get_le-put_le 8 sb.write_offset pad_words w,
      )
      refl
