-- ===== src/Btier/Journal/Scan/Checksum.antt =====
-- The checksum that `recover` computes again.
use clab.Prelude.{ℕ, ◌^◌, ◌<◌, ◌≡◌, refl, List, [], ◌∷◌, arith, map}
use clab.Common.Crc32.{calc_crc32-lt}
use clab.Btier.Journal.Codec.{JournalRecord}
use clab.Btier.Journal.Codec.RoundTrip.{kept, serialize_record-kept}
use clab.Btier.Journal.Scan.{serialize_all, crc_of_bytes}

pub serialize_all-kept : (rs : List JournalRecord) → serialize_all (map kept rs) ≡ serialize_all rs
unfolding serialize_all
serialize_all-kept [] = refl
serialize_all-kept (r ∷ rs) = rw (serialize_record-kept r, serialize_all-kept rs)

pub crc_of_bytes-lt : (bl : List ℕ) → crc_of_bytes bl < 2 ^ 32
unfolding crc_of_bytes
crc_of_bytes-lt bl = ground (arith, calc_crc32-lt bl)
