-- ===== src/Lib.antt =====
-- A model of the storage library: the tiered store (btier/), its block allocator (blk/), the
-- in-memory key-value store (kv/mem/), and the arithmetic, the checksums and the integer encoding of
-- common/.
--
-- How the parts interact. The journal (btier/journal.cc) makes transactions durable: records are
-- appended to a transaction, commit writes a block BEGIN, records, COMMIT with a checksum, padded to
-- 4096 bytes, into a ring on the device, and recover reads the blocks since the last checkpoint. The
-- extent map (btier/extent_map.cc) keeps the extents of the two tiers, hands out slots in them, and
-- moves an extent between tiers by a protocol of begin, check and commit with generations; its space
-- comes from an allocator (blk/) for each tier. The key map (btier/key_map.cc) says where the value of
-- a key is, and which keys an extent holds. The engine (btier/btier.cc) composes them: a put reserves
-- a slot, writes the value, commits a transaction and then changes the maps in memory; recovery
-- replays the records of the journal into empty maps. The migration engine (btier/migration_engine.cc)
-- moves extents between the tiers and compacts them while the engine runs.
--
-- Files.
--   Prelude          numbers, Boolean tests, lists, association lists (std::map and
--                    std::unordered_map where order does not matter), bits
--   Common.Intarith  common/intarith.h at uint64_t
--   Common.Crc32     common/crc32.cc, the software path
--   Blk.Allocator    blk/allocator.h, the interface that the extent map uses
--   Blk.IntervalSet  blk/extent_types.h: interval_set, and the release of a vector of blk/allocator.cc
--   Blk.Avl          blk/avl_allocator.cc: the trees by offset and by size, _add_to_tree; Removal
--                    (_remove_from_tree), Pick (the searches), Allocating (the allocator and its
--                    operations)
--   Btier.Types      btier/btier_types.h: ExtentMetrics::pack and its accessors
--   Btier.KeyMap     btier/key_map.cc: lookup, put, erase (remove_key), keys_in_extent,
--                    batch_update, get_consecutive_sequential, size, keys_in_extent_count
--   Btier.Device     the block device that the journal writes to, a parameter
--   Btier.Journal    btier/journal.h and btier/journal.cc: Codec (serialize_record,
--                    deserialize_record), Scan (the parse loop of recover), Block (the bytes of a
--                    commit and a checkpoint), State (the methods but recover; checkpoint is
--                    write_checkpoint), Recover, Durable (all of it on a device that works)
--   Btier.ExtentMap  btier/extent_map.h and btier/extent_map.cc: the state; Slots (append_slot,
--                    mark_dead_slot, record_io and the reads), Space (allocation and deferred
--                    frees; free is free_extent), Migration (Calls are the calls of other threads), Recovery
--                    (snapshot, replay, headers)
--   Btier.Engine     btier/btier.cc: Impl and the steps of its operations; Operations (put_value is
--                    put, sync_all is sync), Replay (recover_internal), Lifecycle (recover_engine is
--                    recover)
--   Btier.MigrationEngine
--                    btier/migration_engine.cc: migrate_tier, compact_extent (which is compact), Cycle
--                    (the queue and a cycle of the worker)
--   Common.Denc      common/denc.h: the integers of variable length (put_ is the writer and get_ the
--                    reader of one name), Lba (denc_lba), Zeros (what ctz counts),
--                    Signed (denc_signed_varint_lowz)
--   Kv.Bytes         std::string as bytes, its order and prefixes
--   Kv.MergeOp       kv/merge_op/: XorMergeOperator, Int64ArrayMergeOperator
--   Kv.MemDb         kv/mem/mem_db.cc: the ordered map, transactions, get, the iterator
--   Tests            the theorems at concrete inputs
--
-- State and operations. A class is a record of its fields, a method a function from the state to the
-- state and a result. Methods run under the locks of their object, so that a method is one step,
-- and a history is a sequence of such steps. A uint32_t or uint64_t is a number with the
-- wrap-around written out where the code can reach it. An enumeration of uint8_t has a case for the
-- bytes that name no enumerator. Reading past the end of a buffer, which throws, is a result.
--
-- Loops and fuel. The parse loop of recover runs on fuel, one more than the bytes it is given: a
-- round takes at least one byte. The read loop of recover has one more than the bytes to be read. The
-- allocation loop has as many rounds as bytes are wanted, and each takes a byte; its halving loop has
-- 64, the digits of a word. The writer of an integer takes rounds as fuel and gives none when they run
-- out: nine are enough for an unsigned word, eight for a signed number that the writer ends on, five
-- behind the word of denc_lba. Other loops are recursions on their list.
--
-- A failed cxxlab_assert ends the program; what it asserts is a hypothesis where a theorem needs it.
-- What a search of the AVL allocator reads at end() is a number that nothing is known of. The offsets
-- of an interval set and of the trees do not wrap, since they lie in a device.
--
-- Not modelled: asynchronous I/O and threads, floating point (fast_watermark, scores; where a
-- cycle compares scores they are a parameter), the kernel
-- device, BlueFS, RocksDB, buffers and the encoding of containers, formatting and logging.
pub mod Prelude
pub mod Common
pub mod Blk
pub mod Kv
pub mod Btier
pub mod Tests
