-- ===== src/Lib.antt =====
-- LightKV (README.md): a log-structured key-value store. A write goes to the write-ahead log and
-- to the memory table; a full memory table becomes a sorted table file; a lookup asks the memory
-- table and then the files, the newest first.
--
-- The modules:
--   Common: the shared names; Common.Lex is the order of std::string and memcmp, Common.Bytes the
--     integers in a little-endian host's memory and reads from a cursor, Common.Bits the laws of
--     the bit operations, Common.Outcome the type Run of what a routine over raw memory ends in.
--   Disk: the files of the data directory as a map from paths to contents, and std::ofstream as
--     OutStream, the file that a stream stands open on and whether it failed.
--   Slice: include/slice.h. A Slice is the memory from its address on, and its size; its
--     assertions are not in the model, since CMakeLists.txt builds without them.
--   Wal: include/wal_logger.h, src/wal_logger.cpp. Wal.Crc is the CRC32, Wal.Record the header
--     and the bytes of Append, Wal.Recover the loop of Recover, Wal.Logger the class.
--     Wal.Recover.RoundTrip is about logs of whole records, Wal.Recover.Sound about recovery from
--     any bytes, by Wal.Recover.Reads (its reads) and Wal.Recover.Found (one round).
--   SsTable: include/sstable_builder.h, src/sstable_builder.cpp, include/sstable_reader.h,
--     src/sstable_reader.cpp. SsTable.Format has the bytes, SsTable.Builder and SsTable.Reader
--     the classes, SsTable.Table the abstract view, a list of records.
--   SkipList: include/skip_list.h and the TableValue of include/types.h, on an explicit heap of
--     nodes. SkipList.Rows has the levels as sublists of one list, SkipList.Search the invariant
--     and the search, SkipList.Get get and dump_all, SkipList.Seek find_greater_or_equal,
--     SkipList.Fresh the constructor and random_level. Put of a new key is in SkipList.Frame (a
--     write of one pointer), SkipList.Link (the loop over the levels), SkipList.Splice (what
--     becomes of a level), SkipList.Insert (the update array), SkipList.Put and SkipList.PutNew;
--     SkipList.PutOld replaces a value in place, SkipList.PutAny puts the two cases together, and
--     SkipList.Clear is about clear.
--   Iterator: include/iterator.h, src/iterator.cpp. The class Iterator is a record of operations
--     on a state; Iterator.Table, Iterator.Memory and Iterator.Merging are the three classes.
--     Iterator.Spec says what it is to show the entries of a list. The merge:
--     Iterator.Merging.Heap is about the queue, Iterator.Merging.Steps and Iterator.Merging.Runs
--     about the loops, Iterator.Merging.Newest about the merge of lists, Iterator.Merging.Yields
--     about FindMin and Next, Iterator.Merging.Start about the constructor and Seek.
--     Iterator.Table.Parse, Iterator.Table.Steps and Iterator.Table.Yields are about
--     SSTableIterator, Iterator.Memory.Yields about SkipListIterator.
--   Engine: include/kv_engine.h, src/kv_engine.cpp. Engine has put, get, erase and FlushMemTable,
--     Engine.Names the file names, Engine.Scan the constructor, Engine.Cursor NewIterator,
--     Engine.Compaction Compact, cut at its locks. Engine.Write, Engine.Flush and Engine.Replay
--     relate them to what get answers; Engine.Restart relates put and erase to the memory table
--     that RecoverAllWals builds from the log; Engine.Tables has the tables as lists of records,
--     Engine.Versions the order of their versions, and Engine.Snapshot relates NewIterator to
--     get.
--   Sharded: include/sharded_kv_engine.h. Sharded.Query is RangeQuery, Sharded.Routing about
--     GetShard, Sharded.Ranges about InitUniformRanges, Sharded.Writes about get behind a change
--     of one shard.
--   Spatial: include/spatial_key.h. Spatial.Key is SpatialKey3D, Spatial.Ranges MergeRanges,
--     Spatial.Morton Encode, Decode and GenerateRanges, which take the conversions between
--     doubles and grid coordinates as arguments; the loop of GenerateRanges runs on twice the
--     number of points of its box.
--   Voxel: include/voxel_value.h. Voxel.RoundTrip and Voxel.Total are about Parse.
--   Tests: runs of the model, and every theorem at a concrete input.
--
-- Machine integers are natural numbers with the source's casts and wrap-around written out (% 2 ^
-- 32, % 2 ^ 64). Bytes and enum values are numbers below 256. A read outside a buffer is the
-- outcome fault. The loops of Recover, LoadIndexBlock and SearchInDataBlock run on the length of
-- what they read as a bound; the theorems about them show that the outcome stuck, an exhausted
-- bound, does not occur. The loops of the skip list run on the number of its nodes, those of the
-- merge on the number of children, those over entries of tables on the bytes of the tables, and
-- the remaining loops of the iterators on the number of blocks. The entries of a directory, in
-- the order in which the system yields them, are an argument of the constructors.
--
-- Not modelled: I/O errors, the limit on the bytes that one pread transfers (0x7ffff000),
-- allocation failures, what is printed, the kernel's page cache, locks and threads (an operation
-- is one step, and Compact the steps between its locks), and arithmetic on doubles.
pub mod Common
pub mod Disk
pub mod Engine
pub mod Iterator
pub mod Sharded
pub mod SkipList
pub mod Slice
pub mod Spatial
pub mod SsTable
mod Tests
pub mod Voxel
pub mod Wal
