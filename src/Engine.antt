-- ===== src/Engine.antt =====
-- include/kv_engine.h and src/kv_engine.cpp: the class KVEngine. The data directory is a Disk, and
-- each operation takes and returns it with the engine. Locks are not modelled: an operation runs
-- as one step, and Compact as the steps between its locks.
pub mod Names
pub mod Scan
pub mod Cursor
pub mod Compaction
pub mod Write
pub mod Flush
pub mod Replay
pub mod Restart
pub mod Tables
pub mod Versions
pub mod Snapshot
use cpp_kvstore.Common.{
  ℕ, zero, suc, ◌+◌, ◌%◌, ◌^◌, Bool, true, false, not, List, [], ◌∷◌, ◌++◌, map, Option, none, some,
}
use cpp_kvstore.Common.{if◌then◌else◌, ltb, leb, ◌==◌, length, Run, done, ◌>>=◌}
use cpp_kvstore.Common.Bytes.{Bytes}
use cpp_kvstore.Disk.{Disk, update}
use cpp_kvstore.Slice.{of_string}
use cpp_kvstore.SkipList.{SkipList, TableValue, new_skip_list}
use cpp_kvstore.SkipList
use cpp_kvstore.SsTable.Format.{type_value, type_deletion}
use cpp_kvstore.SsTable.Builder.{build, default_block_size}
use cpp_kvstore.SsTable.Reader.{SsTableReader, Hit, open_reader}
use cpp_kvstore.SsTable.Reader
use cpp_kvstore.Wal.Record.{ParsedLogRecord, put_op, erase_op}
use cpp_kvstore.Wal.Logger.{
  WalLogger, closed_logger, open_wal, close_wal, append, recover_wal, remove_wal_file,
}
use cpp_kvstore.Engine.Names.{wal_path, sst_path}

pub record KvEngine : Type 0 where
  pub skiplist : SkipList
  pub current_wal_path : Bytes
  pub wal : WalLogger
  pub sstables : List SsTableReader
  pub db_path : Bytes
  pub max_mem_nodes : ℕ
  pub sst_counter : ℕ

abbrev pub default_max_mem_nodes : ℕ
default_max_mem_nodes = 20000

abbrev pub default_max_level : ℕ
default_max_level = 16

-- What the coins of random_level show, one run for each call of SkipList::put.
abbrev pub Coins : Type 0
Coins = ℕ → List Bool

abbrev pub later : ℕ → Coins → Coins
later n coins = λ i. coins (n + i)

-- The arguments of Add for what dump_all gives.
abbrev pub add_arguments : Bytes × TableValue → Bytes × Bytes × ℕ
add_arguments kv = (kv.0, kv.1.value, kv.1.type_)

-- The part of FlushMemTable behind the new reader: the log is rotated and the memory table emptied.
unfoldable pub rotate_wal : Disk → KvEngine → Run (Disk × KvEngine)
rotate_wal d e =
    let old_wal_path = e.current_wal_path in
    let path = wal_path e.db_path ((e.sst_counter + 1) % 2 ^ 64) in
    let (d1, wal, opened) = open_wal d e.wal path in
    SkipList.clear e.skiplist >>= λ skiplist. done (
      (remove_wal_file d1 old_wal_path).0,
      record e { current_wal_path = path; wal = wal; skiplist = skiplist },
    )

-- The file that FlushMemTable and Compact write: what the builder leaves of it.
unfoldable pub write_table : Disk → Bytes → List (Bytes × Bytes × ℕ) → Disk
write_table d path records = update d path (some (build default_block_size records).0.file)

-- A reader that opened becomes the newest table.
unfoldable pub push_reader : Option SsTableReader → List SsTableReader → List SsTableReader
push_reader none sstables = sstables
push_reader (some reader) sstables = reader ∷ sstables

unfoldable pub flush_mem_table : Disk → KvEngine → Run (Disk × KvEngine)
flush_mem_table d e =
    let counter = (e.sst_counter + 1) % 2 ^ 64 in
    let path = sst_path e.db_path counter in
    let flush = SkipList.dump_all e.skiplist >>= λ all_kv.
    let d1 = write_table d path (map add_arguments all_kv) in
    open_reader d1 path counter >>= λ reader.
    rotate_wal d1 (record e { sst_counter = counter; sstables = push_reader reader e.sstables }) in
    if SkipList.size e.skiplist == 0 then done (d, e) else flush

unfoldable pub put : Disk → KvEngine → Bytes → Bytes → List Bool → Run (Disk × KvEngine)
put d e key value coins =
    let d1 = (append d e.wal put_op key value).0 in
    SkipList.put e.skiplist key (record { type_ = type_value; value = value }) coins >>= λ skiplist.
    let e1 = record e { skiplist = skiplist } in
    elim (leb e.max_mem_nodes (SkipList.size skiplist)) [
      | true ↦ flush_mem_table d1 e1
      | false ↦ done (d1, e1)
    ]

-- erase puts a tombstone, and does not look at the size of the memory table.
unfoldable pub erase : Disk → KvEngine → Bytes → List Bool → Run (Disk × KvEngine × Bool)
erase d e key coins =
    let d1 = (append d e.wal erase_op key []).0 in
    SkipList.put e.skiplist key (record { type_ = type_deletion; value = [] }) coins >>= λ skiplist.
    done (d1, record e { skiplist = skiplist }, true)

-- The loop of get over the tables, the newest first; `none` is the result false.
unfoldable pub get_tables : List SsTableReader → Bytes → Run (Option Bytes)
get_tables [] key = done none
get_tables (reader ∷ sstables) key = Reader.get reader (of_string key) >>= λ hit. elim hit [
  | none ↦ get_tables sstables key
  | some h ↦ done (if h.type_ == type_deletion then none else some h.value)
]

unfoldable pub get : KvEngine → Bytes → Run (Option Bytes)
get e key = SkipList.get e.skiplist key >>= λ mem_val. elim mem_val [
  | none ↦ get_tables e.sstables key
  | some v ↦ done (if v.type_ == type_deletion then none else some v.value)
]

unfoldable pub force_flush : Disk → KvEngine → Run (Disk × KvEngine)
force_flush d e = flush_mem_table d e

unfoldable pub needs_compaction : KvEngine → ℕ → Bool
needs_compaction e threshold = leb threshold (length e.sstables)

-- ~KVEngine
unfoldable pub close_engine : KvEngine → KvEngine
close_engine e = record e { wal = close_wal e.wal }
