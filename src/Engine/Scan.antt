-- ===== src/Engine/Scan.antt =====
-- The constructor of KVEngine: what it loads from the data directory. `names` is what
-- directory_iterator yields: the paths of the directory's entries, each once, in any order.
use mathlib.Core.List.{reverse}
use Prim.Native.Nat.{max}
use cpp_kvstore.Common.{ℕ, ◌+◌, ◌%◌, ◌^◌, true, false, ◌&&◌, List, [], ◌∷◌, ◌++◌, none, some}
use cpp_kvstore.Common.{if◌then◌else◌, ◌==◌, length, Run, done, ◌>>=◌}
use cpp_kvstore.Common.Bytes.{Bytes}
use cpp_kvstore.Common.Lex.{bytes_eq}
use cpp_kvstore.Disk.{Disk}
use cpp_kvstore.SkipList.{SkipList, TableValue, new_skip_list}
use cpp_kvstore.SkipList
use cpp_kvstore.SsTable.Format.{type_value, type_deletion}
use cpp_kvstore.SsTable.Reader.{SsTableReader, open_reader}
use cpp_kvstore.Wal.Record.{ParsedLogRecord, put_op, erase_op}
use cpp_kvstore.Wal.Logger.{closed_logger, open_wal, recover_wal}
use cpp_kvstore.Engine.Names.{wal_path, extension, stem, stoull, sort_names, is_wal_name}
use cpp_kvstore.Engine.{KvEngine, Coins, later, push_reader}

unfoldable pub sst_files : List Bytes → List Bytes
sst_files [] = []
sst_files (p ∷ names) =
    let rest = sst_files names in
    if bytes_eq (extension p) (b'.' ∷ b's' ∷ b's' ∷ b't' ∷ []) then p ∷ rest else rest

-- The number of a table file, and 0 where its name has none.
unfoldable pub file_number : Bytes → ℕ
file_number path = elim (stoull (stem path)) [ none ↦ 0 | some seq ↦ seq ]

unfoldable pub max_number : ℕ → List Bytes → ℕ
max_number counter [] = counter
max_number counter (p ∷ files) = max_number (max counter (file_number p)) files

-- The second loop of LoadExistingSSTables: push_back for each file that opens.
unfoldable pub open_tables : Disk → List Bytes → Run (List SsTableReader)
open_tables d [] = done []
open_tables d (p ∷ files) = open_reader d p (file_number p) >>= λ reader.
    open_tables d files >>= λ readers. done (push_reader reader readers)

unfoldable pub load_existing_sstables : Disk → List Bytes → KvEngine → Run KvEngine
load_existing_sstables d names e =
    let files = sst_files names in
    open_tables d (reverse (sort_names files)) >>= λ readers.
    done
      (record e { sst_counter = max_number e.sst_counter files; sstables = e.sstables ++ readers })

unfoldable pub wal_files : List Bytes → List Bytes
wal_files [] = []
wal_files (p ∷ names) =
    let rest = wal_files names in
    if bytes_eq (extension p) (b'.' ∷ b'l' ∷ b'o' ∷ b'g' ∷ []) && is_wal_name p
    then p ∷ rest
    else rest

-- The inner loop of RecoverAllWals. A record of another type is skipped.
unfoldable pub replay : SkipList → List ParsedLogRecord → Coins → Run SkipList
replay s [] coins = done s
replay s (r ∷ records) coins = elim (r.op == put_op) [
  | true ↦ SkipList.put s r.key (record { type_ = type_value; value = r.value }) (coins 0) >>= λ s'.
      replay s' records (later 1 coins)
  | false ↦ elim (r.op == erase_op) [
    | true ↦ SkipList.put s r.key (record { type_ = type_deletion; value = [] }) (coins 0) >>= λ s'.
        replay s' records (later 1 coins)
    | false ↦ replay s records (later 1 coins)
  ]
]

-- The outer loop: each log is opened for appending, which changes nothing of a file that is there.
unfoldable pub replay_wals : Disk → SkipList → List Bytes → Coins → Run (Disk × SkipList)
replay_wals d s [] coins = done (d, s)
replay_wals d s (p ∷ files) coins =
    let (d1, recovery_wal, opened) = open_wal d closed_logger p in
    recover_wal d1 recovery_wal >>= λ records.
    replay s records coins >>= λ s'. replay_wals d1 s' files (later (length records) coins)

unfoldable pub recover_all_wals : Disk → List Bytes → KvEngine → Coins → Run (Disk × KvEngine)
recover_all_wals d names e coins =
    replay_wals d e.skiplist (sort_names (wal_files names)) coins >>= λ p.
    done (p.0, record e { skiplist = p.1 })

-- KVEngine(db_path, max_mem_nodes, max_level)
unfoldable pub new_engine : Disk → List Bytes → Bytes → ℕ → ℕ → Coins → Run (Disk × KvEngine)
new_engine d names db_path max_mem_nodes max_level coins =
    let e : KvEngine = record {
      skiplist = new_skip_list max_level;
      current_wal_path = [];
      wal = closed_logger;
      sstables = [];
      db_path = db_path;
      max_mem_nodes = max_mem_nodes;
      sst_counter = 0;
    } in
    load_existing_sstables d names e >>= λ e1. recover_all_wals d names e1 coins >>= λ p.
    let path = wal_path db_path ((p.1.sst_counter + 1) % 2 ^ 64) in
    let (d2, wal, opened) = open_wal p.0 p.1.wal path in
    done (d2, record (p.1) { current_wal_path = path; wal = wal })
