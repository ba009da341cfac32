-- ===== src/Tests/OfEngine.antt =====
-- The engine on a fresh memory table and on one that holds a pair.
use cpp_kvstore.Common.{
  ℕ, zero, suc, ◌<◌, ◌^◌, ◌≡◌, refl, arith, true, inl, if◌then◌else◌, leb, length,
}
use cpp_kvstore.Common.{List, [], ◌∷◌, none, some, get_elem?, done, fault}
use cpp_kvstore.Common.Bytes.{Bytes}
use cpp_kvstore.Common.Lex.{bytes_eq}
use cpp_kvstore.Disk.{Disk}
use cpp_kvstore.SkipList.{SkipList, TableValue, new_skip_list, clear}
use cpp_kvstore.SkipList
use cpp_kvstore.SkipList.Rows.{Ghost}
use cpp_kvstore.SkipList.Search.{IsValid}
use cpp_kvstore.SkipList.Fresh.{new_skip_list-IsValid}
use cpp_kvstore.SkipList.Clear.{clear-IsValid}
use cpp_kvstore.Wal.Record.{ParsedLogRecord, put_op, erase_op}
use cpp_kvstore.Wal.Logger.{append, closed_logger}
use cpp_kvstore.Engine.{KvEngine, put, erase, get, flush_mem_table}
use cpp_kvstore.Engine.Scan.{replay}
use cpp_kvstore.Engine.Write.{Answers, put-Answers, erase-Answers}
use cpp_kvstore.Engine.Flush.{table_entries, flush_mem_table_lem}
use cpp_kvstore.SsTable.Table.{block_bytes}
use cpp_kvstore.Engine.Replay.{after_records, replay_lem}
use cpp_kvstore.Sharded.{ShardRange, ShardedKvEngine, get_shard}
use cpp_kvstore.Sharded
use cpp_kvstore.Sharded.Routing.{WellFormed, get_shard_one, get_shard_lem}
use cpp_kvstore.Common.{ℕ, some}
use cpp_kvstore.Common.Bytes.{Bytes}
use cpp_kvstore.Sharded.Writes.{erase-Answers_sharded}
use cpp_kvstore.Tests.OfSkipList.{two_nodes, ghosts, two_nodes-IsValid}

abbrev empty_disk : Disk
empty_disk = record { file = λ path. none }

abbrev engine : SkipList → KvEngine
engine skiplist = record {
  skiplist = skiplist;
  current_wal_path = 119 ∷ [];
  wal = closed_logger;
  sstables = [];
  db_path = 100 ∷ [];
  max_mem_nodes = 10;
  sst_counter = 0;
}

clear-IsValid_example :
    (s' : SkipList) × (clear two_nodes ≡ done s')
    × IsValid s' []
    × (s'.max_level ≡ two_nodes.max_level)
clear-IsValid_example = clear-IsValid two_nodes ghosts two_nodes-IsValid

put-Answers_example :
    (e' : KvEngine) × (gs' : List Ghost) × (put empty_disk
        (engine two_nodes)
        (97 ∷ [])
        (49 ∷ [])
        (true ∷ [])
      ≡ (if leb 10 (SkipList.size e'.skiplist)
          then flush_mem_table (append empty_disk closed_logger put_op (97 ∷ []) (49 ∷ [])).0 e'
          else done ((append empty_disk closed_logger put_op (97 ∷ []) (49 ∷ [])).0, e')))
    × IsValid e'.skiplist gs'
    × Answers (engine two_nodes) e' (97 ∷ []) (some (49 ∷ []))
put-Answers_example =
    put-Answers empty_disk (engine two_nodes) ghosts two_nodes-IsValid (97 ∷ []) (true ∷ [])
      (49 ∷ [])

erase-Answers_example :
    (e' : KvEngine) × (gs' : List Ghost) × (erase empty_disk (engine two_nodes) (98 ∷ []) []
      ≡ done ((append empty_disk closed_logger erase_op (98 ∷ []) []).0, e', true))
    × IsValid e'.skiplist gs'
    × Answers (engine two_nodes) e' (98 ∷ []) none
erase-Answers_example =
    erase-Answers empty_disk (engine two_nodes) ghosts two_nodes-IsValid (98 ∷ []) []

ghosts_small : length (block_bytes (table_entries ghosts)) < 2 ^ 60
unfolding cpp_kvstore.SsTable.Format.record_bytes
ghosts_small = omega arith

flush_mem_table_lem_example :
    (d' : Disk) × (e' : KvEngine) × (flush_mem_table empty_disk (engine two_nodes) ≡ done (d', e'))
    × IsValid e'.skiplist []
    × ((k : Bytes) → get e' k ≡ get (engine two_nodes) k)
flush_mem_table_lem_example =
    flush_mem_table_lem empty_disk (engine two_nodes) ghosts two_nodes-IsValid (
      ((omega arith, omega arith, inl refl), ((omega arith, omega arith, inl refl), tt)),
      ghosts_small,
    )

abbrev log : List ParsedLogRecord
log =
    record { op = 0; key = 97 ∷ []; value = 49 ∷ [] }
    ∷ record { op = 1; key = 98 ∷ []; value = [] }
    ∷ []

replay_lem_example :
    (s' : SkipList) × (gs' : List Ghost) × (replay two_nodes log (λ i. []) ≡ done s')
    × IsValid s' gs'
    × ((k : Bytes) → SkipList.get s' k ≡ after_records log k (SkipList.get two_nodes k))
replay_lem_example = replay_lem two_nodes ghosts log (λ i. []) two_nodes-IsValid

abbrev range : ℕ → ShardRange
range i = record { start_key = []; end_key = []; shard_index = i }

abbrev one_shard : ShardedKvEngine
one_shard = record { shard_num = 1; shards = engine two_nodes ∷ []; ranges = range 0 ∷ [] }

abbrev two_shards : ShardedKvEngine
two_shards = record {
  shard_num = 2;
  shards = engine two_nodes ∷ engine (new_skip_list 4) ∷ [];
  ranges = range 0 ∷ range 1 ∷ [];
}

abbrev long_key : Bytes
long_key = 1 ∷ 0 ∷ 200 ∷ 0 ∷ 0 ∷ 0 ∷ 0 ∷ 0 ∷ 0 ∷ 0 ∷ 0 ∷ 0 ∷ 0 ∷ 0 ∷ 0 ∷ 0 ∷ 0 ∷ 0 ∷ []

get_shard_one_example : get_shard one_shard long_key ≡ fault
get_shard_one_example = get_shard_one one_shard long_key refl (omega arith)

two_shards-WellFormed : WellFormed two_shards
two_shards-WellFormed = record {
  several = omega arith;
  all_there = refl;
  indices = (omega arith, (omega arith, tt));
}

get_shard_lem_example : (i : ℕ) × (get_shard two_shards long_key ≡ done i) × (i < 2)
get_shard_lem_example = get_shard_lem two_shards long_key two_shards-WellFormed

second_shard : get_shard two_shards long_key ≡ done 1
unfolding get_shard cpp_kvstore.Sharded.shard_of_code cpp_kvstore.Sharded.divide
second_shard = refl

shards-IsValid :
    (i : ℕ) (e : KvEngine)
    → get_elem? two_shards.shards i ≡ some e
    → (gs : List Ghost) × IsValid e.skiplist gs
shards-IsValid zero e at =
    let same : engine two_nodes ≡ e = cc at in rw (← same) (ghosts, two_nodes-IsValid)
shards-IsValid (suc zero) e at =
    let same : engine (new_skip_list 4) ≡ e = cc at in
    rw (← same) ([], new_skip_list-IsValid 4 (omega arith))
shards-IsValid (suc (suc i)) e at = absurd (cc at)

erase-Answers_sharded_example :
    (d' : Disk) × (s' : ShardedKvEngine) × (Sharded.erase empty_disk two_shards (98 ∷ []) []
      ≡ done (d', s', true))
    × ((k : Bytes)
        → Sharded.get s' k ≡ (if bytes_eq (98 ∷ []) k then done none else Sharded.get two_shards k))
erase-Answers_sharded_example =
    erase-Answers_sharded empty_disk two_shards (98 ∷ []) [] two_shards-WellFormed shards-IsValid
