-- ===== src/Sharded.antt =====
-- include/sharded_kv_engine.h: the class ShardedKVEngine. All shards keep their directories on one
-- Disk. The thread of BackgroundCompactScheduler is its rounds, called by the environment.
pub mod Query
pub mod Ranges
pub mod Routing
pub mod Writes
use cpp_kvstore.Common.{
  ℕ, zero, suc, ◌+◌, ◌-◌, ◌*◌, ◌/◌, ◌%◌, ◌^◌, Bool, true, false, ◌&&◌, ◌||◌, not,
}
use cpp_kvstore.Common.{List, [], ◌∷◌, ◌++◌, Option, none, some}
use cpp_kvstore.Common.{
  if◌then◌else◌, ltb, leb, ◌==◌, length, drop, get_elem?, set, Run, done, fault, ◌>>=◌,
}
use cpp_kvstore.Common.Bytes.{Bytes, read_bytes}
use cpp_kvstore.Common.Lex.{bytes_lt}
use cpp_kvstore.Disk.{Disk}
use cpp_kvstore.Spatial.Key.{SpatialKey3D, to_bytes, big_endian_value}
use cpp_kvstore.Engine.{KvEngine, Coins, default_max_mem_nodes, default_max_level, needs_compaction}
use cpp_kvstore.Engine
use cpp_kvstore.Engine.Names.{digits}
use cpp_kvstore.Engine.Scan.{new_engine}
use cpp_kvstore.Engine.Compaction.{compact}

pub record ShardRange : Type 0 where
  pub start_key : Bytes
  pub end_key : Bytes
  pub shard_index : ℕ

pub record ShardedKvEngine : Type 0 where
  pub shard_num : ℕ
  pub shards : List KvEngine
  pub ranges : List ShardRange

-- UINT64_MAX
abbrev pub uint64_max : ℕ
uint64_max = 2 ^ 64 - 1

-- Division of uint64_t: by zero it is no value.
unfoldable pub divide : ℕ → ℕ → Run ℕ
divide a b = if b == 0 then fault else done (a / b)

-- The key of a boundary: layer 1, level of detail 0, time 0.
unfoldable pub boundary_key : ℕ → Bytes
boundary_key code =
    to_bytes (record { layer_type = 1; lod_level = 0; morton_code = code; timestamp_us = 0 })

-- One round of InitUniformRanges.
unfoldable pub uniform_range : ℕ → ℕ → ℕ → ShardRange
uniform_range shard_num step i =
    let start_code = (i * step) % 2 ^ 64 in
    let end_code = if i + 1 == shard_num then uint64_max else ((i + 1) * step) % 2 ^ 64 in
    record {
      start_key = if i == 0 then [] else boundary_key start_code;
      end_key = if i + 1 == shard_num then [] else boundary_key end_code;
      shard_index = i;
    }

-- The ranges of the last `left` shards.
unfoldable pub uniform_ranges : ℕ → ℕ → ℕ → List ShardRange
uniform_ranges shard_num step zero = []
uniform_ranges shard_num step (suc left) =
    uniform_range shard_num step (shard_num - suc left) ∷ uniform_ranges shard_num step left

unfoldable pub init_uniform_ranges : ℕ → Run (List ShardRange)
init_uniform_ranges shard_num =
    divide uint64_max shard_num >>= λ step. done (uniform_ranges shard_num step shard_num)

-- base_dir + "/shard_" + std::to_string(i)
unfoldable pub shard_dir : Bytes → ℕ → Bytes
shard_dir base_dir i =
    base_dir ++ ((b'/' ∷ b's' ∷ b'h' ∷ b'a' ∷ b'r' ∷ b'd' ∷ b'_' ∷ []) ++ digits 20 i)

-- The loop of the constructor over the last `left` shards. `names` lists each directory.
unfoldable pub open_shards :
    Disk → (Bytes → List Bytes) → Bytes → ℕ → (ℕ → Coins) → ℕ → Run (Disk × List KvEngine)
open_shards d names base_dir i coins zero = done (d, [])
open_shards d names base_dir i coins (suc left) =
    let dir = shard_dir base_dir i in
    new_engine d (names dir) dir default_max_mem_nodes default_max_level (coins i) >>= λ p.
    open_shards p.0 names base_dir (suc i) coins left >>= λ q. done (q.0, p.1 ∷ q.1)

-- ShardedKVEngine(shard_num, base_dir)
unfoldable pub new_sharded :
    Disk → (Bytes → List Bytes) → ℕ → Bytes → (ℕ → Coins) → Run (Disk × ShardedKvEngine)
new_sharded d names shard_num base_dir coins =
    open_shards d names base_dir 0 coins shard_num >>= λ p.
    init_uniform_ranges shard_num >>= λ ranges.
    done (p.0, record { shard_num = shard_num; shards = p.1; ranges = ranges })

-- `key >= start && key < end`, where an empty boundary is none.
unfoldable pub in_range : Bytes → ShardRange → Bool
in_range key r =
    (length r.start_key == 0 || not (bytes_lt key r.start_key))
    && (length r.end_key == 0 || bytes_lt key r.end_key)

unfoldable pub scan_ranges : List ShardRange → Bytes → Option ℕ
scan_ranges [] key = none
scan_ranges (r ∷ ranges) key =
    let rest = scan_ranges ranges key in if in_range key r then some r.shard_index else rest

-- The part of GetShard for keys of at least the size of a SpatialKey3D: by the Morton code's bytes.
unfoldable pub shard_of_code : ℕ → Bytes → Run ℕ
shard_of_code shard_num key = read_bytes 8 (drop 2 key) >>= λ net_morton.
    divide uint64_max shard_num >>= λ step.
    divide (big_endian_value 0 net_morton.0) ((step + 1) % 2 ^ 64) >>= λ shard_index.
    done (if leb shard_num shard_index then shard_num - 1 else shard_index)

-- sizeof(SpatialKey3D)
abbrev pub spatial_key_size : ℕ
spatial_key_size = 18

-- GetShard: the index of the shard.
unfoldable pub get_shard : ShardedKvEngine → Bytes → Run ℕ
get_shard s key =
    if leb spatial_key_size (length key)
    then shard_of_code s.shard_num key
    else (elim (scan_ranges s.ranges key) [
      | some i ↦ done i
      | none ↦ if length s.shards == 0 then fault else done (length s.shards - 1)
    ])

-- *shards_[i]
unfoldable pub shard_at : ShardedKvEngine → ℕ → Run KvEngine
shard_at s i = elim (get_elem? s.shards i) [ none ↦ fault | some e ↦ done e ]

abbrev pub set_shard : ShardedKvEngine → ℕ → KvEngine → ShardedKvEngine
set_shard s i e = record s { shards = set s.shards i e }

-- Put
unfoldable pub put :
    Disk → ShardedKvEngine → Bytes → Bytes → List Bool → Run (Disk × ShardedKvEngine)
put d s key value coins = get_shard s key >>= λ i.
    shard_at s i >>= λ e. Engine.put d e key value coins >>= λ p. done (p.0, set_shard s i p.1)

-- Both forms of Get, with a pointer that is not null.
unfoldable pub get : ShardedKvEngine → Bytes → Run (Option Bytes)
get s key = get_shard s key >>= λ i. shard_at s i >>= λ e. Engine.get e key

-- Delete and Erase
unfoldable pub erase :
    Disk → ShardedKvEngine → Bytes → List Bool → Run (Disk × ShardedKvEngine × Bool)
erase d s key coins = get_shard s key >>= λ i.
    shard_at s i >>= λ e. Engine.erase d e key coins >>= λ p. done (p.0, set_shard s i p.1, p.2)

unfoldable pub get_shard_num : ShardedKvEngine → ℕ
get_shard_num s = s.shard_num

-- CompactAll
unfoldable pub compact_shards : Disk → List KvEngine → Run (Disk × List KvEngine)
compact_shards d [] = done (d, [])
compact_shards d (e ∷ shards) =
    compact d e >>= λ p. compact_shards p.0 shards >>= λ q. done (q.0, p.1 ∷ q.1)

unfoldable pub compact_all : Disk → ShardedKvEngine → Run (Disk × ShardedKvEngine)
compact_all d s = compact_shards d s.shards >>= λ p. done (p.0, record s { shards = p.1 })

-- The body of the scheduler's loop over the shards.
unfoldable pub compact_if_needed : Disk → KvEngine → Run (Disk × KvEngine)
compact_if_needed d e = elim (needs_compaction e 5) [ true ↦ compact d e | false ↦ done (d, e) ]

-- One pass of BackgroundCompactScheduler that is not stopped.
unfoldable pub background_pass : Disk → List KvEngine → Run (Disk × List KvEngine)
background_pass d [] = done (d, [])
background_pass d (e ∷ shards) =
    compact_if_needed d e >>= λ p. background_pass p.0 shards >>= λ q. done (q.0, p.1 ∷ q.1)
