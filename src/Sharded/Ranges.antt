-- ===== src/Sharded/Ranges.antt =====
-- InitUniformRanges: its ranges part the byte strings among the shards.
use cpp_kvstore.Common.{ℕ, ◌+◌, ◌*◌, ◌%◌, ◌^◌, ◌<◌, ◌≡◌}
use cpp_kvstore.Common.{Bool, ◌||◌, not, ◌==◌}
use cpp_kvstore.Common.{List, All}
use cpp_kvstore.Common.Bytes.{Bytes}
use cpp_kvstore.Common.Lex.{bytes_lt}
use cpp_kvstore.Spatial.Key.{SpatialKey3D}
use cpp_kvstore.Sharded.{ShardRange, in_range, boundary_key}

abbrev code_key : ℕ → SpatialKey3D
code_key code = record { layer_type = 1; lod_level = 0; morton_code = code; timestamp_us = 0 }

module _ (n step : ℕ) (pos : 0 < step) (fits : n * step < 2 ^ 64) (key : Bytes) where
  -- The boundary in front of the shard `i`.
  abbrev boundary : ℕ → Bytes
  boundary i = boundary_key ((i * step) % 2 ^ 64)

  -- Whether the key is not below the shard `i`, and whether it is below the next one.
  abbrev reached : ℕ → Bool
  reached i = i == 0 || not (bytes_lt key (boundary i))

  abbrev before_next : ℕ → Bool
  before_next i = i + 1 == n || bytes_lt key (boundary (i + 1))

  -- The test of each range says yes exactly if it is the range of the shard `i`.
  abbrev OnlyRange : ℕ → List ShardRange → Type 0
  OnlyRange i = All (λ (r : ShardRange). in_range key r ≡ (r.shard_index == i))
