-- ===== src/Sharded/Query.antt =====
-- RangeQuery: the shards whose range meets the query, under one MergingIterator.
use cpp_kvstore.Common.{ℕ, zero, suc, ◌+◌, Bool, true, false, ◌&&◌, ◌||◌, not, List, [], ◌∷◌}
use cpp_kvstore.Common.{if◌then◌else◌, ◌==◌, length, Run, done, stuck, ◌>>=◌}
use cpp_kvstore.Common.Bytes.{Bytes}
use cpp_kvstore.Common.Lex.{bytes_lt}
use cpp_kvstore.SsTable.Format.{type_deletion}
use cpp_kvstore.Iterator.{IteratorEntry, Iterator}
use cpp_kvstore.Iterator.Merging.{MergingIterator, merging_iterator, merged_iterator}
use cpp_kvstore.Iterator.Merging as Merge
use cpp_kvstore.Engine.{KvEngine}
use cpp_kvstore.Engine.Cursor.{Child, child_iterator, new_iterator}
use cpp_kvstore.Engine.Compaction.{tables_size}
use cpp_kvstore.Sharded.{ShardRange, ShardedKvEngine, shard_at}

-- The range has no key of the query, as the pruning sees it.
unfoldable pub no_overlap : ShardRange → Bytes → Bytes → Bool
no_overlap r start_key end_key =
    (not (length r.end_key == 0) && not (bytes_lt start_key r.end_key))
    || (not (length r.start_key == 0) && bytes_lt end_key r.start_key)

-- The shards that are searched.
unfoldable pub overlapping : List ShardRange → Bytes → Bytes → List ℕ
overlapping [] start_key end_key = []
overlapping (r ∷ ranges) start_key end_key =
    let rest = overlapping ranges start_key end_key in
    if no_overlap r start_key end_key then rest else r.shard_index ∷ rest

unfoldable pub shard_iterators : ShardedKvEngine → List ℕ → Run (List (MergingIterator Child))
shard_iterators s [] = done []
shard_iterators s (i ∷ is) =
    shard_at s i >>= λ e. new_iterator e >>= λ it. shard_iterators s is >>= λ rest. done (it ∷ rest)

abbrev pub shard_iterator : Iterator (MergingIterator Child)
shard_iterator = merged_iterator child_iterator

-- The loop over the merged entries up to `end_key`.
unfoldable pub collect :
    ℕ → MergingIterator (MergingIterator Child) → Bytes → Run (List IteratorEntry)
collect zero m end_key = if m.valid then stuck else done []
collect (suc fuel) m end_key =
    let entry = m.current_entry in
    elim m.valid [
      | false ↦ done []
      | true ↦ elim (bytes_lt end_key entry.key) [
        | true ↦ done []
        | false ↦ Merge.next shard_iterator m >>= λ m'. collect fuel m' end_key >>= λ rest.
            done (if entry.type_ == type_deletion then rest else entry ∷ rest)
      ]
    ]

-- The entries of the memory tables and the bytes of the files bound the rounds.
abbrev pub shards_size : List KvEngine → ℕ
shards_size [] = 0
shards_size (e ∷ es) = e.skiplist.node_count + tables_size e.sstables + shards_size es

unfoldable pub range_query : ShardedKvEngine → Bytes → Bytes → Run (List IteratorEntry)
range_query s start_key end_key = elim (overlapping s.ranges start_key end_key) [
  | [] ↦ done []
  | i ∷ is ↦ shard_iterators s (i ∷ is) >>= λ its. merging_iterator shard_iterator its >>= λ m.
      Merge.seek shard_iterator m start_key >>= λ m'. collect (shards_size s.shards) m' end_key
]
