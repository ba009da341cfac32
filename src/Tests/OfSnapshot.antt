-- ===== src/Tests/OfSnapshot.antt =====
-- The iterators over a memory table of two pairs and a table of one record.
use cpp_kvstore.Common.{
  ℕ, ◌<◌, ◌^◌, ◌≡◌, refl, arith, inl, inr, List, [], ◌∷◌, Option, none, some, length, All, Run,
  done,
}
use cpp_kvstore.Common.Bytes.{Bytes}
use cpp_kvstore.SkipList.Search.{upper}
use cpp_kvstore.SsTable.Reader.Load.{reader_of}
use cpp_kvstore.SsTable.Table.{Entry, Fits, flatten, blocks_bytes}
use cpp_kvstore.Wal.Logger.{closed_logger}
use cpp_kvstore.Iterator.Spec.{Ascending, Yields, find_entry}
use cpp_kvstore.Iterator.{IteratorEntry}
use cpp_kvstore.Iterator.Table.{SsTableIterator, sstable_iterator, table_iterator}
use cpp_kvstore.Iterator.Table.Yields.{table_shows, sstable_iterator_lem}
use cpp_kvstore.Iterator.Memory.{SkipListIterator, skip_list_iterator, memory_iterator}
use cpp_kvstore.Iterator.Memory.Yields.{node_entries, skip_list_iterator_lem}
use cpp_kvstore.Iterator.Merging.{MergingIterator, merged_iterator}
use cpp_kvstore.Engine.{KvEngine, get}
use cpp_kvstore.Engine.Cursor.{Child, child_iterator, new_iterator}
use cpp_kvstore.Engine.Tables.{IsTable, entry_answer}
use cpp_kvstore.Engine.Snapshot.{new_iterator_lem}
use cpp_kvstore.Tests.OfSkipList.{two_nodes, ghosts, two_nodes-IsValid}

abbrev tombstone : Entry
tombstone = record { key = 99 ∷ []; value = 1 ∷ []; type_ = 0 }

abbrev old_value : Entry
old_value = record { key = 97 ∷ []; value = 1 ∷ []; type_ = 1 }

abbrev blocks : List (List Entry)
blocks = (old_value ∷ []) ∷ (tombstone ∷ []) ∷ []

blocks-Fits : All (All Fits) blocks
blocks-Fits = omega arith

blocks_small : length (blocks_bytes blocks) < 2 ^ 60
unfolding cpp_kvstore.SsTable.Format.record_bytes
blocks_small = omega arith

sstable_iterator_lem_example :
    (it : SsTableIterator) × (sstable_iterator (reader_of [] 7 blocks) 7 ≡ done it)
    × Yields table_iterator it (table_shows 7 (flatten blocks))
sstable_iterator_lem_example =
    sstable_iterator_lem [] 7 7 blocks blocks_small blocks-Fits (tt, (tt, tt))

skip_list_iterator_lem_example :
    (it : SkipListIterator) × (skip_list_iterator (some two_nodes) 9 (98 ∷ []) ≡ done it)
    × Yields memory_iterator it (node_entries 9 (upper (98 ∷ []) ghosts))
skip_list_iterator_lem_example =
    skip_list_iterator_lem two_nodes ghosts 9 (98 ∷ []) two_nodes-IsValid

abbrev engine : KvEngine
engine = record {
  skiplist = two_nodes;
  current_wal_path = 119 ∷ [];
  wal = closed_logger;
  sstables = reader_of [] 7 blocks ∷ [];
  db_path = 100 ∷ [];
  max_mem_nodes = 10;
  sst_counter = 7;
}

seven-IsTable : IsTable (reader_of [] 7 blocks) (flatten blocks)
unfolding cpp_kvstore.Common.Lex.lex
seven-IsTable = record {
  blocks = blocks;
  reader = refl;
  records = refl;
  small = blocks_small;
  fits = omega arith;
  full = (tt, (tt, tt));
  sorted = ((refl, tt), (tt, tt));
  known = (inl refl, (inr refl, tt));
}

new_iterator_lem_example :
    (m : MergingIterator Child) × (new_iterator engine ≡ done m)
    × ((es : List IteratorEntry) × Yields (merged_iterator child_iterator) m es
        × Ascending es
        × ((k : Bytes) → get engine k ≡ entry_answer (find_entry k es) (done none)))
new_iterator_lem_example =
    new_iterator_lem engine ghosts (flatten blocks ∷ []) two_nodes-IsValid (seven-IsTable, tt)
      (omega arith, tt)
