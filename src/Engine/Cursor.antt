-- ===== src/Engine/Cursor.antt =====
-- NewIterator: the memory table and all tables under one MergingIterator.
use cpp_kvstore.Common.{Bool, List, [], ◌∷◌, some, Run, done, ◌>>=◌}
use cpp_kvstore.Common.Bytes.{Bytes}
use cpp_kvstore.SsTable.Reader.{SsTableReader}
use cpp_kvstore.Iterator.{IteratorEntry, Iterator}
use cpp_kvstore.Iterator.Table.{SsTableIterator, sstable_iterator, table_iterator}
use cpp_kvstore.Iterator.Memory.{SkipListIterator, skip_list_iterator, size_max, memory_iterator}
use cpp_kvstore.Iterator.Merging.{MergingIterator, merging_iterator}
use cpp_kvstore.Engine.{KvEngine}

-- A child of the engine's iterator, by its class.
pub data Child : Type 0 where
  memory : SkipListIterator → Child
  table : SsTableIterator → Child

abbrev child_valid : Child → Bool
child_valid (memory it) = memory_iterator.valid it
child_valid (table it) = table_iterator.valid it

abbrev child_next : Child → Run Child
child_next (memory it) = memory_iterator.next it >>= λ it'. done (memory it')
child_next (table it) = table_iterator.next it >>= λ it'. done (table it')

abbrev child_entry : Child → IteratorEntry
child_entry (memory it) = memory_iterator.entry it
child_entry (table it) = table_iterator.entry it

abbrev child_seek : Child → Bytes → Run Child
child_seek (memory it) target = memory_iterator.seek it target >>= λ it'. done (memory it')
child_seek (table it) target = table_iterator.seek it target >>= λ it'. done (table it')

abbrev pub child_iterator : Iterator Child
child_iterator = record {
  valid = child_valid;
  next = child_next;
  entry = child_entry;
  seek = child_seek;
}

-- The iterators over a snapshot of the tables, each with its reader's sequence number.
unfoldable pub table_children : List SsTableReader → Run (List SsTableIterator)
table_children [] = done []
table_children (reader ∷ sstables) = sstable_iterator reader reader.sequence >>= λ it.
    table_children sstables >>= λ rest. done (it ∷ rest)

abbrev pub tables : List SsTableIterator → List Child
tables [] = []
tables (it ∷ its) = table it ∷ tables its

unfoldable pub new_iterator : KvEngine → Run (MergingIterator Child)
new_iterator e = skip_list_iterator (some e.skiplist) size_max [] >>= λ first.
    table_children e.sstables >>= λ rest.
    merging_iterator child_iterator (memory first ∷ tables rest)
