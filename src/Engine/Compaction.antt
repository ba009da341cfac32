-- ===== src/Engine/Compaction.antt =====
-- Compact, cut at its locks: the snapshot of the tables, the merge without a lock, the change of the
-- list, and the removal of the old files. Between them other operations may run.
use cpp_kvstore.Common.{
  ℕ, zero, suc, ◌+◌, ◌%◌, ◌^◌, Bool, true, false, List, [], ◌∷◌, Option, none, some,
}
use cpp_kvstore.Common.{if◌then◌else◌, leb, ◌==◌, length, Run, done, stuck, ◌>>=◌}
use cpp_kvstore.Common.Bytes.{Bytes}
use cpp_kvstore.Common.Lex.{bytes_eq}
use cpp_kvstore.Disk.{Disk, update, remove_file}
use cpp_kvstore.SsTable.Format.{type_deletion}
use cpp_kvstore.SsTable.Builder.{SsTableBuilder, new_builder, default_block_size, add, finish}
use cpp_kvstore.SsTable.Reader.{SsTableReader, open_reader}
use cpp_kvstore.Iterator.Table.{SsTableIterator, table_iterator}
use cpp_kvstore.Iterator.Merging.{MergingIterator, merging_iterator}
use cpp_kvstore.Iterator.Merging as Merge
use cpp_kvstore.Engine.Names.{sst_path}
use cpp_kvstore.Engine.{KvEngine}
use cpp_kvstore.Engine.Cursor.{table_children}

-- The first phase; `none` where there is nothing to merge.
unfoldable pub compact_snapshot : KvEngine → Option (List SsTableReader)
compact_snapshot e = if leb (length e.sstables) 1 then none else some e.sstables

abbrev pub has_key : Option Bytes → Bytes → Bool
has_key none key = false
has_key (some last_key) key = bytes_eq key last_key

-- The loop over the merged entries: a key that was just seen and a tombstone are dropped.
unfoldable pub compact_loop :
    ℕ → MergingIterator SsTableIterator → Option Bytes → SsTableBuilder → Run SsTableBuilder
compact_loop zero m last_key b = if m.valid then stuck else done b
compact_loop (suc fuel) m last_key b =
    let entry = m.current_entry in
    elim m.valid [
      | false ↦ done b
      | true ↦ elim (has_key last_key entry.key) [
        | true ↦ Merge.next table_iterator m >>= λ m'. compact_loop fuel m' last_key b
        | false ↦ elim (entry.type_ == type_deletion) [
          | true ↦ Merge.next table_iterator m >>= λ m'. compact_loop fuel m' (some entry.key) b
          | false ↦ Merge.next table_iterator m >>= λ m'.
              compact_loop fuel m' (some entry.key) (add b entry.key entry.value entry.type_)
        ]
      ]
    ]

-- The bytes of the tables bound the entries.
abbrev pub tables_size : List SsTableReader → ℕ
tables_size [] = 0
tables_size (r ∷ rs) = length r.content + tables_size rs

-- The second phase: the next file number is taken and the merged file written; it gives its path.
unfoldable pub compact_merge : Disk → KvEngine → List SsTableReader → Run (Disk × KvEngine × Bytes)
compact_merge d e readers =
    let counter = (e.sst_counter + 1) % 2 ^ 64 in
    let path = sst_path e.db_path counter in
    table_children readers >>= λ iterators.
    merging_iterator table_iterator iterators >>= λ merge_iter.
    compact_loop (tables_size readers) merge_iter none (new_builder default_block_size) >>= λ b.
    done (update d path (some (finish b).0.file), record e { sst_counter = counter }, path)

abbrev pub contains : List SsTableReader → Bytes → Bool
contains [] path = false
contains (r ∷ rs) path = if bytes_eq r.filename path then true else contains rs path

-- The tables that took no part in the merge.
unfoldable pub remaining_sstables : List SsTableReader → List SsTableReader → List SsTableReader
remaining_sstables old [] = []
remaining_sstables old (r ∷ rs) =
    let rest = remaining_sstables old rs in if contains old r.filename then rest else r ∷ rest

-- The third phase, on the engine as it is by then.
unfoldable pub compact_install : KvEngine → List SsTableReader → SsTableReader → KvEngine
compact_install e old reader = record e { sstables = reader ∷ remaining_sstables old e.sstables }

-- The fourth phase.
unfoldable pub remove_tables : Disk → List SsTableReader → Bytes → Disk
remove_tables d [] compact_path = d
remove_tables d (r ∷ rs) compact_path =
    let skip = length r.filename == 0 in
    let d1 =
      if skip
      then d
      else if bytes_eq r.filename compact_path
      then d
      else (remove_file d r.filename).0 in
    remove_tables d1 rs compact_path

-- What follows the merge: Open gives the merged table no sequence number, so 0; where it fails
-- the old tables stay.
unfoldable pub compact_finish : Disk → KvEngine → List SsTableReader → Bytes → Run (Disk × KvEngine)
compact_finish d e old path = open_reader d path 0 >>= λ opened. done (elim opened [
  | none ↦ (d, e)
  | some reader ↦ (remove_tables d old path, compact_install e old reader)
])

-- Compact with nothing in between.
unfoldable pub compact : Disk → KvEngine → Run (Disk × KvEngine)
compact d e = elim (compact_snapshot e) [
  | none ↦ done (d, e)
  | some old ↦ compact_merge d e old >>= λ (d1, e1, path). compact_finish d1 e1 old path
]
