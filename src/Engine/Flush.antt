-- ===== src/Engine/Flush.antt =====
-- FlushMemTable against what get answers.
use cpp_kvstore.Common.{
  ℕ, ◌+◌, ◌%◌, ◌^◌, ◌<◌, ◌≡◌, refl, sym, ap, ◌∙◌, arith, true, false, Bool-cases, inl, inr, ◌⊎◌,
}
use cpp_kvstore.Common.{
  List, [], ◌∷◌, map, Option, none, some, if◌then◌else◌, ◌==◌, length, take_all, All, Run, done,
}
use cpp_kvstore.Common.Bytes.{Bytes}
use cpp_kvstore.Common.Lex.{bytes_eq, bytes_eq_refl}
use cpp_kvstore.Disk.{Disk, update}
use cpp_kvstore.Slice.{of_string, view}
use cpp_kvstore.Slice
use cpp_kvstore.SkipList.{SkipList, TableValue}
use cpp_kvstore.SkipList
use cpp_kvstore.SkipList.Rows.{Ghost, lookup, Above, Sorted}
use cpp_kvstore.SkipList.Search.{IsValid}
use cpp_kvstore.SkipList.Get.{get_lem, entries, dump_all_lem}
use cpp_kvstore.SkipList.Clear.{clear-IsValid}
use cpp_kvstore.SsTable.Format.{type_value, type_deletion}
use cpp_kvstore.SsTable.Builder.{build, default_block_size}
use cpp_kvstore.SsTable.Builder.Finish.{record_of}
use cpp_kvstore.SsTable.Reader.{SsTableReader, Hit, open_reader, open_content}
use cpp_kvstore.SsTable.Reader
use cpp_kvstore.SsTable.Reader.Load.{reader_of}
use cpp_kvstore.SsTable.Reader.Get.{open_content-build}
use cpp_kvstore.SsTable.Table.{Entry, Fits, find, hit, AllAfter, block_bytes}
use cpp_kvstore.SsTable.Table as Table
use cpp_kvstore.Wal.Logger.{open_wal, remove_wal_file}
use cpp_kvstore.Engine.Names.{wal_path, sst_path}
use cpp_kvstore.Engine.{
  KvEngine, get, get_tables, add_arguments, write_table, push_reader, rotate_wal, flush_mem_table,
}
use cpp_kvstore.Engine.Write.{answer, get-answer}

-- The record that a node becomes in a table.
abbrev pub table_entry : Ghost → Entry
table_entry g = record { key = g.key; value = g.value.value; type_ = g.value.type_ }

abbrev pub table_entries : List Ghost → List Entry
table_entries [] = []
table_entries (g ∷ gs) = table_entry g ∷ table_entries gs

-- A node that the file format can hold, with a type that the engine writes.
abbrev pub Storable : Ghost → Type 0
Storable g =
    (length g.key < 2 ^ 32)
    × (length g.value.value < 2 ^ 32)
    × ((g.value.type_ ≡ type_value) ⊎ (g.value.type_ ≡ type_deletion))

-- Nodes that go into one file.
abbrev pub Flushable : List Ghost → Type 0
Flushable gs = All Storable gs × (length (block_bytes (table_entries gs)) < 2 ^ 60)

arguments : (gs : List Ghost) → map add_arguments (entries gs) ≡ map record_of (table_entries gs)
arguments [] = refl
arguments (g ∷ gs) = ap (λ t. (g.key, g.value.value, g.value.type_) ∷ t) (arguments gs)

AllAfter-Above : (k : Bytes) (gs : List Ghost) → Above k gs → AllAfter k (table_entries gs)
AllAfter-Above k [] above = tt
AllAfter-Above k (g ∷ gs) above = (above.0, AllAfter-Above k gs above.1)

Sorted-entries : (gs : List Ghost) → Sorted gs → Table.Sorted (table_entries gs)
Sorted-entries [] sorted = tt
Sorted-entries (g ∷ gs) sorted = (AllAfter-Above g.key gs sorted.0, Sorted-entries gs sorted.1)

Fits-Storable : (gs : List Ghost) → All Storable gs → All Fits (table_entries gs)
Fits-Storable [] s = tt
Fits-Storable (g ∷ gs) s =
    let small : g.value.type_ < 256 = elim ((s.0).2) [
      | inl e ↦ omega (arith, e)
      | inr e ↦ omega (arith, e)
    ] in
    (record { key_fits = (s.0).0; value_fits = (s.0).1; type_fits = small }, Fits-Storable gs s.1)

-- What the table answers for the key, as get reads it.
abbrev pub hit_answer : Option Hit → Run (Option Bytes) → Run (Option Bytes)
hit_answer none rest = rest
hit_answer (some h) rest = done (if h.type_ == type_deletion then none else some h.value)

find-lookup :
    (key : Bytes) (gs : List Ghost) (rest : Run (Option Bytes))
    → All Storable gs
    → hit_answer (find key (table_entries gs)) rest ≡ answer (lookup key gs) rest
find-lookup key [] rest s = refl
find-lookup key (g ∷ gs) rest s = elim (Bool-cases (bytes_eq g.key key)) [
  | inl same ↦ rw same (elim ((s.0).2) [ inl e ↦ rw e refl | inr e ↦ rw e refl ])
  | inr other ↦ rw other (find-lookup key gs rest s.1)
]

pub get_tables-hit :
    (reader : SsTableReader) (sstables : List SsTableReader) (key : Bytes) (o : Option Hit)
    → Reader.get reader (of_string key) ≡ done o
    → get_tables (reader ∷ sstables) key ≡ hit_answer o (get_tables sstables key)
unfolding get_tables
get_tables-hit reader sstables key none at = rw (at, get_tables) refl
get_tables-hit reader sstables key (some h) at = rw (at, get_tables) refl

pub view-of_string : (key : Bytes) → (view (of_string key) ≡ key) × Slice.IsValid (of_string key)
unfolding of_string
view-of_string key = (take_all (length key) key (omega arith), omega arith)

module _ (d : Disk) (e : KvEngine) where
  rotate_wal_lem :
      (gs : List Ghost)
      → IsValid e.skiplist gs
      → (d' : Disk) × (e' : KvEngine) × (rotate_wal d e ≡ done (d', e'))
        × (IsValid e'.skiplist [] × (e'.sstables ≡ e.sstables))
  unfolding rotate_wal
  rotate_wal_lem gs v =
      let (s', run, v', level) = clear-IsValid e.skiplist gs v in
      let path = wal_path e.db_path ((e.sst_counter + 1) % 2 ^ 64) in
      let opened = open_wal d e.wal path in
      (
        (remove_wal_file opened.0 e.current_wal_path).0,
        record e { current_wal_path = path; wal = opened.1; skiplist = s' },
        rw (run, rotate_wal) refl,
        (v', refl),
      )

  flush_done :
      (all_kv : List (Bytes × TableValue)) (reader : Option SsTableReader) (p : Disk × KvEngine)
      → let counter = (e.sst_counter + 1) % 2 ^ 64 in
        let path = sst_path e.db_path counter in
        let d1 = write_table d path (map add_arguments all_kv) in
        (SkipList.size e.skiplist == 0) ≡ false
        → SkipList.dump_all e.skiplist ≡ done all_kv
        → open_reader d1 path counter ≡ done reader
        → rotate_wal d1
            (record e { sst_counter = counter; sstables = push_reader reader e.sstables })
          ≡ done p
        → flush_mem_table d e ≡ done p
  unfolding flush_mem_table
  flush_done all_kv reader p size dump opened rotated =
      rw (size, dump, flush_mem_table, opened, rotated) refl

open_reader-write_table :
    (d : Disk) (path : Bytes) (records : List (Bytes × Bytes × ℕ)) (sequence : ℕ)
    → open_reader (write_table d path records) path sequence
      ≡ open_content path (build default_block_size records).0.file sequence
unfolding open_reader write_table update
open_reader-write_table d path records sequence = rw (bytes_eq_refl path, open_reader) refl

-- An engine with an empty memory table and the reader of these nodes in front of the tables.
get-pushed :
    (e e' : KvEngine) (gs : List Ghost) (reader : SsTableReader)
    → IsValid e.skiplist gs
    → All Storable gs
    → IsValid e'.skiplist []
    → e'.sstables ≡ reader ∷ e.sstables
    → ((k : Bytes) → Reader.get reader (of_string k) ≡ done (find k (table_entries gs)))
    → (k : Bytes) → get e' k ≡ get e k
get-pushed e e' gs reader v s v' tables gets k =
    get-answer e' k none (get_lem e'.skiplist [] v' k)
    ∙ ap (λ t. get_tables t k) tables
    ∙ get_tables-hit reader e.sstables k (find k (table_entries gs)) (gets k)
    ∙ find-lookup k gs (get_tables e.sstables k) s
    ∙ sym (get-answer e k (lookup k gs) (get_lem e.skiplist gs v k))

push_some :
    (reader : SsTableReader) (sstables : List SsTableReader)
    → push_reader (some reader) sstables ≡ reader ∷ sstables
unfolding push_reader
push_some reader sstables = refl

size-IsValid :
    (e : KvEngine) (gs : List Ghost) → IsValid e.skiplist gs → SkipList.size e.skiplist ≡ length gs
unfolding cpp_kvstore.SkipList.size
size-IsValid e gs v = v.count

flush_empty :
    (d : Disk) (e : KvEngine)
    → (SkipList.size e.skiplist == 0) ≡ true
    → flush_mem_table d e ≡ done (d, e)
unfolding flush_mem_table
flush_empty d e empty = rw (empty, flush_mem_table) refl

-- If the memory table is valid and its entries fit the file format, with types that the engine
-- writes, FlushMemTable returns, leaves the memory table empty and valid, and changes the answer of
-- get for no key.
pub flush_mem_table_lem :
    (d : Disk) (e : KvEngine) (gs : List Ghost)
    → IsValid e.skiplist gs
    → Flushable gs
    → (d' : Disk) × (e' : KvEngine) × (flush_mem_table d e ≡ done (d', e'))
      × IsValid e'.skiplist []
      × ((k : Bytes) → get e' k ≡ get e k)
flush_mem_table_lem d e [] v flushable =
    (d, e, flush_empty d e (ap (λ n. n == 0) (size-IsValid e [] v)), v, λ k. refl)
flush_mem_table_lem d e (g ∷ gs) v (storable, small) =
    let all = g ∷ gs in
    let counter = (e.sst_counter + 1) % 2 ^ 64 in
    let path = sst_path e.db_path counter in
    let records = map add_arguments (entries all) in
    let d1 = write_table d path records in
    let (cs, opened, gets) =
      open_content-build default_block_size (table_entries all) path counter tt
        (Sorted-entries all v.sorted) (Fits-Storable all storable) small in
    let reader = reader_of path counter cs in
    let e1 : KvEngine = record e {
      sst_counter = counter;
      sstables = push_reader (some reader) e.sstables;
    } in
    let opens : open_reader d1 path counter ≡ done (some reader) =
      open_reader-write_table d path records counter
      ∙ ap (λ r. open_content path (build default_block_size r).0.file counter) (arguments all)
      ∙ opened in
    let (d', e', rotated, (v', tables)) = rotate_wal_lem d1 e1 all v in
    (
      d',
      e',
      flush_done d e (entries all) (some reader) (d', e')
          (ap (λ n. n == 0) (size-IsValid e all v) ∙ ground arith) (dump_all_lem e.skiplist all v)
          opens rotated,
      v',
      get-pushed e e' all reader v storable v' (tables ∙ push_some reader e.sstables) (λ k.
          gets (of_string k) (view-of_string k).1
          ∙ ap (λ b. done (find b (table_entries all))) (view-of_string k).0),
    )
