-- ===== src/Engine/Snapshot.antt =====
-- NewIterator against what get answers.
use cpp_kvstore.Common.{ℕ, ◌<◌, ◌≤◌, ◌≡◌, refl, sym, ap, ◌∙◌, arith, false, Bool-cases, inl, inr}
use cpp_kvstore.Common.{List, [], ◌∷◌, Option, none, some, All, Run, done, ◌>>=◌}
use cpp_kvstore.Common.Bytes.{Bytes}
use cpp_kvstore.Common.Lex.{lex, bytes_lt, bytes_eq}
use cpp_kvstore.SkipList.Rows.{Ghost, lookup}
use cpp_kvstore.SkipList.Search.{IsValid, upper}
use cpp_kvstore.SkipList.Get.{get_lem}
use cpp_kvstore.SsTable.Reader.{SsTableReader}
use cpp_kvstore.SsTable.Table.{Entry}
use cpp_kvstore.Iterator.{IteratorEntry}
use cpp_kvstore.Iterator.Spec.{Ascending, Yields, find_entry}
use cpp_kvstore.Iterator.Table.{SsTableIterator, table_iterator}
use cpp_kvstore.Iterator.Table.Yields.{table_shows, Ascending-table_shows}
use cpp_kvstore.Iterator.Memory.{SkipListIterator, skip_list_iterator, size_max, memory_iterator}
use cpp_kvstore.Iterator.Memory.Yields.{node_entries, Ascending-Sorted, skip_list_iterator_lem}
use cpp_kvstore.Iterator.Merging.{MergingIterator, merging_iterator, merged_iterator}
use cpp_kvstore.Iterator.Merging.Start.{ShowsEach, merging_iterator_lem}
use cpp_kvstore.Engine.{KvEngine, get}
use cpp_kvstore.Engine.Write.{answer, get-answer}
use cpp_kvstore.Engine.Cursor.{
  Child, memory, table, child_iterator, table_children, tables, new_iterator,
}
use cpp_kvstore.Engine.Versions.{SequencesBelow, Versions, or_else, first_found, Newest-first_found}
use cpp_kvstore.Engine.Tables.{
  AreTables, tables_answer, get_tables-AreTables, entry_answer, find_entry-table_shows,
  sstable_iterator-IsTable,
}

-- What the tables show, each with its reader's sequence number.
abbrev pub shown_tables : List SsTableReader → List (List Entry) → List (List IteratorEntry)
shown_tables [] tables = []
shown_tables (r ∷ readers) [] = []
shown_tables (r ∷ readers) (es ∷ tables) = table_shows r.sequence es ∷ shown_tables readers tables

-- The sequence numbers descend, from below the bound.
abbrev pub Descends : ℕ → List SsTableReader → Type 0
Descends bound [] = Unit
Descends bound (r ∷ readers) = (r.sequence < bound) × Descends r.sequence readers

entry_answer-or_else :
    (a b : Option IteratorEntry) (rest : Run (Option Bytes))
    → entry_answer (or_else a b) rest ≡ entry_answer a (entry_answer b rest)
entry_answer-or_else none b rest = refl
entry_answer-or_else (some e) b rest = refl

entry_answer-tables :
    (readers : List SsTableReader) (records : List (List Entry)) (k : Bytes)
    → AreTables readers records
    → entry_answer (first_found k (shown_tables readers records)) (done none)
      ≡ tables_answer records k
entry_answer-tables [] [] k t = refl
entry_answer-tables [] (es ∷ records) k t = absurd t
entry_answer-tables (r ∷ readers) [] k t = absurd t
entry_answer-tables (r ∷ readers) (es ∷ records) k t =
    entry_answer-or_else (find_entry k (table_shows r.sequence es))
      (first_found k (shown_tables readers records)) (done none)
    ∙ ap (entry_answer (find_entry k (table_shows r.sequence es)))
        (entry_answer-tables readers records k t.1)
    ∙ find_entry-table_shows r.sequence k es (tables_answer records k) ((t.0).fits) ((t.0).known)

entry_answer-nodes :
    (sequence : ℕ) (k : Bytes) (gs : List Ghost) (rest : Run (Option Bytes))
    → entry_answer (find_entry k (node_entries sequence gs)) rest ≡ answer (lookup k gs) rest
entry_answer-nodes sequence k [] rest = refl
entry_answer-nodes sequence k (g ∷ gs) rest = elim (Bool-cases (bytes_eq g.key k)) [
  | inl same ↦ rw same refl
  | inr other ↦ rw other (entry_answer-nodes sequence k gs rest)
]

SequencesBelow-table_shows :
    (n bound : ℕ) (es : List Entry) → n < bound → SequencesBelow bound (table_shows n es)
SequencesBelow-table_shows n bound [] lt = tt
SequencesBelow-table_shows n bound (e ∷ es) lt = (lt, SequencesBelow-table_shows n bound es lt)

one_sequence :
    (n : ℕ) (es : List Entry) → All (λ (e : IteratorEntry). e.sequence ≡ n) (table_shows n es)
one_sequence n [] = tt
one_sequence n (e ∷ es) = (refl, one_sequence n es)

one_sequence_nodes :
    (n : ℕ) (gs : List Ghost) → All (λ (e : IteratorEntry). e.sequence ≡ n) (node_entries n gs)
one_sequence_nodes n [] = tt
one_sequence_nodes n (g ∷ gs) = (refl, one_sequence_nodes n gs)

shown_below :
    (bound low : ℕ) (readers : List SsTableReader) (records : List (List Entry))
    → low ≤ bound
    → Descends low readers
    → All (λ (es : List IteratorEntry). SequencesBelow bound es) (shown_tables readers records)
shown_below bound low [] records le d = tt
shown_below bound low (r ∷ readers) [] le d = tt
shown_below bound low (r ∷ readers) (es ∷ records) le d =
    let small : r.sequence < bound = omega (arith, d.0, le) in
    (
      SequencesBelow-table_shows r.sequence bound es small,
      shown_below bound r.sequence readers records (omega (arith, small)) d.1,
    )

Versions-shown_tables :
    (bound : ℕ) (readers : List SsTableReader) (records : List (List Entry))
    → Descends bound readers
    → Versions (shown_tables readers records)
Versions-shown_tables bound [] records d = tt
Versions-shown_tables bound (r ∷ readers) [] d = tt
Versions-shown_tables bound (r ∷ readers) (es ∷ records) d = (
  r.sequence,
  one_sequence r.sequence es,
  shown_below r.sequence r.sequence readers records (omega arith) d.1,
  Versions-shown_tables r.sequence readers records d.1,
)

-- A child of either class shows what its iterator shows.
Yields-memory :
    (it : SkipListIterator) (es : List IteratorEntry)
    → Yields memory_iterator it es
    → Yields child_iterator (memory it) es
Yields-memory it [] y = y
Yields-memory it (e ∷ es) y =
    let (valid, shows, it', moved, rest) = y in
    (
      valid,
      shows,
      memory it',
      ap (λ q. q >>= λ x. done (memory x)) moved,
      Yields-memory it' es rest,
    )

Yields-table :
    (it : SsTableIterator) (es : List IteratorEntry)
    → Yields table_iterator it es
    → Yields child_iterator (table it) es
Yields-table it [] y = y
Yields-table it (e ∷ es) y =
    let (valid, shows, it', moved, rest) = y in
    (valid, shows, table it', ap (λ q. q >>= λ x. done (table x)) moved, Yields-table it' es rest)

-- The iterators over the tables show their records.
table_children-ShowsEach :
    (readers : List SsTableReader) (records : List (List Entry))
    → AreTables readers records
    → (its : List SsTableIterator) × (table_children readers ≡ done its)
      × ShowsEach child_iterator (tables its) (shown_tables readers records)
unfolding table_children
table_children-ShowsEach [] [] t = ([], refl, tt)
table_children-ShowsEach [] (es ∷ records) t = absurd t
table_children-ShowsEach (r ∷ readers) [] t = absurd t
table_children-ShowsEach (r ∷ readers) (es ∷ records) t =
    let (it, run, yields) = sstable_iterator-IsTable r es t.0 in
    let (its, rest, shows) = table_children-ShowsEach readers records t.1 in
    (
      it ∷ its,
      rw (run, table_children, rest) refl,
      (
        Yields-table it (table_shows r.sequence es) yields,
        Ascending-table_shows r.sequence es ((t.0).sorted),
        shows,
      ),
    )

bytes_lt-nil : (k : Bytes) → bytes_lt k [] ≡ false
unfolding lex
bytes_lt-nil [] = refl
bytes_lt-nil (b ∷ k) = refl

upper-nil : (gs : List Ghost) → upper [] gs ≡ gs
upper-nil [] = refl
upper-nil (g ∷ gs) = rw (bytes_lt-nil g.key) refl

new_iterator_run :
    (e : KvEngine) (first : SkipListIterator) (its : List SsTableIterator)
    → skip_list_iterator (some e.skiplist) size_max [] ≡ done first
    → table_children e.sstables ≡ done its
    → new_iterator e ≡ merging_iterator child_iterator (memory first ∷ tables its)
unfolding new_iterator
new_iterator_run e first its run rest = rw (run, new_iterator, rest) refl

-- If the memory table is valid, the tables are files that the builder wrote from sorted records with
-- types that the engine writes, and their sequence numbers descend from the newest on, NewIterator
-- returns an iterator that shows keys in strictly ascending order, each with its newest entry:
-- for every key, what it shows is what get answers, where a tombstone and no entry are no value.
pub new_iterator_lem :
    (e : KvEngine) (gs : List Ghost) (records : List (List Entry))
    → IsValid e.skiplist gs
    → AreTables e.sstables records
    → Descends size_max e.sstables
    → (m : MergingIterator Child) × (new_iterator e ≡ done m)
      × ((es : List IteratorEntry) × Yields (merged_iterator child_iterator) m es
          × Ascending es
          × ((k : Bytes) → get e k ≡ entry_answer (find_entry k es) (done none)))
new_iterator_lem e gs records v t d =
    let (first, run, yields) = skip_list_iterator_lem e.skiplist gs size_max [] v in
    let (its, rest, shows) = table_children-ShowsEach e.sstables records t in
    let nodes = node_entries size_max gs in
    let yields' : Yields memory_iterator first nodes =
      rw (ap (node_entries size_max) (upper-nil gs)) at yields in
    let lists = nodes ∷ shown_tables e.sstables records in
    let (m, merged, shown) =
      merging_iterator_lem child_iterator (memory first ∷ tables its) lists
        (Yields-memory first nodes yields', Ascending-Sorted size_max gs v.sorted, shows) in
    let versions : Versions lists = (
      size_max,
      one_sequence_nodes size_max gs,
      shown_below size_max size_max e.sstables records (omega arith) d,
      Versions-shown_tables size_max e.sstables records d,
    ) in
    (
      m,
      new_iterator_run e first its run rest ∙ merged,
      (
        shown.0,
        shown.1,
        (shown.2).ascending,
        λ k.
            get-answer e k (lookup k gs) (get_lem e.skiplist gs v k)
            ∙ ap (answer (lookup k gs)) (
                get_tables-AreTables e.sstables records k t
                ∙ sym (entry_answer-tables e.sstables records k t))
            ∙ sym (
                entry_answer-nodes size_max k gs
                  (entry_answer (first_found k (shown_tables e.sstables records)) (done none)))
            ∙ sym (
                entry_answer-or_else (find_entry k nodes)
                  (first_found k (shown_tables e.sstables records)) (done none))
            ∙ sym (
                ap (λ o. entry_answer o (done none))
                  (Newest-first_found k lists (find_entry k (shown.0)) versions
                    ((shown.2).newest k))),
      ),
    )
