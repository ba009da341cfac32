-- ===== src/Engine/Tables.antt =====
-- The tables of an engine as lists of records, and what get answers from them.
use cpp_kvstore.Common.{ℕ, ◌<◌, ◌≡◌, ◌^◌, refl, ap, ◌∙◌, arith, Bool-cases, inl, inr, ◌⊎◌}
use cpp_kvstore.Common.{
  List, [], ◌∷◌, Option, none, some, if◌then◌else◌, ◌==◌, length, take_all, All, Run, done,
}
use cpp_kvstore.Common.Bytes.{Bytes}
use cpp_kvstore.Common.Lex.{bytes_eq}
use cpp_kvstore.Slice.{of_string}
use cpp_kvstore.SsTable.Format.{type_value, type_deletion, stored_len}
use cpp_kvstore.SsTable.Reader.{SsTableReader, Hit}
use cpp_kvstore.SsTable.Reader
use cpp_kvstore.SsTable.Reader.Load.{reader_of}
use cpp_kvstore.SsTable.Reader.Get.{get-reader_of}
use cpp_kvstore.SsTable.Reader.Block.{stored_value}
use cpp_kvstore.SsTable.Table.{
  Entry, Fits, Fits-flatten, find, flatten, blocks_bytes, IsNonempty, Sorted,
}
use cpp_kvstore.Iterator.{IteratorEntry}
use cpp_kvstore.Iterator.Spec.{Yields, find_entry}
use cpp_kvstore.Iterator.Table.{SsTableIterator, sstable_iterator, table_iterator}
use cpp_kvstore.Iterator.Table.Yields.{table_shows, sstable_iterator_lem}
use cpp_kvstore.Engine.{get_tables}
use cpp_kvstore.Engine.Flush.{hit_answer, get_tables-hit, view-of_string}

abbrev pub KnownType : Entry → Type 0
KnownType e = (e.type_ ≡ type_value) ⊎ (e.type_ ≡ type_deletion)

-- The reader of a file that the builder wrote from these records.
pub record IsTable (r : SsTableReader) (es : List Entry) : Type 0 where
  pub blocks : List (List Entry)
  pub reader : r ≡ reader_of r.filename r.sequence blocks
  pub records : flatten blocks ≡ es
  pub small : length (blocks_bytes blocks) < 2 ^ 60
  pub fits : All Fits es
  pub full : All IsNonempty blocks
  pub sorted : Sorted es
  pub known : All KnownType es

abbrev pub AreTables : List SsTableReader → List (List Entry) → Type 0
AreTables [] [] = Unit
AreTables [] (es ∷ tables) = ⊥
AreTables (r ∷ readers) [] = ⊥
AreTables (r ∷ readers) (es ∷ tables) = IsTable r es × AreTables readers tables

get-IsTable :
    (r : SsTableReader) (es : List Entry) (key : Bytes)
    → IsTable r es
    → Reader.get r (of_string key) ≡ done (find key es)
get-IsTable r es key t =
    ap (λ x. Reader.get x (of_string key)) t.reader
    ∙ get-reader_of r.filename r.sequence t.blocks (of_string key) t.small
        (Fits-flatten t.blocks (rw (t.records) t.fits)) t.full (rw (t.records) t.sorted)
        (view-of_string key).1
    ∙ ap (λ b. done (find b (flatten t.blocks))) (view-of_string key).0
    ∙ ap (λ l. done (find key l)) t.records

-- The answer of the first table that knows the key.
abbrev pub tables_answer : List (List Entry) → Bytes → Run (Option Bytes)
tables_answer [] key = done none
tables_answer (es ∷ tables) key = hit_answer (find key es) (tables_answer tables key)

pub get_tables-AreTables :
    (readers : List SsTableReader) (tables : List (List Entry)) (key : Bytes)
    → AreTables readers tables
    → get_tables readers key ≡ tables_answer tables key
get_tables-AreTables [] [] key t = unfold get_tables in refl
get_tables-AreTables [] (es ∷ tables) key t = absurd t
get_tables-AreTables (r ∷ readers) [] key t = absurd t
get_tables-AreTables (r ∷ readers) (es ∷ tables) key t =
    get_tables-hit r readers key (find key es) (get-IsTable r es key t.0)
    ∙ ap (hit_answer (find key es)) (get_tables-AreTables readers tables key t.1)

-- What an entry of an iterator says of its key, as get would answer it.
abbrev pub entry_answer : Option IteratorEntry → Run (Option Bytes) → Run (Option Bytes)
entry_answer none rest = rest
entry_answer (some e) rest = done (if e.type_ == type_deletion then none else some e.value)

stored_value-known :
    (e : Entry) → length e.value < 2 ^ 32 → e.type_ ≡ type_value → stored_value e ≡ e.value
unfolding stored_len
stored_value-known e f h = rw h (take_all _ e.value (omega (arith, f)))

-- The table and the iterator over it agree.
pub find_entry-table_shows :
    (sequence : ℕ) (key : Bytes) (es : List Entry) (rest : Run (Option Bytes))
    → All Fits es
    → All KnownType es
    → entry_answer (find_entry key (table_shows sequence es)) rest ≡ hit_answer (find key es) rest
find_entry-table_shows sequence key [] rest fits known = refl
find_entry-table_shows sequence key (e ∷ es) rest fits known =
    elim (Bool-cases (bytes_eq e.key key)) [
      | inr other ↦ rw other (find_entry-table_shows sequence key es rest fits.1 known.1)
      | inl same ↦ rw same (elim (known.0) [
        | inl v ↦ rw (stored_value-known e ((fits.0).value_fits) v, v) refl
        | inr d ↦ rw d refl
      ])
    ]

pub sstable_iterator-IsTable :
    (r : SsTableReader) (es : List Entry)
    → IsTable r es
    → (it : SsTableIterator) × (sstable_iterator r r.sequence ≡ done it)
      × Yields table_iterator it (table_shows r.sequence es)
sstable_iterator-IsTable r es t =
    let (it, run, yields) =
      sstable_iterator_lem r.filename r.sequence r.sequence t.blocks t.small
        (Fits-flatten t.blocks (rw (t.records) t.fits)) t.full in
    (it, ap (λ x. sstable_iterator x r.sequence) t.reader ∙ run, rw (← t.records) yields)
