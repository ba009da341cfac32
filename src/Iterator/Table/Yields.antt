-- ===== src/Iterator/Table/Yields.antt =====
-- An SSTableIterator over a table that the builder wrote shows its records.
use cpp_kvstore.Common.{
  ℕ, suc, ◌+◌, ◌-◌, ◌<◌, ◌^◌, ◌≡◌, refl, sym, ap, ◌∙◌, arith, Bool, true, false,
}
use cpp_kvstore.Common.{List, [], ◌∷◌, ◌++◌, append_assoc, length-append, append-nil}
use cpp_kvstore.Common.{leb, ltb, ◌==◌, length, All, done}
use cpp_kvstore.Common.Bytes.{Bytes}
use cpp_kvstore.SsTable.Reader.{SsTableReader, get_block_count, read_data_block}
use cpp_kvstore.SsTable.Reader.Block.{stored}
use cpp_kvstore.SsTable.Reader.Load.{reader_of}
use cpp_kvstore.SsTable.Table.{
  Entry, Fits, entry_bytes, block_bytes, blocks_bytes, flatten, IsNonempty, block_bytes-append,
  length-entry_bytes, Sorted, AllAfter,
}
use cpp_kvstore.Iterator.{IteratorEntry, no_entry}
use cpp_kvstore.Iterator.Spec.{KeysAfter, Ascending, Yields}
use cpp_kvstore.Iterator.Table.{
  SsTableIterator, skip_blocks, load_block, parse_next_entry, parse_blocks, parse_current_block,
  sstable_iterator, next, table_iterator,
}
use cpp_kvstore.Iterator.Table.Parse.{
  shown, size-entry_bytes, parse_at-entry, read_data_block-reader_of,
}
use cpp_kvstore.Iterator.Table.Steps.{
  skip_here, skip_next, skip_end, parse_found, parse_over, parse_blocks_found, length-index_of,
}

abbrev pub table_shows : ℕ → List Entry → List IteratorEntry
table_shows sequence [] = []
table_shows sequence (e ∷ es) = shown sequence e ∷ table_shows sequence es

table_shows-append :
    (sequence : ℕ) (es fs : List Entry)
    → table_shows sequence (es ++ fs) ≡ table_shows sequence es ++ table_shows sequence fs
table_shows-append sequence [] fs = refl
table_shows-append sequence (e ∷ es) fs =
    ap (λ l. shown sequence e ∷ l) (table_shows-append sequence es fs)

KeysAfter-AllAfter :
    (sequence : ℕ) (k : Bytes) (es : List Entry)
    → AllAfter k es
    → KeysAfter k (table_shows sequence es)
KeysAfter-AllAfter sequence k [] all = tt
KeysAfter-AllAfter sequence k (e ∷ es) all = (all.0, KeysAfter-AllAfter sequence k es all.1)

pub Ascending-table_shows :
    (sequence : ℕ) (es : List Entry) → Sorted es → Ascending (table_shows sequence es)
Ascending-table_shows sequence [] sorted = tt
Ascending-table_shows sequence (e ∷ es) sorted =
    (KeysAfter-AllAfter sequence e.key es sorted.0, Ascending-table_shows sequence es sorted.1)

module _ (filename : Bytes) (file_sequence sequence : ℕ) (cs : List (List Entry))
    (small : length (blocks_bytes cs) < 2 ^ 60) where
  abbrev r : SsTableReader
  r = reader_of filename file_sequence cs

  -- The iterator at an offset of a block.
  abbrev standing : ℕ → ℕ → Bytes → IteratorEntry → Bool → SsTableIterator
  standing idx offset block x v = record {
    reader = r;
    sequence = sequence;
    current_block_idx = idx;
    current_offset = offset;
    current_block_data = block;
    current_entry = x;
    valid = v;
  }

  count-reader_of : get_block_count r ≡ length cs
  unfolding get_block_count
  count-reader_of = length-index_of 0 cs

  abbrev behind : ℕ → Entry → ℕ
  behind offset e = offset + 9 + length e.key + stored e

  parse_in_block :
      (idx offset : ℕ) (block : Bytes) (x : IteratorEntry) (v : Bool) (e : Entry)
      (front back : Bytes)
      → Fits e
      → block ≡ front ++ (entry_bytes e ++ back)
      → offset ≡ length front
      → parse_next_entry (standing idx offset block x v)
        ≡ done (standing idx (behind offset e) block (shown sequence e) true)
  parse_in_block idx offset block x v e front back f b o =
      let it = standing idx offset block x v in
      let more : ltb offset (length block) ≡ true = ground (
        arith,
        o,
        ap length b,
        length-append front (entry_bytes e ++ back),
        length-append (entry_bytes e) back,
        length-entry_bytes e,
      ) in
      parse_found it it _ (skip_here (get_block_count r) it more)
        (parse_at-entry it e front back f b o)

  load-next :
      (ds : List (List Entry)) (d : List Entry) (rest : List (List Entry))
      → cs ≡ ds ++ d ∷ rest
      → read_data_block r (length ds) ≡ block_bytes d
  load-next ds d rest split =
      rw split (read_data_block-reader_of filename file_sequence ds d rest (rw split at small))

  loaded :
      (idx old offset : ℕ) (block bytes : Bytes) (x : IteratorEntry) (v : Bool)
      → read_data_block r idx ≡ bytes
      → load_block (standing old offset block x v) idx ≡ standing idx 0 bytes x v
  unfolding load_block
  loaded idx old offset block bytes x v e = ap (λ b. standing idx 0 b x v) e

  -- From the end of a block to the first record of the next.
  parse_next_block :
      (ds : List (List Entry)) (c d : List Entry) (rest : List (List Entry)) (x : IteratorEntry)
      (v : Bool) (e : Entry) (es : List Entry)
      → cs ≡ ds ++ (c ∷ d ∷ rest)
      → d ≡ e ∷ es
      → Fits e
      → parse_next_entry (standing (length ds) (length (block_bytes c)) (block_bytes c) x v)
        ≡ done (standing (length ds + 1) (behind 0 e) (block_bytes d) (shown sequence e) true)
  parse_next_block ds c d rest x v e es split first f =
      let it = standing (length ds) (length (block_bytes c)) (block_bytes c) x v in
      let it1 = standing (length ds + 1) 0 (block_bytes d) x v in
      let count = count-reader_of ∙ ap length split ∙ length-append ds (c ∷ d ∷ rest) in
      let inner : leb (get_block_count r) (length ds + 1) ≡ false = ground (arith, count) in
      let whole : cs ≡ (ds ++ c ∷ []) ++ d ∷ rest =
        split ∙ sym (append_assoc ds (c ∷ []) (d ∷ rest)) in
      let index : length (ds ++ c ∷ []) ≡ length ds + 1 = length-append ds (c ∷ []) in
      let read : read_data_block r (length ds + 1) ≡ block_bytes d =
        ap (read_data_block r) (sym index) ∙ load-next (ds ++ c ∷ []) d rest whole in
      let block : block_bytes d ≡ [] ++ (entry_bytes e ++ block_bytes es) = ap block_bytes first in
      let more : ltb 0 (length (block_bytes d)) ≡ true = ground (
        arith,
        ap length block,
        length-append (entry_bytes e) (block_bytes es),
        length-entry_bytes e,
      ) in
      let pred : get_block_count r ≡ suc (get_block_count r - 1) = omega (arith, count) in
      let skip =
        skip_next (get_block_count r) it (ground arith) inner
        ∙ ap (skip_blocks (get_block_count r)) (
            loaded (length ds + 1) (length ds) (length (block_bytes c)) (block_bytes c)
              (block_bytes d) x v read)
        ∙ ap (λ n. skip_blocks n it1) pred
        ∙ skip_here (get_block_count r - 1) it1 more in
      parse_found it it1 _ skip (parse_at-entry it1 e [] (block_bytes es) f block refl)

  parse_last_block :
      (ds : List (List Entry)) (c : List Entry) (x : IteratorEntry) (v : Bool)
      → cs ≡ ds ++ c ∷ []
      → parse_next_entry (standing (length ds) (length (block_bytes c)) (block_bytes c) x v)
        ≡ done (standing (length ds + 1) (length (block_bytes c)) (block_bytes c) x false)
  parse_last_block ds c x v split =
      let it = standing (length ds) (length (block_bytes c)) (block_bytes c) x v in
      let last : leb (get_block_count r) (length ds + 1) ≡ true =
        ground (arith, count-reader_of, ap length split, length-append ds (c ∷ [])) in
      parse_over it _ (skip_end (get_block_count r) it (ground arith) last)

  next_valid :
      (idx offset : ℕ) (block : Bytes) (x : IteratorEntry)
      → next (standing idx offset block x true)
        ≡ parse_next_entry (standing idx offset block x true)
  unfolding next
  next_valid idx offset block x = refl

  -- Next leads to the entries of these records.
  abbrev Leads : ℕ → ℕ → Bytes → List Entry → Type 0
  Leads idx offset block es =
      (x : IteratorEntry)
      → (it : SsTableIterator) × (next (standing idx offset block x true) ≡ done it)
        × Yields table_iterator it (table_shows sequence es)

  behind_block :
      (pre : List Entry) (e : Entry)
      → Fits e
      → behind (length (block_bytes pre)) e ≡ length (block_bytes (pre ++ e ∷ []))
  behind_block pre e f = omega (
    arith,
    ap length (block_bytes-append pre (e ∷ [])),
    length-append (block_bytes pre) (entry_bytes e ++ []),
    length-append (entry_bytes e) [],
    size-entry_bytes e f,
  )

  -- Through the records of a block to its end, and on from there.
  through_block :
      (idx : ℕ) (c pre es after : List Entry)
      → c ≡ pre ++ es
      → All Fits es
      → Leads idx (length (block_bytes c)) (block_bytes c) after
      → Leads idx (length (block_bytes pre)) (block_bytes c) (es ++ after)
  through_block idx c pre [] after split fits leads =
      let same : c ≡ pre = split ∙ append-nil pre in λ x. rw (← same) (leads x)
  through_block idx c pre (e ∷ es) after split fits leads =
      let block : block_bytes c ≡ block_bytes pre ++ (entry_bytes e ++ block_bytes es) =
        ap block_bytes split ∙ block_bytes-append pre (e ∷ es) in
      let rest =
        through_block idx c (pre ++ e ∷ []) es after (split ∙ sym (append_assoc pre (e ∷ []) es))
          fits.1 leads in
      let at = behind_block pre e fits.0 in
      let (it, moved, yields) = rest (shown sequence e) in
      λ x. (
        standing idx (behind (length (block_bytes pre)) e) (block_bytes c) (shown sequence e) true,
        next_valid idx (length (block_bytes pre)) (block_bytes c) x
            ∙ parse_in_block idx (length (block_bytes pre)) (block_bytes c) x true e
                (block_bytes pre) (block_bytes es) fits.0 block refl,
        (refl, refl, it, rw at moved, yields),
      )

  -- From the end of a block through all blocks behind it.
  from_end :
      (ds : List (List Entry)) (c : List Entry) (rest : List (List Entry))
      → cs ≡ ds ++ c ∷ rest
      → All (All Fits) rest
      → All IsNonempty rest
      → Leads (length ds) (length (block_bytes c)) (block_bytes c) (flatten rest)
  from_end ds c [] split fits full = λ x. (
    standing (length ds + 1) (length (block_bytes c)) (block_bytes c) x false,
    next_valid (length ds) (length (block_bytes c)) (block_bytes c) x
        ∙ parse_last_block ds c x true split,
    refl,
  )
  from_end ds c ([] ∷ rest) split fits full = absurd full.0
  from_end ds c ((e ∷ es) ∷ rest) split fits full =
      let d = e ∷ es in
      let whole : cs ≡ (ds ++ c ∷ []) ++ d ∷ rest =
        split ∙ sym (append_assoc ds (c ∷ []) (d ∷ rest)) in
      let index : length (ds ++ c ∷ []) ≡ length ds + 1 = length-append ds (c ∷ []) in
      let on = from_end (ds ++ c ∷ []) d rest whole fits.1 full.1 in
      let on' : Leads (length ds + 1) (length (block_bytes d)) (block_bytes d) (flatten rest) =
        rw index at on in
      let inside = through_block (length ds + 1) d (e ∷ []) es (flatten rest) refl (fits.0).1 on' in
      let at : behind 0 e ≡ length (block_bytes (e ∷ [])) = behind_block [] e (fits.0).0 in
      let (it, moved, yields) = inside (shown sequence e) in
      λ x. (
        standing (length ds + 1) (behind 0 e) (block_bytes d) (shown sequence e) true,
        next_valid (length ds) (length (block_bytes c)) (block_bytes c) x
            ∙ parse_next_block ds c d rest x true e es split refl (fits.0).0,
        (refl, refl, it, rw at moved, yields),
      )

  start_empty :
      ltb 0 (get_block_count r) ≡ false
      → sstable_iterator r sequence ≡ done (standing 0 0 [] no_entry false)
  unfolding sstable_iterator
  start_empty e = rw e refl

  start_blocks :
      ltb 0 (get_block_count r) ≡ true
      → sstable_iterator r sequence
        ≡ parse_blocks (suc (get_block_count r)) (standing 0 0 [] no_entry false)
  unfolding sstable_iterator parse_current_block
  start_blocks e = rw e refl

  -- From the first record of the first block.
  start_block :
      (e : Entry) (es : List Entry) (rest : List (List Entry))
      → cs ≡ (e ∷ es) ∷ rest
      → All (All Fits) ((e ∷ es) ∷ rest)
      → All IsNonempty rest
      → (it : SsTableIterator) × (sstable_iterator r sequence ≡ done it)
        × Yields table_iterator it (table_shows sequence (flatten ((e ∷ es) ∷ rest)))
  start_block e es rest split fits full =
      let c = e ∷ es in
      let f = (fits.0).0 in
      let count = count-reader_of ∙ ap length split in
      let some_block : ltb 0 (get_block_count r) ≡ true = ground (arith, count) in
      let some_data : (length (block_bytes c) == 0) ≡ false =
        ground (arith, length-append (entry_bytes e) (block_bytes es), length-entry_bytes e) in
      let inside =
        through_block 0 c (e ∷ []) es (flatten rest) refl (fits.0).1
          (from_end [] c rest split fits.1 full) in
      let at : behind 0 e ≡ length (block_bytes (e ∷ [])) = behind_block [] e f in
      let (it, moved, yields) = inside (shown sequence e) in
      (
        standing 0 (behind 0 e) (block_bytes c) (shown sequence e) true,
        start_blocks some_block
            ∙ parse_blocks_found (get_block_count r) (standing 0 0 [] no_entry false)
                (standing 0 0 (block_bytes c) no_entry false) _ some_block
                (loaded 0 0 0 [] (block_bytes c) no_entry false (load-next [] c rest split))
                some_data
                (parse_in_block 0 0 (block_bytes c) no_entry false e [] (block_bytes es) f refl
                  refl)
                refl,
        (refl, refl, it, rw at moved, yields),
      )

-- On the reader of a table of blocks that are not empty and fit the format, the constructor returns
-- an iterator that shows all records of the table, in order, each with the sequence number that was
-- given, and the value of a tombstone empty; no read leaves its block.
pub sstable_iterator_lem :
    (filename : Bytes) (file_sequence sequence : ℕ) (cs : List (List Entry))
    → length (blocks_bytes cs) < 2 ^ 60
    → All (All Fits) cs
    → All IsNonempty cs
    → (it : SsTableIterator) × (sstable_iterator (reader_of filename file_sequence cs) sequence
        ≡ done it)
      × Yields table_iterator it (table_shows sequence (flatten cs))
sstable_iterator_lem filename file_sequence sequence [] small fits full = (
  standing filename file_sequence sequence [] small 0 0 [] no_entry false,
  start_empty filename file_sequence sequence [] small (unfold get_block_count in ground arith),
  refl,
)
sstable_iterator_lem filename file_sequence sequence ([] ∷ cs) small fits full = absurd full.0
sstable_iterator_lem filename file_sequence sequence ((e ∷ es) ∷ cs) small fits full =
    start_block filename file_sequence sequence ((e ∷ es) ∷ cs) small e es cs refl fits full.1
