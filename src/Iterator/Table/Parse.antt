-- ===== src/Iterator/Table/Parse.antt =====
-- ParseNextEntry on a table that the builder wrote.
use cpp_kvstore.Common.{ℕ, ◌+◌, ◌<◌, ◌^◌, ◌≡◌, refl, sym, ap, ◌∙◌, arith, true, false}
use cpp_kvstore.Common.{List, [], ◌∷◌, ◌++◌, some, append_assoc, length-append, drop-append}
use cpp_kvstore.Common.{ltb, length, drop, get_elem?, done}
use cpp_kvstore.Common.Bytes.{Bytes, read_bytes, read_bytes-append}
use cpp_kvstore.SsTable.Format.{IndexEntry, footer_bytes}
use cpp_kvstore.SsTable.Reader.{SsTableReader, read_data_block, pread_exact}
use cpp_kvstore.SsTable.Reader.Block.{stored, stored_value, stored-length, read_lens-entry}
use cpp_kvstore.SsTable.Reader.Load.{reader_of, pread_exact-middle}
use cpp_kvstore.SsTable.Table.{
  Entry, Fits, entry_bytes, block_bytes, blocks_bytes, index_of, last_key, index_region, footer_of,
}
use cpp_kvstore.Iterator.{IteratorEntry}
use cpp_kvstore.Iterator.Table.{SsTableIterator, parse_at}

-- What the iterator shows of a record: for a tombstone an empty value.
abbrev pub shown : ℕ → Entry → IteratorEntry
shown sequence e = record {
  key = e.key;
  value = stored_value e;
  type_ = e.type_;
  sequence = sequence;
}

pub size-entry_bytes : (e : Entry) → Fits e → length (entry_bytes e) ≡ 9 + length e.key + stored e
unfolding cpp_kvstore.SsTable.Format.record_bytes
size-entry_bytes e f = omega (arith, length-append e.key (stored_value e), stored-length e f)

-- A record at the offset is parsed, and the offset moves behind it.
pub parse_at-entry :
    (it : SsTableIterator) (e : Entry) (front back : Bytes)
    → Fits e
    → it.current_block_data ≡ front ++ (entry_bytes e ++ back)
    → it.current_offset ≡ length front
    → parse_at it
      ≡ done (record it {
        current_entry = shown it.sequence e;
        current_offset = it.current_offset + 9 + length e.key + stored e;
        valid = true;
      })
unfolding parse_at
parse_at-entry it e front back f block offset =
    let rest : Bytes = stored_value e ++ back in
    let size : length it.current_block_data
        ≡ length front + (9 + length e.key + stored e + length back) =
      ap length block
      ∙ omega (
        arith,
        length-append front (entry_bytes e ++ back),
        length-append (entry_bytes e) back,
        size-entry_bytes e f,
      ) in
    let header : ltb (length it.current_block_data) (it.current_offset + 9) ≡ false =
      ground (arith, size, offset) in
    let inside : ltb (length it.current_block_data)
          (it.current_offset + 9 + length e.key + stored e)
        ≡ false =
      ground (arith, size, offset) in
    let cursor : drop it.current_offset it.current_block_data ≡ entry_bytes e ++ back =
      ap (drop it.current_offset) block
      ∙ drop-append it.current_offset front (entry_bytes e ++ back) offset in
    let lens = read_lens-entry e f back in
    let key = read_bytes-append e.key rest in
    let value : read_bytes (stored e) rest ≡ done (stored_value e, back) =
      ap (λ n. read_bytes n rest) (sym (stored-length e f))
      ∙ read_bytes-append (stored_value e) back in
    rw (header, parse_at, cursor, lens, inside, key, value) refl

get_elem?-index_of :
    (offset : ℕ) (ds : List (List Entry)) (c : List Entry) (cs : List (List Entry))
    → get_elem? (index_of offset (ds ++ c ∷ cs)) (length ds)
      ≡ some (record {
        max_key = last_key [] c;
        offset = offset + length (blocks_bytes ds);
        size = length (block_bytes c);
      })
get_elem?-index_of offset [] c cs = let same : offset ≡ offset + 0 = omega arith in rw (← same) refl
get_elem?-index_of offset (d ∷ ds) c cs =
    let same : offset + length (block_bytes d ++ blocks_bytes ds)
        ≡ offset + length (block_bytes d) + length (blocks_bytes ds) =
      omega (arith, length-append (block_bytes d) (blocks_bytes ds)) in
    rw same (get_elem?-index_of (offset + length (block_bytes d)) ds c cs)

blocks_bytes-append :
    (ds cs : List (List Entry)) → blocks_bytes (ds ++ cs) ≡ blocks_bytes ds ++ blocks_bytes cs
blocks_bytes-append [] cs = refl
blocks_bytes-append (d ∷ ds) cs =
    ap (λ b. block_bytes d ++ b) (blocks_bytes-append ds cs)
    ∙ sym (append_assoc (block_bytes d) (blocks_bytes ds) (blocks_bytes cs))

content-split :
    (ds : List (List Entry)) (c : List Entry) (cs : List (List Entry)) (back : Bytes)
    → blocks_bytes (ds ++ c ∷ cs) ++ back
      ≡ blocks_bytes ds ++ (block_bytes c ++ (blocks_bytes cs ++ back))
content-split ds c cs back =
    ap (λ b. b ++ back) (blocks_bytes-append ds (c ∷ cs))
    ∙ append_assoc (blocks_bytes ds) (block_bytes c ++ blocks_bytes cs) back
    ∙ ap (λ b. blocks_bytes ds ++ b) (append_assoc (block_bytes c) (blocks_bytes cs) back)

read_data_block-done :
    (r : SsTableReader) (i : ℕ) (e : IndexEntry) (bytes : Bytes)
    → get_elem? r.index_entries i ≡ some e
    → pread_exact r.content e.size e.offset ≡ some bytes
    → read_data_block r i ≡ bytes
unfolding read_data_block
read_data_block-done r i e bytes at read = rw (at, read_data_block, read) refl

-- ReadDataBlock gives the block with the index.
pub read_data_block-reader_of :
    (filename : Bytes) (sequence : ℕ) (ds : List (List Entry)) (c : List Entry)
    (cs : List (List Entry))
    → length (blocks_bytes (ds ++ c ∷ cs)) < 2 ^ 60
    → read_data_block (reader_of filename sequence (ds ++ c ∷ cs)) (length ds) ≡ block_bytes c
read_data_block-reader_of filename sequence ds c cs small =
    let cut =
      content-split ds c cs
        (index_region (index_of 0 (ds ++ c ∷ cs)) ++ footer_bytes (footer_of (ds ++ c ∷ cs))) in
    let offset : 0 + length (blocks_bytes ds) ≡ length (blocks_bytes ds) = omega arith in
    let whole =
      ap length (blocks_bytes-append ds (c ∷ cs))
      ∙ length-append (blocks_bytes ds) (blocks_bytes (c ∷ cs)) in
    let read =
      ap (λ b. pread_exact b (length (block_bytes c)) (0 + length (blocks_bytes ds))) cut
      ∙ pread_exact-middle (blocks_bytes ds) (block_bytes c) _ (length (block_bytes c))
          (0 + length (blocks_bytes ds)) refl offset (omega (arith, whole, small)) in
    read_data_block-done (reader_of filename sequence (ds ++ c ∷ cs)) (length ds) _ (block_bytes c)
      (get_elem?-index_of 0 ds c cs) read
