-- ===== src/SsTable/Builder/Finish.antt =====
-- A finished table: all records in blocks, the index of the blocks and the footer.
use cpp_kvstore.Common.{ℕ, ◌+◌, ◌-◌, ◌*◌, ◌≤◌, ◌<◌, ◌^◌, ◌%◌, ◌≡◌, refl, sym, ap, ◌∙◌, arith}
use cpp_kvstore.Common.{true, false, List, [], ◌∷◌, ◌++◌, leb, Bool-cases, inl, inr, map}
use cpp_kvstore.Common.{length, take, All, length-append, append_assoc, append-nil, length-take}
use cpp_kvstore.Common.Bytes.{Bytes}
use cpp_kvstore.SsTable.Format.{IndexEntry, index_bytes, record_bytes, stored_len}
use cpp_kvstore.SsTable.Builder.{SsTableBuilder, flush_block, write_index}
use cpp_kvstore.SsTable.Builder.{finish_table, finish, is_empty, write_index_entry, add_all, build}
use cpp_kvstore.SsTable.Builder.Layout.{
  Holds, new_builder-Holds, add-Holds, place, flush_block-Holds, is_empty-block_bytes,
}
use cpp_kvstore.SsTable.Table.{Entry, entry_bytes, block_bytes, block_bytes-append}
use cpp_kvstore.SsTable.Table.{flatten, flatten-snoc, blocks_bytes, blocks_bytes-flatten, index_of}
use cpp_kvstore.SsTable.Table.{last_key, index_region, table_bytes, IsNonempty}

-- The arguments of Add for a record.
abbrev pub record_of : Entry → Bytes × Bytes × ℕ
record_of e = (e.key, e.value, e.type_)

pub length-index_bytes :
    (e : IndexEntry) → length (index_bytes e) ≡ 4 + length e.max_key % 2 ^ 32 + 8 + 8
unfolding index_bytes
length-index_bytes e =
    let k : Bytes = take (length e.max_key % 2 ^ 32) e.max_key in
    omega (arith, length-append {0} k, length-take (length e.max_key % 2 ^ 32) e.max_key)

length-key : (e : Entry) → 9 + length e.key ≤ length (entry_bytes e)
unfolding record_bytes
length-key e = omega (arith, length-append e.key (take (stored_len e.value e.type_) e.value))

-- The records of a table after those of its blocks.
place-flatten :
    (block_size : ℕ) (cs : List (List Entry)) (c : List Entry) (e : Entry)
    → let (cs', c') = place block_size cs c e in flatten cs' ++ c' ≡ flatten cs ++ (c ++ e ∷ [])
place-flatten block_size cs c e =
    elim (Bool-cases (leb block_size (length (block_bytes (c ++ e ∷ []))))) [
      | inl full ↦ rw full (append-nil _ ∙ flatten-snoc cs (c ++ e ∷ []))
      | inr room ↦ rw room
    ]

-- A block holds the key of its last record, and nine bytes more.
last_key-le :
    (k : Bytes) (c : List Entry) → IsNonempty c → 9 + length (last_key k c) ≤ length (block_bytes c)
last_key-le k [] h = absurd h
last_key-le k (e ∷ []) h = omega (arith, length-append (entry_bytes e) [], length-key e)
last_key-le k (e ∷ d ∷ c) h =
    omega (arith, length-append (entry_bytes e) (block_bytes (d ∷ c)), last_key-le e.key (d ∷ c) tt)

-- What is in the blocks and the buffer is no more than all records.
parts-le :
    (cs : List (List Entry)) (c : List Entry) (e : Entry) (es : List Entry)
    → length (blocks_bytes cs) + length (block_bytes (c ++ e ∷ []))
      ≤ length (block_bytes (flatten cs ++ (c ++ e ∷ es)))
parts-le cs c e es =
    let split : c ++ e ∷ es ≡ (c ++ e ∷ []) ++ es = sym (append_assoc c (e ∷ []) es) in
    rw
      (
        split,
        block_bytes-append (flatten cs),
        block_bytes-append (c ++ e ∷ []) es,
        blocks_bytes-flatten cs,
      )
      (omega (
        arith,
        length-append (block_bytes (flatten cs)) (block_bytes (c ++ e ∷ []) ++ block_bytes es),
        length-append (block_bytes (c ++ e ∷ [])) (block_bytes es),
      ))

-- The blocks and buffer that a builder holds once all records are added.
abbrev Added : SsTableBuilder → List Entry → Type 0
Added b all = (cs : List (List Entry)) × (c : List Entry) × Holds b cs c × (flatten cs ++ c ≡ all)

add_all-Holds :
    (es : List Entry) {b : SsTableBuilder} (cs : List (List Entry)) (c : List Entry)
    → Holds b cs c
    → length (block_bytes (flatten cs ++ (c ++ es))) < 2 ^ 64
    → Added (add_all b (map record_of es)) (flatten cs ++ (c ++ es))
unfolding add_all
add_all-Holds [] cs c h small = (cs, c, h, ap (λ t. flatten cs ++ t) (sym (append-nil c)))
add_all-Holds (e ∷ es) {b} cs c h small =
    let next = place b.block_size cs c e in
    let moved : flatten next.0 ++ (next.1 ++ es) ≡ flatten cs ++ (c ++ e ∷ es) =
      sym (append_assoc (flatten next.0) next.1 es)
      ∙ ap (λ t. t ++ es) (place-flatten b.block_size cs c e)
      ∙ append_assoc (flatten cs) (c ++ e ∷ []) es
      ∙ ap (λ t. flatten cs ++ t) (append_assoc c (e ∷ []) es) in
    let held = add-Holds e h (omega (arith, parts-le cs c e es)) in
    let (cs', c', h', all) = add_all-Holds es next.0 next.1 held (rw moved small) in
    (cs', c', h', all ∙ moved)

module _ (b : SsTableBuilder) (e : IndexEntry) where
  file-write_index_entry : (write_index_entry b e).file ≡ b.file ++ index_bytes e
  unfolding write_index_entry
  file-write_index_entry = refl

  offset-write_index_entry :
      b.current_offset + length (index_bytes e) < 2 ^ 64
      → (write_index_entry b e).current_offset ≡ b.current_offset + length (index_bytes e)
  unfolding write_index_entry
  offset-write_index_entry h = omega (arith, length-index_bytes e)

write_index_lem :
    (es : List IndexEntry) (b : SsTableBuilder)
    → b.current_offset + length (index_region es) < 2 ^ 64
    → ((write_index b es).file ≡ b.file ++ index_region es)
      × ((write_index b es).current_offset ≡ b.current_offset + length (index_region es))
unfolding write_index
write_index_lem [] b h = (sym (append-nil b.file), omega arith)
write_index_lem (e ∷ es) b h =
    let size = length-append (index_bytes e) (index_region es) in
    let moved = offset-write_index_entry b e (omega (arith, size)) in
    let (file, offset) = write_index_lem es (write_index_entry b e) (omega (arith, size, moved)) in
    (
      file
          ∙ ap (λ t. t ++ index_region es) (file-write_index_entry b e)
          ∙ append_assoc b.file (index_bytes e) (index_region es),
      omega (arith, offset, moved, size),
    )

-- The index takes at most three times the bytes of the blocks.
pub index_region-le :
    (offset : ℕ) (cs : List (List Entry))
    → All IsNonempty cs
    → length (index_region (index_of offset cs)) ≤ 3 * length (blocks_bytes cs)
index_region-le offset [] h = omega arith
index_region-le offset (c ∷ cs) h =
    let first : IndexEntry = record {
      max_key = last_key [] c;
      offset = offset;
      size = length (block_bytes c);
    } in
    omega (
      arith,
      length-append (index_bytes first)
          (index_region (index_of (offset + length (block_bytes c)) cs)),
      length-index_bytes first,
      last_key-le [] c h.0,
      length-append (block_bytes c) (blocks_bytes cs),
      index_region-le (offset + length (block_bytes c)) cs h.1,
    )

-- Finish behind its guards writes exactly the index and the footer of the flushed blocks.
finish_table_lem :
    {b : SsTableBuilder} {cs : List (List Entry)}
    → Holds b cs []
    → length (blocks_bytes cs) < 2 ^ 60
    → (finish_table b).file ≡ table_bytes cs
unfolding finish_table
finish_table_lem {b} {cs} h small =
    let region = index_region-le 0 cs h.full in
    let (file, offset) = write_index_lem (index_of 0 cs) b (omega (arith, h.offset)) in
    let size : ((write_index b (index_of 0 cs)).current_offset + 2 ^ 64 - length (blocks_bytes cs))
          % 2 ^ 64
        ≡ length (index_region (index_of 0 cs)) =
      omega (arith, h.offset, offset) in
    simp (h.index, file, size, h.offset, h.file, append_assoc)

is_empty-index_of :
    (cs : List (List Entry)) (c : List Entry) → is_empty (index_of 0 (cs ++ c ∷ [])) ≡ false
is_empty-index_of [] c = refl
is_empty-index_of (d ∷ cs) c = refl

-- What Finish does for a builder whose records are laid out in these blocks and this buffer.
finish-Holds :
    {b : SsTableBuilder} (cs : List (List Entry)) (c : List Entry)
    → Holds b cs c
    → IsNonempty (flatten cs ++ c)
    → length (block_bytes (flatten cs ++ c)) < 2 ^ 60
    → (ds : List (List Entry)) × ((finish b).0.file ≡ table_bytes ds)
      × ((finish b).1 ≡ true)
      × (flatten ds ≡ flatten cs ++ c)
      × All IsNonempty ds
unfolding finish
finish-Holds {b} [] [] h ne small = absurd ne
finish-Holds {b} (d ∷ cs) [] h ne small = (
  d ∷ cs,
  simp (h.open_, h.buffer, h.index)
      (finish_table_lem h (
        rw blocks_bytes-flatten
          (omega (arith, ap (λ es. length (block_bytes es)) (append-nil (flatten (d ∷ cs))))))),
  simp (h.open_, h.buffer, h.index),
  sym (append-nil (flatten (d ∷ cs))),
  h.full,
)
finish-Holds {b} cs (e ∷ c) h ne small =
    let ds : List (List Entry) = cs ++ (e ∷ c) ∷ [] in
    let parts = length-append (block_bytes (flatten cs)) (block_bytes (e ∷ c)) in
    let bound : length (block_bytes (flatten cs) ++ block_bytes (e ∷ c)) < 2 ^ 60 =
      rw block_bytes-append at small in
    let flushed = flush_block-Holds h tt (rw blocks_bytes-flatten (omega (arith, parts))) in
    let all = flatten-snoc cs (e ∷ c) in
    let busy : is_empty b.block_buffer ≡ false = rw h.buffer (is_empty-block_bytes (e ∷ c) tt) in
    let some_index : is_empty (flush_block b).index_entries ≡ false =
      rw flushed.index (is_empty-index_of cs (e ∷ c)) in
    (
      ds,
      simp (h.open_, busy, some_index)
          (finish_table_lem flushed (rw (blocks_bytes-flatten, all) small)),
      simp (h.open_, busy, some_index),
      all,
      flushed.full,
    )

-- Adding at least one record, and less than 2 ^ 60 bytes of records together, to a new builder and
-- finishing it succeeds and gives a file of all of them, in order, in blocks that are not empty,
-- with the index of these blocks and a footer.
pub build_lem :
    (block_size : ℕ) (es : List Entry)
    → IsNonempty es
    → length (block_bytes es) < 2 ^ 60
    → (ds : List (List Entry)) × ((build block_size (map record_of es)).0.file ≡ table_bytes ds)
      × ((build block_size (map record_of es)).1 ≡ true)
      × (flatten ds ≡ es)
      × All IsNonempty ds
unfolding build
build_lem block_size es ne small =
    let (cs, c, held, all) = add_all-Holds es [] [] (new_builder-Holds block_size) (omega arith) in
    let (ds, file, good, records, full) = finish-Holds cs c held (rw all ne) (rw all small) in
    (ds, file, good, records ∙ all, full)
