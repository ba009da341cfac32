-- ===== src/SsTable/Reader/Get.antt =====
-- Get on a table that the builder wrote is the lookup in its records.
use cpp_kvstore.Common.{ℕ, ◌+◌, ◌<◌, ◌^◌, ◌≡◌, refl, ap, ◌∙◌, arith}
use cpp_kvstore.Common.{false, List, [], ◌∷◌, ◌++◌, Option, none, some, inl, inr, map, Bool-cases}
use cpp_kvstore.Common.{length, All, length-append, append_assoc, take_all}
use cpp_kvstore.Common.{Run, done, ◌>>=◌}
use cpp_kvstore.Common.Bytes.{Bytes}
use cpp_kvstore.Common.Lex.{lex, is_lt, is_lt→lt, Ordering-cases, lex-gt, lex-eq}
use cpp_kvstore.Slice.{Slice, IsValid, view, of_string, slice_lt}
use cpp_kvstore.Slice.Laws.{operators_lem}
use cpp_kvstore.SsTable.Format.{footer_bytes}
use cpp_kvstore.SsTable.Builder.{build}
use cpp_kvstore.SsTable.Builder.Finish.{build_lem, record_of}
use cpp_kvstore.SsTable.Reader.{SsTableReader, lower_bound, search_block, get, open_content}
use cpp_kvstore.SsTable.Reader.Block.{search_in_data_block_lem}
use cpp_kvstore.SsTable.Reader.Load.{pread_exact-middle, reader_of, open_content-table_bytes}
use cpp_kvstore.SsTable.Table.{
  Entry, Fits, find, find-none, Sorted, Sorted-append, AllAfter-trans, AllAfter-last_key,
  IsNonempty,
}
use cpp_kvstore.SsTable.Table.{
  find-append_none, find-append_back, find-below, last_key, flatten, block_bytes, blocks_bytes,
  blocks_bytes-flatten,
}
use cpp_kvstore.SsTable.Table.{index_of, index_region, footer_of, Fits-flatten}

module _ (key : Slice) (v : IsValid key) where
  slice_lt-of_string : (k : Bytes) → slice_lt (of_string k) key ≡ done (is_lt (lex k (view key)))
  unfolding of_string
  slice_lt-of_string k =
      let same : view (of_string k) ≡ k = take_all (length k) k (omega arith) in
      rw ((operators_lem (of_string k) key (omega arith) v).2, same)

  -- The key is not above the last record of a part, so it is not in the parts behind.
  behind-none :
      (c : List Entry) (es : List Entry)
      → Sorted (c ++ es)
      → IsNonempty c
      → is_lt (lex (last_key [] c) (view key)) ≡ false
      → find (view key) es ≡ none
  behind-none c es s ne h =
      let above = AllAfter-last_key [] c es s ne in
      find-none (view key) es (elim (Ordering-cases (last_key [] c) (view key)) [
        | inl lt ↦ cc (lt, h)
        | inr (inl eq) ↦ rw (← lex-eq (last_key [] c) (view key) eq) above
        | inr (inr gt) ↦ AllAfter-trans (view key) (last_key [] c) es (lex-gt _ _ gt) above
      ])

  -- the read of one block
  search_block-middle :
      (front back : Bytes) (c : List Entry) (offset : ℕ)
      → offset ≡ length front
      → offset < 2 ^ 63
      → All Fits c
      → Sorted c
      → search_block (front ++ (block_bytes c ++ back)) key (
          some (record { max_key = last_key [] c; offset = offset; size = length (block_bytes c) }))
        ≡ done (find (view key) c)
  unfolding search_block
  search_block-middle front back c offset o small f s = rw (
    pread_exact-middle front (block_bytes c) back (length (block_bytes c)) offset refl o small,
    search_block,
    search_in_data_block_lem c key f s v,
  )

  get_blocks :
      (cs : List (List Entry)) (front back : Bytes) (offset : ℕ)
      → offset ≡ length front
      → offset + length (blocks_bytes cs) < 2 ^ 63
      → All (All Fits) cs
      → All IsNonempty cs
      → Sorted (flatten cs)
      → (lower_bound (index_of offset cs) key
          >>= search_block (front ++ (blocks_bytes cs ++ back)) key)
        ≡ done (find (view key) (flatten cs))
  unfolding lower_bound
  get_blocks [] front back offset o small f full s = unfold search_block in refl
  get_blocks (c ∷ cs) front back offset o small f full s =
      let size = length-append (block_bytes c) (blocks_bytes cs) in
      let (sc, scs) = Sorted-append c (flatten cs) s in
      let regroup : front ++ ((block_bytes c ++ blocks_bytes cs) ++ back)
          ≡ (front ++ block_bytes c) ++ (blocks_bytes cs ++ back) =
        rw (append_assoc (block_bytes c), append_assoc front) in
      let first : front ++ ((block_bytes c ++ blocks_bytes cs) ++ back)
          ≡ front ++ (block_bytes c ++ (blocks_bytes cs ++ back)) =
        rw (append_assoc (block_bytes c)) in
      rw (slice_lt-of_string (last_key [] c))
        (elim (Bool-cases (is_lt (lex (last_key [] c) (view key)))) [
          | inl lt ↦
              let below = find-below (view key) [] c sc full.0 (is_lt→lt _ lt) in
              rw (lt, regroup, find-append_none (view key) c (flatten cs) below)
                (get_blocks cs (front ++ block_bytes c) back (offset + length (block_bytes c))
                  (omega (arith, length-append front (block_bytes c))) (omega (arith, size)) f.1
                  full.1 scs)
          | inr ge ↦
              let none_behind = behind-none c (flatten cs) s full.0 ge in
              rw (ge, first, find-append_back (view key) c (flatten cs) none_behind)
                (search_block-middle front (blocks_bytes cs ++ back) c offset o (omega arith) f.0
                  sc)
        ])

pub get-reader_of :
    (filename : Bytes) (sequence : ℕ) (cs : List (List Entry)) (key : Slice)
    → length (blocks_bytes cs) < 2 ^ 60
    → All (All Fits) cs
    → All IsNonempty cs
    → Sorted (flatten cs)
    → IsValid key
    → get (reader_of filename sequence cs) key ≡ done (find (view key) (flatten cs))
unfolding get
get-reader_of filename sequence cs key small f full s v =
    get_blocks key v cs [] (index_region (index_of 0 cs) ++ footer_bytes (footer_of cs)) 0 refl
      (omega arith) f full s

-- The file that the builder writes opens as the reader of its blocks, and Get on it is the lookup
-- in the records, for every key.
pub open_content-build :
    (block_size : ℕ) (es : List Entry) (filename : Bytes) (sequence : ℕ)
    → IsNonempty es
    → Sorted es
    → All Fits es
    → length (block_bytes es) < 2 ^ 60
    → (cs : List (List Entry)) × (open_content filename
          (build block_size (map record_of es)).0.file
          sequence
        ≡ done (some (reader_of filename sequence cs)))
      × ((key : Slice)
          → IsValid key
          → get (reader_of filename sequence cs) key ≡ done (find (view key) es))
open_content-build block_size es filename sequence ne s f small =
    let (cs, file, good, records, full) = build_lem block_size es ne small in
    let fits = Fits-flatten cs (rw records f) in
    let size : length (blocks_bytes cs) < 2 ^ 60 = rw (blocks_bytes-flatten, records) small in
    (
      cs,
      rw file (open_content-table_bytes filename sequence cs fits full size),
      λ key v.
          get-reader_of filename sequence cs key size fits full (rw records s) v
          ∙ ap (λ t. done (find (view key) t)) records,
    )

-- What a reader owes to the table that was written: it is there, it has the name and sequence
-- number it was opened with, and Get answers by the records.
abbrev pub Serves : Run (Option SsTableReader) → Bytes → ℕ → List Entry → Slice → Type 0
Serves opened filename sequence es key =
    (r : SsTableReader) × (opened ≡ done (some r))
    × (r.filename ≡ filename)
    × (r.sequence ≡ sequence)
    × (get r key ≡ done (find (view key) es))

-- Records in strictly ascending order of their keys, at least one and less than 2 ^ 60 bytes
-- together, each with a key and a value below 2 ^ 32 bytes and a type below 256, are written by
-- the builder, whatever its block size, to a file that opens; Get on the reader then returns, for
-- every valid key, what the records say of it, reads nothing outside its buffers and ends.
pub get-open_content-build :
    (block_size : ℕ) (es : List Entry) (filename : Bytes) (sequence : ℕ) (key : Slice)
    → IsNonempty es
    → Sorted es
    → All Fits es
    → length (block_bytes es) < 2 ^ 60
    → IsValid key
    → Serves
        (open_content filename (build block_size (map record_of es)).0.file sequence)
        filename
        sequence
        es
        key
get-open_content-build block_size es filename sequence key ne s f small v =
    let (cs, opened, gets) = open_content-build block_size es filename sequence ne s f small in
    (reader_of filename sequence cs, opened, refl, refl, gets key v)
