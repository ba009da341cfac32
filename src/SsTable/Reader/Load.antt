-- ===== src/SsTable/Reader/Load.antt =====
-- Opening a file that the builder wrote gives back its index.
use cpp_kvstore.Common.{ℕ, zero, suc, ◌+◌, ◌-◌, ◌≤◌, ◌<◌, ◌^◌, ◌%◌, ◌≡◌, refl, sym, ap, ◌∙◌, arith}
use cpp_kvstore.Common.{false, List, [], ◌∷◌, ◌++◌, some, leb, ltb, ==_refl, le→ltb}
use cpp_kvstore.Common.{
  length, All, length-append, append_assoc, append-nil, take-append, drop-append, take_all,
}
use cpp_kvstore.Common.{done, ◌>>=◌}
use cpp_kvstore.Common.Bytes.{Bytes, fixed, read_fixed-fixed, read_bytes-append, fixed_value-fixed}
use cpp_kvstore.SsTable.Format.{
  IndexEntry, Footer, index_bytes, footer_bytes, magic_number, footer_size,
}
use cpp_kvstore.SsTable.Reader.{
  SsTableReader, pread, pread_exact, parse_footer, check_magic, read_footer,
}
use cpp_kvstore.SsTable.Reader.{parse_index_entry, load_loop, load_index_block, open_content}
use cpp_kvstore.SsTable.Table.{
  Entry, Fits, block_bytes, blocks_bytes, index_of, index_region, last_key, IsNonempty,
}
use cpp_kvstore.SsTable.Table.{footer_of, table_bytes}
use cpp_kvstore.SsTable.Builder.Finish.{length-index_bytes, index_region-le}

pread-middle :
    (front middle back : Bytes) (size offset : ℕ)
    → size ≡ length middle
    → offset ≡ length front
    → offset < 2 ^ 63
    → pread (front ++ (middle ++ back)) size offset ≡ some middle
unfolding pread
pread-middle front middle back size offset e f small =
    let inside : leb (2 ^ 63) offset ≡ false = ground arith in
    rw (inside, drop-append offset front (middle ++ back) f, take-append size middle back e)

-- A read of the middle of a file gives that middle.
pub pread_exact-middle :
    (front middle back : Bytes) (size offset : ℕ)
    → size ≡ length middle
    → offset ≡ length front
    → offset < 2 ^ 63
    → pread_exact (front ++ (middle ++ back)) size offset ≡ some middle
unfolding pread_exact
pread_exact-middle front middle back size offset e f small =
    rw (pread-middle front middle back size offset e f small, pread_exact, ← e, ==_refl size)

pub record FitsIndex (e : IndexEntry) : Type 0 where
  pub key_fits : length e.max_key < 2 ^ 32
  pub offset_fits : e.offset < 2 ^ 64
  pub size_fits : e.size < 2 ^ 64

parse_index_entry-index_bytes :
    (e : IndexEntry) (rest : Bytes)
    → FitsIndex e
    → parse_index_entry (index_bytes e ++ rest) ≡ done (e, rest)
unfolding parse_index_entry index_bytes
parse_index_entry-index_bytes e rest f =
    let small : length e.max_key % 2 ^ 32 ≡ length e.max_key = omega arith in
    let c3 : Bytes = fixed 8 e.size ++ rest in
    let c2 : Bytes = fixed 8 e.offset ++ c3 in
    let c1 : Bytes = e.max_key ++ c2 in
    rw (
      small,
      take_all (length e.max_key) e.max_key (omega arith),
      append_assoc e.max_key (fixed 8 e.offset ++ fixed 8 e.size) rest,
      read_fixed-fixed 4 (length e.max_key) c1 (omega arith),
      read_bytes-append e.max_key c2,
      read_fixed-fixed 8 e.offset c3 (omega arith),
      read_fixed-fixed 8 e.size rest (omega arith),
    )

load_loop_entry :
    (n : ℕ) (s : Bytes) (e : IndexEntry) (rest : Bytes)
    → 0 < length s
    → parse_index_entry s ≡ done (e, rest)
    → load_loop (suc n) s ≡ (load_loop n rest >>= λ es. done (e ∷ es))
unfolding load_loop
load_loop_entry n [] e rest h p = absurd (omega arith)
load_loop_entry n (b ∷ s) e rest h p = rw p

load_loop-index_region :
    (n : ℕ) (es : List IndexEntry)
    → length (index_region es) ≤ n
    → All FitsIndex es
    → load_loop n (index_region es) ≡ done es
load_loop-index_region n [] h f = unfold load_loop in refl
load_loop-index_region zero (e ∷ es) h f =
    absurd (omega (arith, length-append (index_bytes e) (index_region es), length-index_bytes e))
load_loop-index_region (suc n) (e ∷ es) h f =
    let size = length-append (index_bytes e) (index_region es) in
    let long = length-index_bytes e in
    load_loop_entry n (index_bytes e ++ index_region es) e (index_region es) (omega arith)
      (parse_index_entry-index_bytes e (index_region es) f.0)
    ∙ rw (load_loop-index_region n es (omega arith) f.1)

parse_footer-footer_bytes :
    (f : Footer)
    → f.index_offset < 2 ^ 64
    → f.index_size < 2 ^ 64
    → f.magic < 2 ^ 64
    → parse_footer (footer_bytes f) ≡ f
unfolding parse_footer footer_bytes
parse_footer-footer_bytes f p q r = λ i. record {
  index_offset = fixed_value-fixed 8 f.index_offset p i;
  index_size = fixed_value-fixed 8 f.index_size q i;
  magic = fixed_value-fixed 8 f.magic r i;
}

length-footer_bytes : (f : Footer) → length (footer_bytes f) ≡ footer_size
unfolding footer_bytes
length-footer_bytes f = refl

check_magic_lem : (f : Footer) → f.magic ≡ magic_number → check_magic f ≡ some f
unfolding check_magic
check_magic_lem f m = ground arith

-- The footer at the end of a file is found.
read_footer-append :
    (front : Bytes) (f : Footer)
    → length front < 2 ^ 62
    → f.index_offset < 2 ^ 64
    → f.index_size < 2 ^ 64
    → f.magic ≡ magic_number
    → read_footer (front ++ footer_bytes f) ≡ some f
unfolding read_footer
read_footer-append front f small p q m =
    let size = length-append front (footer_bytes f) in
    let long : ltb (length (front ++ footer_bytes f)) footer_size ≡ false =
      le→ltb _ _ (omega (arith, size, length-footer_bytes f)) in
    let at : length (front ++ footer_bytes f) - footer_size ≡ length front =
      omega (arith, size, length-footer_bytes f) in
    let bytes =
      ap (λ t. pread_exact (front ++ t) footer_size (length front)) (append-nil (footer_bytes f)) in
    let read =
      pread_exact-middle front (footer_bytes f) [] footer_size (length front)
        (sym (length-footer_bytes f)) refl (omega arith) in
    let parsed = parse_footer-footer_bytes f p q (omega arith) in
    rw (long, at, sym bytes ∙ read, read_footer) (rw parsed (check_magic_lem f m))

load_index_block-middle :
    (front back : Bytes) (es : List IndexEntry) (f : Footer)
    → All FitsIndex es
    → length front < 2 ^ 63
    → f.index_offset ≡ length front
    → f.index_size ≡ length (index_region es)
    → load_index_block (front ++ (index_region es ++ back)) f ≡ done (some es)
unfolding load_index_block
load_index_block-middle front back es f fits small o s = rw (
  pread_exact-middle front (index_region es) back f.index_size f.index_offset s o (omega arith),
  load_index_block,
  load_loop-index_region (length (index_region es)) es (omega arith) fits,
)

last_key-Fits :
    (k : Bytes) (c : List Entry) → length k < 2 ^ 32 → All Fits c → length (last_key k c) < 2 ^ 32
last_key-Fits k [] h f = h
last_key-Fits k (e ∷ c) h f = last_key-Fits e.key c (f.0.key_fits) f.1

index_of-FitsIndex :
    (offset : ℕ) (cs : List (List Entry))
    → All (All Fits) cs
    → offset + length (blocks_bytes cs) < 2 ^ 64
    → All FitsIndex (index_of offset cs)
index_of-FitsIndex offset [] f h = tt
index_of-FitsIndex offset (c ∷ cs) f h =
    let size = length-append (block_bytes c) (blocks_bytes cs) in
    (
      record {
        key_fits = last_key-Fits [] c (omega arith) f.0;
        offset_fits = omega arith;
        size_fits = omega (arith, size);
      },
      index_of-FitsIndex (offset + length (block_bytes c)) cs f.1 (omega (arith, size)),
    )

-- The reader of a table of these blocks.
abbrev pub reader_of : Bytes → ℕ → List (List Entry) → SsTableReader
reader_of filename sequence cs = record {
  filename = filename;
  content = table_bytes cs;
  index_entries = index_of 0 cs;
  sequence = sequence;
}

pub open_content-table_bytes :
    (filename : Bytes) (sequence : ℕ) (cs : List (List Entry))
    → All (All Fits) cs
    → All IsNonempty cs
    → length (blocks_bytes cs) < 2 ^ 60
    → open_content filename (table_bytes cs) sequence ≡ done (some (reader_of filename sequence cs))
unfolding open_content
open_content-table_bytes filename sequence cs f full small =
    let region : Bytes = index_region (index_of 0 cs) in
    let footer = footer_bytes (footer_of cs) in
    let region_small = index_region-le 0 cs full in
    let regroup : table_bytes cs ≡ (blocks_bytes cs ++ region) ++ footer =
      sym (append_assoc (blocks_bytes cs) region footer) in
    let read : read_footer (table_bytes cs) ≡ some (footer_of cs) = rw regroup (
      read_footer-append (blocks_bytes cs ++ region) (footer_of cs)
        (omega (arith, length-append (blocks_bytes cs) region)) (omega arith) (omega arith) refl) in
    let loaded =
      load_index_block-middle (blocks_bytes cs) footer (index_of 0 cs) (footer_of cs)
        (index_of-FitsIndex 0 cs f (omega arith)) (omega arith) refl refl in
    rw (read, open_content, loaded)
