-- ===== src/SsTable/Builder/Layout.antt =====
-- What the builder writes: the records in blocks, their index and the footer.
use cpp_kvstore.Common.{ℕ, ◌+◌, ◌<◌, ◌^◌, ◌%◌, ◌≡◌, refl, sym, ap, ◌∙◌, arith}
use cpp_kvstore.Common.{false, List, [], ◌∷◌, ◌++◌, leb, Bool-cases, inl, inr}
use cpp_kvstore.Common.{if◌then◌else◌, length, All, length-append, append-nil}
use native.Mathlib.Nat.{zero-add}
use cpp_kvstore.Common.Bytes.{Bytes}
use cpp_kvstore.SsTable.Builder.{SsTableBuilder, new_builder, flush_block, add_record, add}
use cpp_kvstore.SsTable.Builder.{is_empty}
use cpp_kvstore.SsTable.Table.{
  Entry, entry_bytes, block_bytes, block_bytes-append, length-entry_bytes,
}
use cpp_kvstore.SsTable.Table.{blocks_bytes, blocks_bytes-snoc, index_of, index_of-snoc}
use cpp_kvstore.SsTable.Table.{last_key, last_key-snoc, IsNonempty}

-- The builder has flushed the blocks `cs` and holds the records `c` in its buffer.
pub record Holds (b : SsTableBuilder) (cs : List (List Entry)) (c : List Entry) : Type 0 where
  pub file : b.file ≡ blocks_bytes cs
  pub buffer : b.block_buffer ≡ block_bytes c
  pub offset : b.current_offset ≡ length (blocks_bytes cs)
  pub index : b.index_entries ≡ index_of 0 cs
  pub last : (k : Bytes) → IsNonempty c → b.last_key_in_block ≡ last_key k c
  pub open_ : b.finished ≡ false
  pub full : All IsNonempty cs

pub new_builder-Holds : (block_size : ℕ) → Holds (new_builder block_size) [] []
unfolding new_builder
new_builder-Holds block_size = record {
  file = refl;
  buffer = refl;
  offset = refl;
  index = refl;
  last = λ k h. absurd h;
  open_ = refl;
  full = tt;
}

pub is_empty-block_bytes : (c : List Entry) → IsNonempty c → is_empty (block_bytes c) ≡ false
is_empty-block_bytes [] h = absurd h
is_empty-block_bytes (e ∷ c) h =
    of_length (block_bytes (e ∷ c))
      (omega (arith, length-append (entry_bytes e) (block_bytes c), length-entry_bytes e))
  where
    of_length : (b : Bytes) → 0 < length b → is_empty b ≡ false
    of_length [] h = absurd (omega arith)
    of_length (x ∷ b) h = refl

All-snoc :
    (cs : List (List Entry)) (c : List Entry)
    → All IsNonempty cs
    → IsNonempty c
    → All IsNonempty (cs ++ c ∷ [])
All-snoc [] c a h = (h, tt)
All-snoc (d ∷ cs) c a h = (a.0, All-snoc cs c a.1 h)

-- Flushing moves the buffer to the end of the blocks.
pub flush_block-Holds :
    {b : SsTableBuilder} {cs : List (List Entry)} {c : List Entry}
    → Holds b cs c
    → IsNonempty c
    → length (blocks_bytes cs) + length (block_bytes c) < 2 ^ 64
    → Holds (flush_block b) (cs ++ c ∷ []) []
unfolding flush_block
flush_block-Holds {b} {cs} {c} h ne small =
    let busy : is_empty b.block_buffer ≡ false = rw h.buffer (is_empty-block_bytes c ne) in
    let sum : (length (blocks_bytes cs) + length (block_bytes c)) % 2 ^ 64
        ≡ length (blocks_bytes cs ++ block_bytes c) =
      omega (arith, length-append (blocks_bytes cs) (block_bytes c)) in
    rw busy (record {
      file = simp (h.file, h.buffer, blocks_bytes-snoc cs c);
      buffer = refl;
      offset = simp (h.offset, h.buffer, blocks_bytes-snoc cs c) sum;
      index = simp (h.index, h.offset, h.buffer, h.last [] ne, index_of-snoc 0 cs c, zero-add);
      last = λ k e. absurd e;
      open_ = h.open_;
      full = All-snoc cs c h.full ne;
    })

-- Where `add` puts the next record: the blocks and the buffer after it.
abbrev pub place : ℕ → List (List Entry) → List Entry → Entry → List (List Entry) × List Entry
place block_size cs c e =
    if leb block_size (length (block_bytes (c ++ e ∷ [])))
    then (cs ++ (c ++ e ∷ []) ∷ [], [])
    else (cs, c ++ e ∷ [])

IsNonempty-snoc : (c : List Entry) (e : Entry) → IsNonempty (c ++ e ∷ [])
IsNonempty-snoc [] e = tt
IsNonempty-snoc (d ∷ c) e = tt

block_bytes-snoc :
    (c : List Entry) (e : Entry) → block_bytes (c ++ e ∷ []) ≡ block_bytes c ++ entry_bytes e
block_bytes-snoc c e =
    block_bytes-append c (e ∷ []) ∙ ap (λ t. block_bytes c ++ t) (append-nil (entry_bytes e))

-- The state of `add` between the append and the test for a full block.
abbrev appended : SsTableBuilder → Entry → SsTableBuilder
appended b e = record b {
  block_buffer = b.block_buffer ++ entry_bytes e;
  last_key_in_block = e.key;
}

appended-Holds :
    {b : SsTableBuilder} {cs : List (List Entry)} {c : List Entry} (e : Entry)
    → Holds b cs c
    → Holds (appended b e) cs (c ++ e ∷ [])
appended-Holds {c} e h = record {
  file = h.file;
  buffer = rw (h.buffer, block_bytes-snoc c e);
  offset = h.offset;
  index = h.index;
  last = λ k _. sym (last_key-snoc k c e);
  open_ = h.open_;
  full = h.full;
}

add_record-Holds :
    {b : SsTableBuilder} {cs : List (List Entry)} {c : List Entry} (e : Entry)
    → Holds b cs c
    → length (blocks_bytes cs) + length (block_bytes (c ++ e ∷ [])) < 2 ^ 64
    → let (cs', c') = place b.block_size cs c e in Holds (add_record b e.key e.value e.type_) cs' c'
unfolding add_record
add_record-Holds {b} {cs} {c} e h small =
    let h' = appended-Holds e h in
    let flushed = flush_block-Holds h' (IsNonempty-snoc c e) small in
    let size = ap length h'.buffer in
    elim (Bool-cases (leb b.block_size (length (block_bytes (c ++ e ∷ []))))) [
      | inl full ↦ simp (size, full) flushed
      | inr room ↦ simp (size, room) h'
    ]

-- `add` keeps the layout, as long as the file offset does not wrap.
pub add-Holds :
    {b : SsTableBuilder} {cs : List (List Entry)} {c : List Entry} (e : Entry)
    → Holds b cs c
    → length (blocks_bytes cs) + length (block_bytes (c ++ e ∷ [])) < 2 ^ 64
    → let (cs', c') = place b.block_size cs c e in Holds (add b e.key e.value e.type_) cs' c'
unfolding add
add-Holds {b} {cs} {c} e h small = simp (h.open_) (add_record-Holds e h small)

block_size-add :
    (b : SsTableBuilder) (e : Entry) → (add b e.key e.value e.type_).block_size ≡ b.block_size
unfolding add add_record flush_block
block_size-add b e = ground arith
