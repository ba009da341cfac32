-- ===== src/SsTable/Reader.antt =====
-- The class SSTableReader. An open descriptor is the content of its file, which nothing changes
-- after Finish; a file that is unlinked later stays readable. Allocations are taken to succeed.
pub mod Block
pub mod Load
pub mod Get
use cpp_kvstore.Common.{
  ℕ, zero, suc, ◌+◌, ◌-◌, ◌^◌, Bool, true, false, List, [], ◌∷◌, Option, none, some,
}
use cpp_kvstore.Common.{if◌then◌else◌, leb, ltb, ◌==◌, length, take, drop, get_elem?}
use cpp_kvstore.Common.{Run, done, fault, stuck, ◌>>=◌}
use cpp_kvstore.Common.Bytes.{Bytes, fixed_value, read_bytes, read_fixed}
use cpp_kvstore.Common.Lex.{bytes_lt}
use cpp_kvstore.Disk.{Disk}
use cpp_kvstore.Slice.{Slice, of_string, slice_lt, slice_eq, slice_gt, to_string}
use cpp_kvstore.SsTable.Format.{Footer, IndexEntry, magic_number, footer_size, type_value}

pub record SsTableReader : Type 0 where
  pub filename : Bytes
  pub content : Bytes
  pub index_entries : List IndexEntry
  pub sequence : ℕ

-- pread: what is there from the offset on, at most `size` bytes. An offset that is negative as an
-- off_t is an error.
unfoldable pub pread : Bytes → ℕ → ℕ → Option Bytes
pread content size offset =
    if leb (2 ^ 63) offset then none else some (take size (drop offset content))

-- A read that has to be complete.
unfoldable pub pread_exact : Bytes → ℕ → ℕ → Option Bytes
pread_exact content size offset = elim (pread content size offset) [
  | none ↦ none
  | some bytes ↦ if length bytes == size then some bytes else none
]

unfoldable pub parse_footer : Bytes → Footer
parse_footer bytes = record {
  index_offset = fixed_value (take 8 bytes);
  index_size = fixed_value (take 8 (drop 8 bytes));
  magic = fixed_value (take 8 (drop 16 bytes));
}

unfoldable pub check_magic : Footer → Option Footer
check_magic footer = if footer.magic == magic_number then some footer else none

unfoldable pub read_footer : Bytes → Option Footer
read_footer content =
    if ltb (length content) footer_size
    then none
    else elim (pread_exact content footer_size (length content - footer_size)) [
      | none ↦ none
      | some bytes ↦ check_magic (parse_footer bytes)
    ]

-- One round of the loop of LoadIndexBlock, which checks no bound.
unfoldable pub parse_index_entry : Bytes → Run (IndexEntry × Bytes)
parse_index_entry cursor = do
  (key_len, c1) ← read_fixed 4 cursor
  (max_key, c2) ← read_bytes key_len c1
  (offset, c3) ← read_fixed 8 c2
  (size, c4) ← read_fixed 8 c3
  done (record { max_key = max_key; offset = offset; size = size }, c4)

unfoldable pub load_loop : ℕ → Bytes → Run (List IndexEntry)
load_loop fuel [] = done []
load_loop zero (b ∷ cursor) = stuck
load_loop (suc fuel) (b ∷ cursor) =
    parse_index_entry (b ∷ cursor) >>= λ p. load_loop fuel p.1 >>= λ es. done (p.0 ∷ es)

-- Each entry takes a byte at least, so the length of the buffer bounds the rounds.
unfoldable pub load_index_block : Bytes → Footer → Run (Option (List IndexEntry))
load_index_block content footer = elim (pread_exact content footer.index_size footer.index_offset) [
  | none ↦ done none
  | some buffer ↦ load_loop (length buffer) buffer >>= λ es. done (some es)
]

-- Open, on the content of the file; `none` is nullptr.
unfoldable pub open_content : Bytes → Bytes → ℕ → Run (Option SsTableReader)
open_content filename content sequence = elim (read_footer content) [
  | none ↦ done none
  | some footer ↦ load_index_block content footer >>= elim [
    | none ↦ done none
    | some es ↦ done (
        some (record {
          filename = filename;
          content = content;
          index_entries = es;
          sequence = sequence;
        }))
  ]
]

unfoldable pub open_reader : Disk → Bytes → ℕ → Run (Option SsTableReader)
open_reader d filename sequence = elim (d.file filename) [
  | none ↦ done none
  | some content ↦ open_content filename content sequence
]

-- What Get stores through its two pointers when it returns true.
pub record Hit : Type 0 where
  pub value : Bytes
  pub type_ : ℕ

-- SearchInDataBlock: the loop, on what is behind the cursor. It checks no bound either.
unfoldable pub found : ℕ → Slice → Run (Option Hit)
found raw_type current_val =
    if raw_type == type_value
    then (to_string current_val >>= λ v. done (some (record { value = v; type_ = raw_type })))
    else done (some (record { value = []; type_ = raw_type }))

-- The fixed part of a record: its type and the two lengths.
unfoldable pub read_lens : Bytes → Run (ℕ × ℕ × ℕ × Bytes)
read_lens cursor = do
  (raw_type, c1) ← read_fixed 1 cursor
  (k_len, c2) ← read_fixed 4 c1
  (v_len, c3) ← read_fixed 4 c2
  done (raw_type, k_len, v_len, c3)

-- What one round of the loop does: return, or go on behind the record.
pub data Round : Type 0 where
  answer : Option Hit → Round
  next : Bytes → Round

unfoldable pub search_record : Bytes → Slice → Run Round
search_record cursor key = read_lens cursor >>= λ (raw_type, k_len, v_len, c).
    let current_key : Slice = record { mem = c; size = k_len } in
    let c' = drop k_len c in
    let current_val : Slice = record { mem = c'; size = v_len } in
    slice_eq current_key key >>= elim [
      | true ↦ found raw_type current_val >>= λ h. done (answer h)
      | false ↦ slice_gt current_key key >>= λ greater.
          done (if greater then answer none else next (drop v_len c'))
    ]

unfoldable pub search_loop : ℕ → Bytes → Slice → Run (Option Hit)
search_loop fuel [] key = done none
search_loop zero (b ∷ cursor) key = stuck
search_loop (suc fuel) (b ∷ cursor) key = search_record (b ∷ cursor) key >>= λ r. elim r [
  | answer h ↦ done h
  | next rest ↦ search_loop fuel rest key
]

unfoldable pub search_in_data_block : Bytes → Slice → Run (Option Hit)
search_in_data_block block_data key = search_loop (length block_data) block_data key

-- std::lower_bound over index entries in ascending order of max_key: the first that is not below
-- the key.
unfoldable pub lower_bound : List IndexEntry → Slice → Run (Option IndexEntry)
lower_bound [] key = done none
lower_bound (e ∷ es) key =
    let rest = lower_bound es key in
    slice_lt (of_string e.max_key) key >>= elim [ true ↦ rest | false ↦ done (some e) ]

-- Get; `none` is the result false.
-- Get behind the search in the index: read the block and search it.
unfoldable pub search_block : Bytes → Slice → Option IndexEntry → Run (Option Hit)
search_block content key none = done none
search_block content key (some e) = elim (pread_exact content e.size e.offset) [
  | none ↦ done none
  | some block_data ↦ search_in_data_block block_data key
]

unfoldable pub get : SsTableReader → Slice → Run (Option Hit)
get reader key = lower_bound reader.index_entries key >>= search_block reader.content key

unfoldable pub get_block_count : SsTableReader → ℕ
get_block_count reader = length reader.index_entries

-- An index out of range and a failed read both give the empty string.
unfoldable pub read_data_block : SsTableReader → ℕ → Bytes
read_data_block reader index = elim (get_elem? reader.index_entries index) [
  | none ↦ []
  | some e ↦ elim (pread_exact reader.content e.size e.offset) [ none ↦ [] | some bytes ↦ bytes ]
]

-- FindBlockIndex: the position that std::lower_bound finds, by std::string's order.
unfoldable pub find_block_index : List IndexEntry → Bytes → ℕ
find_block_index [] target = 0
find_block_index (e ∷ es) target =
    let rest = find_block_index es target in if bytes_lt e.max_key target then suc rest else 0
