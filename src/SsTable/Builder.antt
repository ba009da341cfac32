-- ===== src/SsTable/Builder.antt =====
-- The class SSTableBuilder. The output stream is the bytes written to it; it is taken to be open
-- and every write to succeed.
pub mod Layout
pub mod Finish
use cpp_kvstore.Common.{ℕ, ◌+◌, ◌-◌, ◌%◌, ◌^◌, Bool, true, false, not, List, [], ◌∷◌, ◌++◌}
use cpp_kvstore.Common.{if◌then◌else◌, leb, ◌==◌, length}
use cpp_kvstore.Common.Bytes.{Bytes}
use cpp_kvstore.SsTable.Format.{IndexEntry, Footer, record_bytes, index_bytes, footer_bytes}
use cpp_kvstore.SsTable.Format.{magic_number, type_value}

pub record SsTableBuilder : Type 0 where
  pub file : Bytes
  pub block_size : ℕ
  pub current_offset : ℕ
  pub block_buffer : Bytes
  pub last_key_in_block : Bytes
  pub index_entries : List IndexEntry
  pub finished : Bool

-- std::string::empty, std::vector::empty
abbrev pub is_empty {ℓ} : {A : Type ℓ} → List A → Bool
is_empty [] = true
is_empty (x ∷ xs) = false

-- The constructor truncates the file.
unfoldable pub new_builder : ℕ → SsTableBuilder
new_builder block_size = record {
  file = [];
  block_size = block_size;
  current_offset = 0;
  block_buffer = [];
  last_key_in_block = [];
  index_entries = [];
  finished = false;
}

abbrev pub default_block_size : ℕ
default_block_size = 4096

unfoldable pub flush_block : SsTableBuilder → SsTableBuilder
flush_block b = if is_empty b.block_buffer then b else record b {
  index_entries =
      b.index_entries
      ++ (record {
        max_key = b.last_key_in_block;
        offset = b.current_offset;
        size = length b.block_buffer;
      }
          ∷ []);
  file = b.file ++ b.block_buffer;
  current_offset = (b.current_offset + length b.block_buffer) % 2 ^ 64;
  block_buffer = [];
}

-- Add in the part behind its guard: the record joins the block, and a full block is flushed.
unfoldable pub add_record : SsTableBuilder → Bytes → Bytes → ℕ → SsTableBuilder
add_record b key value type_ =
    let b' = record b {
      block_buffer = b.block_buffer ++ record_bytes key value type_;
      last_key_in_block = key;
    } in
    if leb b'.block_size (length b'.block_buffer) then flush_block b' else b'

unfoldable pub add : SsTableBuilder → Bytes → Bytes → ℕ → SsTableBuilder
add b key value type_ = if b.finished then b else add_record b key value type_

-- The older interface.
unfoldable pub add_value : SsTableBuilder → Bytes → Bytes → SsTableBuilder
add_value b key value = add b key value type_value

unfoldable pub file_size : SsTableBuilder → ℕ
file_size b = b.current_offset

-- One round of the loop of Finish over the index entries.
unfoldable pub write_index_entry : SsTableBuilder → IndexEntry → SsTableBuilder
write_index_entry b e = record b {
  file = b.file ++ index_bytes e;
  current_offset = (b.current_offset + (4 + length e.max_key % 2 ^ 32 + 8 + 8)) % 2 ^ 64;
}

unfoldable pub write_index : SsTableBuilder → List IndexEntry → SsTableBuilder
write_index b [] = b
write_index b (e ∷ es) = write_index (write_index_entry b e) es

-- Finish behind the test for an empty table: index and footer.
unfoldable pub finish_table : SsTableBuilder → SsTableBuilder
finish_table b =
    let index_offset = b.current_offset in
    let b' = write_index b b.index_entries in
    let footer : Footer = record {
      index_offset = index_offset;
      index_size = (b'.current_offset + 2 ^ 64 - index_offset) % 2 ^ 64;
      magic = magic_number;
    } in
    record b' { file = b'.file ++ footer_bytes footer; finished = true }

unfoldable pub finish : SsTableBuilder → SsTableBuilder × Bool
finish b =
    if b.finished
    then (b, false)
    else let b' = if is_empty b.block_buffer then b else flush_block b in
      if is_empty b'.index_entries
      then (record b' { finished = true }, false)
      else (finish_table b', true)

-- The use of the class: a new builder, Add for each record, Finish.
unfoldable pub add_all : SsTableBuilder → List (Bytes × Bytes × ℕ) → SsTableBuilder
add_all b [] = b
add_all b ((key, value, type_) ∷ es) = add_all (add b key value type_) es

unfoldable pub build : ℕ → List (Bytes × Bytes × ℕ) → SsTableBuilder × Bool
build block_size es = finish (add_all (new_builder block_size) es)
