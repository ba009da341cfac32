-- ===== src/SsTable/Format.antt =====
-- The bytes of an SSTable: records, index entries and the footer.
use cpp_kvstore.Common.{ℕ, ◌%◌, ◌^◌, ◌++◌, if◌then◌else◌, ◌==◌, length, take}
use cpp_kvstore.Common.Bytes.{Bytes, fixed}

-- ValueType is a uint8_t: a byte read from a file may be neither of these two.
abbrev pub type_deletion : ℕ
type_deletion = 0

abbrev pub type_value : ℕ
type_value = 1

abbrev pub magic_number : ℕ
magic_number = 0xdb4775248b80fb57

pub record Footer : Type 0 where
  pub index_offset : ℕ
  pub index_size : ℕ
  pub magic : ℕ

pub record IndexEntry : Type 0 where
  pub max_key : Bytes
  pub offset : ℕ
  pub size : ℕ

-- A tombstone has no value.
unfoldable pub stored_len : Bytes → ℕ → ℕ
stored_len value type_ = if type_ == type_deletion then 0 else length value % 2 ^ 32

-- What Add appends to the block: [type 1][key_len 4][val_len 4][key][value]
unfoldable pub record_bytes : Bytes → Bytes → ℕ → Bytes
unfolding stored_len
record_bytes key value type_ =
    fixed 1 type_
    ++ (fixed 4 (length key % 2 ^ 32)
        ++ (fixed 4 (stored_len value type_) ++ (key ++ take (stored_len value type_) value)))

-- What Finish writes for one index entry: [key_len 4][key][offset 8][size 8]
unfoldable pub index_bytes : IndexEntry → Bytes
index_bytes e =
    let k_len = length e.max_key % 2 ^ 32 in
    fixed 4 k_len ++ (take k_len e.max_key ++ (fixed 8 e.offset ++ fixed 8 e.size))

unfoldable pub footer_bytes : Footer → Bytes
footer_bytes f = fixed 8 f.index_offset ++ (fixed 8 f.index_size ++ fixed 8 f.magic)

abbrev pub footer_size : ℕ
footer_size = 24
