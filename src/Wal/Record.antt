-- ===== src/Wal/Record.antt =====
-- LogHeader, ParsedLogRecord, CalculateChecksum and the bytes that Append writes.
use Prim.Native.Nat.{bit_xor}
use cpp_kvstore.Common.{ℕ, Bool, ◌%◌, ◌^◌, ◌++◌, length, if◌then◌else◌, ◌==◌}
use cpp_kvstore.Common.Bytes.{Bytes, fixed}
use cpp_kvstore.Wal.Crc.{compute_crc32}

-- OperationType is a uint8_t: a byte read from a file may be neither of these two.
abbrev pub put_op : ℕ
put_op = 1

abbrev pub erase_op : ℕ
erase_op = 2

pub record LogHeader : Type 0 where
  pub checksum : ℕ
  pub key_len : ℕ
  pub value_len : ℕ
  pub op_type : ℕ

pub record ParsedLogRecord : Type 0 where
  pub op : ℕ
  pub key : Bytes
  pub value : Bytes

-- The packed struct in memory: 4 + 4 + 4 + 1 bytes.
unfoldable pub header_bytes : LogHeader → Bytes
header_bytes h =
    fixed 4 h.checksum ++ (fixed 4 h.key_len ++ (fixed 4 h.value_len ++ fixed 1 h.op_type))

unfoldable pub is_empty : Bytes → Bool
is_empty s = length s == 0

-- The header is a copy, so its checksum field is zeroed here only.
unfoldable pub calculate_checksum : LogHeader → Bytes → Bytes → ℕ
unfolding is_empty header_bytes
calculate_checksum header key value =
    let crc = compute_crc32 (header_bytes (record header { checksum = 0 })) 0xFFFFFFFF in
    let crc' = if is_empty key then crc else compute_crc32 key crc in
    let crc'' = if is_empty value then crc' else compute_crc32 value crc' in
    bit_xor crc'' 0xFFFFFFFF

-- The header that Append fills in; the lengths are cast to uint32_t.
unfoldable pub header_of : ℕ → Bytes → Bytes → LogHeader
unfolding calculate_checksum
header_of op key value =
    let header : LogHeader = record {
      checksum = 0;
      key_len = length key % 2 ^ 32;
      value_len = length value % 2 ^ 32;
      op_type = op;
    } in
    record header { checksum = calculate_checksum header key value }

-- Everything that one call of Append writes.
unfoldable pub record_bytes : ℕ → Bytes → Bytes → Bytes
unfolding header_of
record_bytes op key value = header_bytes (header_of op key value) ++ (key ++ value)
