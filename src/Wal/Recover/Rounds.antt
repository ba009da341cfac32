-- ===== src/Wal/Recover/Rounds.antt =====
-- One round of the recovery, and the loop's bound.
use cpp_kvstore.Common.{◌-◌, ◌^◌, ◌<◌, ◌≡◌, refl, sym, ap, ◌∙◌, arith}
use cpp_kvstore.Common.{◌++◌, length, ltb}
use cpp_kvstore.Common.{length-append, take-append}
use cpp_kvstore.Common.{drop-append, ==_refl, le→ltb, false, append-nil, append_assoc}
use cpp_kvstore.Common.Bits.{bit_xor-lt}
use cpp_kvstore.Common.Bytes.{Bytes, fixed_value-fixed}
use cpp_kvstore.Wal.Crc.{compute_crc32}
use cpp_kvstore.Wal.Crc.Bounds.{compute_crc32-lt}
use cpp_kvstore.Wal.Record.{LogHeader, ParsedLogRecord, header_bytes, calculate_checksum}
use cpp_kvstore.Wal.Record.{header_of, record_bytes}
use cpp_kvstore.Wal.Recover.{header_size, parse_header, read_string, push}
use cpp_kvstore.Wal.Recover.{recover_payload, recover_round}

pub calculate_checksum-lt :
    (h : LogHeader) (key value : Bytes) → calculate_checksum h key value < 2 ^ 32
unfolding calculate_checksum
calculate_checksum-lt h key value =
    let start = header_bytes (record h { checksum = 0 }) in
    let crc = compute_crc32 start 0xFFFFFFFF in
    let l = compute_crc32-lt start 0xFFFFFFFF (omega arith) in
    bit_xor-lt 32 _ _
      (ground (
        arith,
        l,
        compute_crc32-lt key crc,
        compute_crc32-lt value crc,
        compute_crc32-lt value (compute_crc32 key crc),
      ))
      (omega arith)

-- A header whose fields fit is read back.
record HeaderFits (h : LogHeader) : Type 0 where
  checksum : h.checksum < 2 ^ 32
  key_len : h.key_len < 2 ^ 32
  value_len : h.value_len < 2 ^ 32
  op_type : h.op_type < 256

parse_header-header_bytes : (h : LogHeader) → HeaderFits h → parse_header (header_bytes h) ≡ h
unfolding parse_header header_bytes
parse_header-header_bytes h f = λ i. record {
  checksum = fixed_value-fixed 4 h.checksum (omega arith) i;
  key_len = fixed_value-fixed 4 h.key_len (omega arith) i;
  value_len = fixed_value-fixed 4 h.value_len (omega arith) i;
  op_type = fixed_value-fixed 1 h.op_type (omega arith) i;
}

length-header_bytes : (h : LogHeader) → length (header_bytes h) ≡ header_size
unfolding header_bytes
length-header_bytes h = refl

-- A string that is there in full is read as it is.
read_string-append : (s rest : Bytes) → read_string (length s) (s ++ rest) ≡ s
unfolding read_string
read_string-append s rest =
    let none_left : length s - length (s ++ rest) ≡ 0 = omega (arith, length-append s rest) in
    rw (take-append (length s) s rest refl, none_left) (append-nil s)

-- A record that Append can have written: the sizes fit a uint32_t.
pub record Fits (r : ParsedLogRecord) : Type 0 where
  pub key_fits : length r.key < 2 ^ 32
  pub value_fits : length r.value < 2 ^ 32
  pub op_fits : r.op < 256

abbrev pub bytes_of : ParsedLogRecord → Bytes
bytes_of r = record_bytes r.op r.key r.value

module _ (r : ParsedLogRecord) (f : Fits r) where
  -- the header that stands in front of the record
  abbrev head : LogHeader
  head = header_of r.op r.key r.value

  header_of_lens : (head.key_len ≡ length r.key) × (head.value_len ≡ length r.value)
  unfolding header_of
  header_of_lens = omega arith

  header_of_op : head.op_type ≡ r.op
  unfolding header_of
  header_of_op = refl

  header_of_checksum : calculate_checksum head r.key r.value ≡ head.checksum
  unfolding header_of calculate_checksum
  header_of_checksum = refl

  header_of-HeaderFits : HeaderFits head
  unfolding header_of
  header_of-HeaderFits =
      omega (arith, calculate_checksum-lt (record head { checksum = 0 }) r.key r.value)

  split_record :
      (rest : Bytes) → bytes_of r ++ rest ≡ header_bytes head ++ (r.key ++ (r.value ++ rest))
  unfolding record_bytes
  split_record rest =
      append_assoc (header_bytes head) (r.key ++ r.value) rest
      ∙ ap (λ s. header_bytes head ++ s) (append_assoc r.key r.value rest)

  recover_payload-head :
      (rest : Bytes) → recover_payload head (r.key ++ (r.value ++ rest)) ≡ push r rest
  unfolding recover_payload
  recover_payload-head rest = simp (
    header_of_lens.0,
    header_of_lens.1,
    read_string-append r.key (r.value ++ rest),
    drop-append (length r.key) r.key (r.value ++ rest) refl,
    read_string-append r.value rest,
    drop-append (length r.value) r.value rest refl,
    header_of_checksum,
    ==_refl head.checksum,
    header_of_op,
  )

  -- A round on a record that was written whole gives it back, whatever follows.
  pub recover_round-bytes_of : (rest : Bytes) → recover_round (bytes_of r ++ rest) ≡ push r rest
  unfolding recover_round
  recover_round-bytes_of rest =
      let tail : Bytes = r.key ++ (r.value ++ rest) in
      let size = length-header_bytes head in
      let long : ltb (length (header_bytes head ++ tail)) header_size ≡ false =
        le→ltb _ _ (omega (arith, length-append (header_bytes head) tail, size)) in
      rw
        (
          split_record rest,
          long,
          take-append header_size (header_bytes head) tail (sym size),
          drop-append header_size (header_bytes head) tail (sym size),
          parse_header-header_bytes head header_of-HeaderFits,
        )
        (recover_payload-head rest)
