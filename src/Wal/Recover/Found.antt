-- ===== src/Wal/Recover/Found.antt =====
-- One round of WalLogger::Recover on arbitrary bytes: what it pushes stands at their front.
use cpp_kvstore.Common.{ℕ, ◌%◌, ◌^◌, ◌<◌, ◌≡◌, refl, sym, ap, ◌∙◌, arith}
use cpp_kvstore.Common.{[], ◌++◌, length, take, drop, All, append_assoc}
use cpp_kvstore.Common.{Bool-cases, ltb, ◌==◌, ==_iff, inl, inr, ◌⊎◌}
use cpp_kvstore.Common.{length-take, take-append-drop, ltb→le}
use cpp_kvstore.Common.Bytes.{Bytes, IsByte}
use cpp_kvstore.Wal.Record.{
  LogHeader, ParsedLogRecord, header_bytes, header_of, calculate_checksum, record_bytes,
}
use cpp_kvstore.Wal.Recover.{header_size, push, parse_header, read_string}
use cpp_kvstore.Wal.Recover.{recover_payload, recover_round}
use cpp_kvstore.Wal.Recover.Rounds.{Fits, bytes_of}
use cpp_kvstore.Wal.Recover.Reads.{
  All-take, All-drop, nuls, header_bytes-parse_header, parse_header_fits, length-read_string,
  missed, strings-drop, missed_at_end,
}

-- What a round that goes on has found at the front of the stream.
pub record Found (s : Bytes) (r : ParsedLogRecord) (rest : Bytes) : Type 0 where
  pub missing : ℕ
  pub there : s ++ nuls missing ≡ bytes_of r ++ rest
  pub fits : Fits r
  pub at_end : (missing ≡ 0) ⊎ (rest ≡ [])
  pub bytes_rest : All IsByte rest

-- A header that holds the checksum of itself and two strings of its lengths is that of Append.
header-header_of :
    (h : LogHeader) (key value : Bytes)
    → length key ≡ h.key_len
    → length value ≡ h.value_len
    → h.key_len < 2 ^ 32
    → h.value_len < 2 ^ 32
    → h.checksum ≡ calculate_checksum h key value
    → header_of h.op_type key value ≡ h
unfolding header_of calculate_checksum
header-header_of h key value ek ev lk lv sum =
    let k : length key % 2 ^ 32 ≡ h.key_len = omega arith in
    let v : length value % 2 ^ 32 ≡ h.value_len = omega arith in rw (k, v, ← sum) refl

-- A payload that is accepted behind the header `h`.
recover_payload_push :
    (h : LogHeader) (s : Bytes) (r : ParsedLogRecord) (rest : Bytes)
    → recover_payload h s ≡ push r rest
    → let key = read_string h.key_len s in
      let value = read_string h.value_len (drop h.key_len s) in
      (h.checksum ≡ calculate_checksum h key value)
      × (r ≡ record { op = h.op_type; key = key; value = value })
      × (rest ≡ drop h.value_len (drop h.key_len s))
unfolding recover_payload
recover_payload_push h s r rest e =
    let key = read_string h.key_len s in
    let value = read_string h.value_len (drop h.key_len s) in
    elim (Bool-cases (h.checksum == calculate_checksum h key value)) [
      | inl same ↦
          let f = rw same at e in
          ((==_iff h.checksum (calculate_checksum h key value)).0 same, cc f, cc f)
      | inr other ↦ absurd (cc (rw other at e))
    ]

recover_payload-Found :
    (t s : Bytes) (r : ParsedLogRecord) (rest : Bytes)
    → All IsByte t
    → All IsByte s
    → length t ≡ header_size
    → recover_payload (parse_header t) s ≡ push r rest
    → Found (t ++ s) r rest
unfolding record_bytes
recover_payload-Found t s r rest bt bs size e =
    let h = parse_header t in
    let key = read_string h.key_len s in
    let value = read_string h.value_len (drop h.key_len s) in
    let (sum, is_r, is_rest) = recover_payload_push h s r rest e in
    let (key_lt, value_lt, op_lt) = parse_header_fits t bt size in
    let ek : length key ≡ h.key_len = length-read_string h.key_len s in
    let ev : length value ≡ h.value_len = length-read_string h.value_len (drop h.key_len s) in
    let head : header_bytes (header_of h.op_type key value) ≡ t =
      ap header_bytes (header-header_of h key value ek ev key_lt value_lt sum)
      ∙ header_bytes-parse_header t bt size in
    let found : Found (t ++ s) (record { op = h.op_type; key = key; value = value })
        (drop h.value_len (drop h.key_len s)) =
      record {
        missing = missed h.key_len h.value_len s;
        there =
            append_assoc t s (nuls (missed h.key_len h.value_len s))
            ∙ ap (λ l. t ++ l) (sym (strings-drop h.key_len h.value_len s))
            ∙ ap (λ l. t ++ l) (sym (append_assoc key value (drop h.value_len (drop h.key_len s))))
            ∙ sym (append_assoc t (key ++ value) (drop h.value_len (drop h.key_len s)))
            ∙ ap (λ l. (l ++ (key ++ value)) ++ drop h.value_len (drop h.key_len s)) (sym head);
        fits = record {
          key_fits = omega (arith, ek, key_lt);
          value_fits = omega (arith, ev, value_lt);
          op_fits = op_lt;
        };
        at_end = missed_at_end h.key_len h.value_len s;
        bytes_rest = All-drop h.value_len (drop h.key_len s) (All-drop h.key_len s bs);
      } in
    rw (is_r, is_rest) found

pub recover_round-Found :
    (s : Bytes) (r : ParsedLogRecord) (rest : Bytes)
    → All IsByte s
    → recover_round s ≡ push r rest
    → Found s r rest
unfolding recover_round
recover_round-Found s r rest bytes e = elim (Bool-cases (ltb (length s) header_size)) [
  | inl short ↦ absurd (cc (rw short at e))
  | inr long ↦
      let found =
        recover_payload-Found (take header_size s) (drop header_size s) r rest
          (All-take header_size s bytes) (All-drop header_size s bytes)
          (omega (arith, length-take header_size s, ltb→le _ _ long)) (rw long at e) in
      rw (take-append-drop header_size s) at found
]
