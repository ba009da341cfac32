-- ===== src/Wal/Recover.antt =====
-- WalLogger::Recover. The input stream is the part of the file that is still to be read: a read
-- that comes up short takes what there is and puts the stream into a failed state, in which every
-- later read takes nothing and `peek` answers EOF, as at the end of the file.
pub mod Rounds
pub mod RoundTrip
pub mod Reads
pub mod Found
pub mod Sound
use cpp_kvstore.Common.{
  ℕ, zero, suc, ◌+◌, ◌-◌, ◌≤◌, ◌<◌, ◌≡◌, List, [], ◌∷◌, ◌++◌, Bool, true, false,
}
use cpp_kvstore.Common.{length, take, drop, replicate, if◌then◌else◌, ltb, ◌==◌}
use cpp_kvstore.Common.{Run, done, fault, stuck, ◌>>=◌}
use cpp_kvstore.Common.Bytes.{Bytes, fixed_value}
use cpp_kvstore.Wal.Record.{LogHeader, ParsedLogRecord, calculate_checksum}

abbrev pub header_size : ℕ
header_size = 13

-- memcpy of a packed header
unfoldable pub parse_header : Bytes → LogHeader
parse_header bytes = record {
  checksum = fixed_value (take 4 bytes);
  key_len = fixed_value (take 4 (drop 4 bytes));
  value_len = fixed_value (take 4 (drop 8 bytes));
  op_type = fixed_value (take 1 (drop 12 bytes));
}

-- A string of `n` NULs, over which `n` bytes are read from the stream.
unfoldable pub read_string : ℕ → Bytes → Bytes
read_string n stream = take n stream ++ replicate (n - length stream) 0

-- What one round of the loop does: end the recovery, or push a record and go on.
pub data Round : Type 0 where
  stop : Round
  push : ParsedLogRecord → Bytes → Round

-- The part of a round behind the header: read both strings, and compare the checksums.
unfoldable pub recover_payload : LogHeader → Bytes → Round
recover_payload header stream =
    let key = read_string header.key_len stream in
    let stream' = drop header.key_len stream in
    let value = read_string header.value_len stream' in
    if header.checksum == calculate_checksum header key value
    then push (record { op = header.op_type; key = key; value = value })
        (drop header.value_len stream')
    else stop

unfoldable pub recover_round : Bytes → Round
recover_round stream =
    if ltb (length stream) header_size
    then stop
    else recover_payload (parse_header (take header_size stream)) (drop header_size stream)

-- The loop, on a bound for its rounds.
unfoldable pub recover_loop : ℕ → Bytes → Run (List ParsedLogRecord)
recover_loop fuel [] = done []
recover_loop zero (b ∷ stream) = stuck
recover_loop (suc fuel) (b ∷ stream) = elim (recover_round (b ∷ stream)) [
  | stop ↦ done []
  | push r rest ↦ recover_loop fuel rest >>= λ rs. done (r ∷ rs)
]

-- Each record takes a header at least, so the file's length bounds the rounds.
unfoldable pub recover : Bytes → Run (List ParsedLogRecord)
unfolding recover_loop
recover file = recover_loop (length file) file
