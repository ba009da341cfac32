-- ===== src/Tests/OfWal.antt =====
-- src/wal_logger.cpp on concrete logs.
use cpp_kvstore.Common.{◌≡◌, ◌≢◌, refl, arith, List, [], ◌∷◌, ◌++◌, true, some, take}
use cpp_kvstore.Common.{done, ◌>>=◌, All}
use cpp_kvstore.Common.Bytes.{Bytes}
use cpp_kvstore.Disk.{Disk}
use cpp_kvstore.Wal.Crc.{compute_crc32, crc32_table}
use cpp_kvstore.Wal.Record.{ParsedLogRecord, put_op, erase_op, record_bytes}
use cpp_kvstore.Wal.Recover.{recover, recover_round, recover_payload, parse_header, read_string}
use cpp_kvstore.Wal.Recover.Rounds.{Fits, bytes_of}
use cpp_kvstore.Wal.Recover.RoundTrip.{log_bytes, recover-append}
use cpp_kvstore.Wal.Logger.{WalLogger, append_all, recover_wal, open_wal}
use cpp_kvstore.Wal.Logger.{recover_wal-append_all, append_all-open_wal}
use cpp_kvstore.Wal.Recover.Sound.{recover_sound}
use cpp_kvstore.Common.{ℕ, replicate, ◌⊎◌}
use cpp_kvstore.Common.Bytes.{IsByte}

abbrev put_k : ParsedLogRecord
put_k = record { op = put_op; key = 107 ∷ []; value = 118 ∷ 49 ∷ [] }

abbrev erase_k : ParsedLogRecord
erase_k = record { op = erase_op; key = 107 ∷ []; value = [] }

abbrev both : List ParsedLogRecord
both = put_k ∷ erase_k ∷ []

-- a record that a crash cut off one byte before the end of its header
abbrev torn_header : Bytes
torn_header = take 12 (bytes_of put_k)

both-Fits : All Fits both
both-Fits = omega arith

recover-both : recover (log_bytes both) ≡ done both
unfolding recover recover_round recover_payload parse_header read_string record_bytes compute_crc32
    crc32_table
recover-both = refl

recover-append_example :
    recover (log_bytes both ++ torn_header) ≡ (recover torn_header >>= λ ts. done (both ++ ts))
recover-append_example = recover-append both torn_header both-Fits

-- A record stands whole in front of a header that is cut off.
cut_log-IsByte : All IsByte (log_bytes both ++ torn_header)
unfolding record_bytes compute_crc32 crc32_table
cut_log-IsByte = omega arith

recover_sound_example :
    (rs : List ParsedLogRecord) × (missing : ℕ) × (rest : Bytes) × (recover
        (log_bytes both ++ torn_header)
      ≡ done rs)
    × All Fits rs
    × ((log_bytes both ++ torn_header) ++ replicate missing 0 ≡ log_bytes rs ++ rest)
    × ((missing ≡ 0) ⊎ (rest ≡ []))
    × (recover rest ≡ done [])
recover_sound_example = recover_sound (log_bytes both ++ torn_header) cut_log-IsByte

-- A record whose last byte, a NUL, was cut off is recovered as whole.
recover-missing_nul :
    recover (take 14 (record_bytes put_op (107 ∷ []) (0 ∷ [])))
    ≡ done (record { op = put_op; key = 107 ∷ []; value = 0 ∷ [] } ∷ [])
unfolding recover recover_round recover_payload parse_header read_string record_bytes compute_crc32
    crc32_table
recover-missing_nul = refl

-- A record that was appended behind a header that is cut off is lost.
recover-behind_torn :
    recover (log_bytes (put_k ∷ []) ++ (torn_header ++ log_bytes (erase_k ∷ [])))
    ≡ done (put_k ∷ [])
unfolding recover recover_round recover_payload parse_header read_string record_bytes compute_crc32
    crc32_table
recover-behind_torn = refl

abbrev wal_path : Bytes
wal_path = 119 ∷ []

abbrev wal : WalLogger
wal = record { path = wal_path; stream = record { target = some wal_path; good = true } }

abbrev disk_with : Bytes → Disk
disk_with content = record { file = λ p. some content }

recover_wal-append_all_example :
    recover_wal (append_all (disk_with (log_bytes (put_k ∷ []))) wal (erase_k ∷ [])) wal ≡ done both
recover_wal-append_all_example =
    recover_wal-append_all wal refl (disk_with (log_bytes (put_k ∷ []))) (put_k ∷ []) (erase_k ∷ [])
      refl both-Fits

-- The logger still writes another file when it opens this one.
abbrev other_wal : WalLogger
other_wal = record { path = 120 ∷ []; stream = record { target = some (120 ∷ []); good = true } }

append_all-open_wal_example :
    let d = disk_with (log_bytes (put_k ∷ [])) in
    let (d1, w', opened) = open_wal d other_wal wal_path in
    let d2 = append_all d1 w' (erase_k ∷ []) in
    (opened ≡ true)
    × (d2.file wal_path ≡ some (log_bytes (put_k ∷ []) ++ log_bytes (erase_k ∷ [])))
    × ((p : Bytes) → p ≢ wal_path → d2.file p ≡ some (log_bytes (put_k ∷ [])))
append_all-open_wal_example =
    append_all-open_wal (disk_with (log_bytes (put_k ∷ []))) other_wal wal_path (erase_k ∷ [])
