-- ===== src/Wal/Logger.antt =====
-- The class WalLogger: the path that it was given, and its stream. Every write is
-- flushed at once, so the stream has no buffer of its own here.
use cpp_kvstore.Common.{
  ℕ, ◌≡◌, ◌≢◌, refl, sym, ap, ◌∙◌, Bool, true, false, none, some, if◌then◌else◌,
}
use cpp_kvstore.Common.{List, [], ◌∷◌, ◌++◌, Run, done, All, append_assoc, append-nil, arith}
use cpp_kvstore.Common.Bytes.{Bytes}
use cpp_kvstore.Disk.{Disk, create_file, remove_file, OutStream, closed_stream, is_open}
use cpp_kvstore.Disk.{open_append, close_stream, write_stream}
use cpp_kvstore.Disk.{file-create_file, file-create_file_ne, file-append_file, file-append_file_ne}
use cpp_kvstore.Wal.Record.{ParsedLogRecord, record_bytes}
use cpp_kvstore.Wal.Recover.{recover}
use cpp_kvstore.Wal.Recover.Rounds.{Fits, bytes_of}
use cpp_kvstore.Wal.Recover.RoundTrip.{log_bytes, log_bytes-append, recover-log_bytes}

pub record WalLogger : Type 0 where
  pub path : Bytes
  pub stream : OutStream

abbrev pub closed_logger : WalLogger
closed_logger = record { path = []; stream = closed_stream }

unfoldable pub close_wal : WalLogger → WalLogger
unfolding is_open close_stream
close_wal w = if is_open w.stream then record w { stream = close_stream w.stream } else w

unfoldable pub open_wal : Disk → WalLogger → Bytes → Disk × WalLogger × Bool
unfolding close_wal open_append is_open
open_wal d w log_path =
    let w' = close_wal w in
    let (d', stream) = open_append d w'.stream log_path in
    (d', record { path = log_path; stream = stream }, is_open stream)

unfoldable pub append : Disk → WalLogger → ℕ → Bytes → Bytes → Disk × Bool
unfolding is_open write_stream
append d w op key value =
    if is_open w.stream
    then (write_stream d w.stream (record_bytes op key value), w.stream.good)
    else (d, false)

-- A missing file means a fresh start.
unfoldable pub recover_wal : Disk → WalLogger → Run (List ParsedLogRecord)
recover_wal d w = elim (d.file w.path) [ none ↦ done [] | some content ↦ recover content ]

-- `flush` only, and the stream holds nothing back: no change.
unfoldable pub sync : Disk → WalLogger → Disk
sync d w = d

unfoldable pub remove_wal_file : Disk → Bytes → Disk × Bool
unfolding remove_file
remove_wal_file d log_path = remove_file d log_path

-- A series of calls of Append.
unfoldable pub append_all : Disk → WalLogger → List ParsedLogRecord → Disk
append_all d w [] = d
append_all d w (r ∷ rs) = append_all (append d w r.op r.key r.value).0 w rs

-- The stream of the logger stands open on the logger's own path, and no step on it failed.
abbrev pub IsOpen : WalLogger → Type 0
IsOpen w = w.stream ≡ record { target = some w.path; good = true }

module _ (w : WalLogger) (opened : IsOpen w) where
  pub file-append :
      (d : Disk) (r : ParsedLogRecord) {content : Bytes}
      → d.file w.path ≡ some content
      → (append d w r.op r.key r.value).0.file w.path ≡ some (content ++ bytes_of r)
  unfolding append
  file-append d r e = rw opened (file-append_file d w.path (bytes_of r) e)

  -- Each call puts its record behind what the file held.
  pub file-append_all :
      (d : Disk) (rs : List ParsedLogRecord) {content : Bytes}
      → d.file w.path ≡ some content
      → (append_all d w rs).file w.path ≡ some (content ++ log_bytes rs)
  unfolding append_all
  file-append_all d [] {content} e = e ∙ ap some (sym (append-nil content))
  file-append_all d (r ∷ rs) {content} e =
      file-append_all (append d w r.op r.key r.value).0 rs (file-append d r e)
      ∙ ap some (append_assoc content (bytes_of r) (log_bytes rs))

  -- Records appended to a log of whole records, through a logger whose stream stands open on that
  -- log, are recovered behind the old ones, in the order of the calls, if each of all has a key
  -- and a value below 2 ^ 32 bytes and an operation below 256.
  pub recover_wal-append_all :
      (d : Disk) (rs ts : List ParsedLogRecord)
      → d.file w.path ≡ some (log_bytes rs)
      → All Fits (rs ++ ts)
      → recover_wal (append_all d w ts) w ≡ done (rs ++ ts)
  unfolding recover_wal
  recover_wal-append_all d rs ts e f =
      let content = file-append_all d ts e ∙ ap some (sym (log_bytes-append rs ts)) in
      rw (content, recover_wal) (recover-log_bytes (rs ++ ts) f)

-- Close leaves no file open.
close_wal-target : (w : WalLogger) → (close_wal w).stream.target ≡ none
unfolding close_wal
close_wal-target w = ground arith

open_append-closed :
    (d : Disk) (o : OutStream) (path : Bytes)
    → o.target ≡ none
    → open_append d o path ≡ (create_file d path, record { target = some path; good = true })
unfolding open_append
open_append-closed d o path e = rw (e, open_append) refl

pub open_wal-closed :
    (d : Disk) (w : WalLogger) (path : Bytes)
    → open_wal d w path ≡ (
      create_file d path,
      record { path = path; stream = record { target = some path; good = true } },
      true,
    )
unfolding open_wal
open_wal-closed d w path =
    rw (open_append-closed d (close_wal w).stream path (close_wal-target w), open_wal) refl

-- Each call leaves the other files as they are.
file-append_all_ne :
    (w : WalLogger)
    → IsOpen w
    → (d : Disk) (rs : List ParsedLogRecord) (p : Bytes) → p ≢ w.path
    → (append_all d w rs).file p ≡ d.file p
unfolding append_all append
file-append_all_ne w opened d [] p ne = refl
file-append_all_ne w opened d (r ∷ rs) p ne =
    file-append_all_ne w opened (append d w r.op r.key r.value).0 rs p ne
    ∙ rw (opened, append) (file-append_file_ne d w.path (bytes_of r) p ne)

-- Whatever file the logger wrote before, Open with a path succeeds, and the records appended then
-- stand behind what that file held, or in a new file if there was none; no other file changes.
pub append_all-open_wal :
    (d : Disk) (w : WalLogger) (path : Bytes) (rs : List ParsedLogRecord)
    → let (d1, w', opened) = open_wal d w path in
      let d2 = append_all d1 w' rs in
      (opened ≡ true)
      × (d2.file path ≡ some ((elim (d.file path) [ none ↦ [] | some c ↦ c ]) ++ log_bytes rs))
      × ((p : Bytes) → p ≢ path → d2.file p ≡ d.file p)
append_all-open_wal d w path rs =
    let d1 = create_file d path in
    let w' : WalLogger = record {
      path = path;
      stream = record { target = some path; good = true };
    } in
    rw (open_wal-closed d w path) (
      refl,
      file-append_all w' refl d1 rs (file-create_file d path),
      λ p ne. file-append_all_ne w' refl d1 rs p ne ∙ file-create_file_ne d path p ne,
    )
