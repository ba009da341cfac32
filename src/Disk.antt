-- ===== src/Disk.antt =====
-- The files of the data directory, as std::ofstream, std::ifstream, pread and
-- std::filesystem::remove of the sources see them. A path is a byte string. Every write reaches the
-- file: full disks, permissions and the page cache are not modelled.
use cpp_kvstore.Common.{
  ◌≡◌, ◌≢◌, arith, Bool, true, false, Option, none, some, if◌then◌else◌, ◌++◌, [],
}
use cpp_kvstore.Common.Bytes.{Bytes}
use cpp_kvstore.Common.Lex.{bytes_eq, bytes_eq_refl, bytes_eq_ne}

pub record Disk : Type 0 where
  pub file : Bytes → Option Bytes

-- Sets the content of one file, or removes it.
unfoldable pub update : Disk → Bytes → Option Bytes → Disk
update d path c = record { file = λ p. if bytes_eq p path then c else d.file p }

-- std::ios::out | std::ios::app: creates the file if it is not there.
unfoldable pub create_file : Disk → Bytes → Disk
unfolding update
create_file d path = elim (d.file path) [ none ↦ update d path (some []) | some c ↦ d ]

-- A write at the end of a file that stands open; what is written to an unlinked file is lost.
unfoldable pub append_file : Disk → Bytes → Bytes → Disk
unfolding update
append_file d path bytes = elim (d.file path) [
  | none ↦ d
  | some c ↦ update d path (some (c ++ bytes))
]

-- std::ofstream: the file that it stands open on, if any, and whether its last step succeeded.
pub record OutStream : Type 0 where
  pub target : Option Bytes
  pub good : Bool

abbrev pub closed_stream : OutStream
closed_stream = record { target = none; good = true }

unfoldable pub is_open : OutStream → Bool
is_open o = elim o.target [ none ↦ false | some path ↦ true ]

-- open with std::ios::app: a stream that stands open already keeps its file, and fails.
unfoldable pub open_append : Disk → OutStream → Bytes → Disk × OutStream
unfolding create_file
open_append d o path = elim o.target [
  | none ↦ (create_file d path, record { target = some path; good = true })
  | some old ↦ (d, record o { good = false })
]

-- close: fails on a stream that is not open.
unfoldable pub close_stream : OutStream → OutStream
close_stream o = elim o.target [
  | none ↦ record o { good = false }
  | some old ↦ record o { target = none }
]

-- A failed stream writes nothing.
unfoldable pub write_stream : Disk → OutStream → Bytes → Disk
unfolding append_file
write_stream d o bytes = elim o.target [
  | none ↦ d
  | some path ↦ if o.good then append_file d path bytes else d
]

-- std::filesystem::remove: says whether there was a file.
unfoldable pub remove_file : Disk → Bytes → Disk × Bool
unfolding update
remove_file d path = elim (d.file path) [ none ↦ (d, false) | some c ↦ (update d path none, true) ]

module _ (d : Disk) (path : Bytes) where
  pub file-create_file :
      (create_file d path).file path ≡ some (elim (d.file path) [ none ↦ [] | some c ↦ c ])
  unfolding create_file
  file-create_file = ground (arith, bytes_eq_refl path)

  pub file-create_file_ne : (p : Bytes) → p ≢ path → (create_file d path).file p ≡ d.file p
  unfolding create_file
  file-create_file_ne p h = ground (arith, bytes_eq_ne p path h)

  pub file-append_file :
      (bytes : Bytes) {c : Bytes}
      → d.file path ≡ some c
      → (append_file d path bytes).file path ≡ some (c ++ bytes)
  unfolding append_file
  file-append_file bytes e = ground (arith, bytes_eq_refl path)

  pub file-append_file_ne :
      (bytes p : Bytes) → p ≢ path → (append_file d path bytes).file p ≡ d.file p
  unfolding append_file
  file-append_file_ne bytes p h = ground (arith, bytes_eq_ne p path h)

  pub file-remove_file : (remove_file d path).0.file path ≡ none
  unfolding remove_file
  file-remove_file = ground (arith, bytes_eq_refl path)

  pub file-remove_file_ne : (p : Bytes) → p ≢ path → (remove_file d path).0.file p ≡ d.file p
  unfolding remove_file
  file-remove_file_ne p h = ground (arith, bytes_eq_ne p path h)
