-- ===== src/Engine/Names.antt =====
-- GetWalPath and GetSstPath, and what LoadExistingSSTables and RecoverAllWals read from file names:
-- std::setw, std::filesystem::path, std::stoull and std::sort as the engine uses them.
use cpp_kvstore.Common.{ℕ, zero, suc, ◌+◌, ◌-◌, ◌*◌, ◌/◌, ◌%◌, ◌^◌, Bool, ◌&&◌, ◌||◌}
use cpp_kvstore.Common.{List, [], ◌∷◌, ◌++◌, Option, none, some}
use cpp_kvstore.Common.{if◌then◌else◌, ltb, leb, ◌==◌, length, replicate, take}
use cpp_kvstore.Common.Bytes.{Bytes}
use cpp_kvstore.Common.Lex.{bytes_lt, bytes_eq}

-- A size_t has at most twenty digits.
unfoldable pub digits : ℕ → ℕ → Bytes
digits zero n = []
digits (suc fuel) n =
    let rest = digits fuel (n / 10) in
    if ltb n 10 then (48 + n) ∷ [] else rest ++ (48 + n % 10) ∷ []

-- << std::setw(6) << std::setfill('0') << n
unfoldable pub padded : ℕ → Bytes
unfolding digits
padded n = replicate (6 - length (digits 20 n)) b'0' ++ digits 20 n

unfoldable pub wal_path : Bytes → ℕ → Bytes
unfolding padded
wal_path db_path seq_num =
    db_path
    ++ ((b'/' ∷ b'w' ∷ b'a' ∷ b'l' ∷ b'_' ∷ [])
        ++ (padded seq_num ++ (b'.' ∷ b'l' ∷ b'o' ∷ b'g' ∷ [])))

unfoldable pub sst_path : Bytes → ℕ → Bytes
unfolding padded
sst_path db_path seq_num = db_path ++ (b'/' ∷ padded seq_num ++ (b'.' ∷ b's' ∷ b's' ∷ b't' ∷ []))

-- path::filename: what is behind the last slash.
unfoldable pub filename : Bytes → Bytes
filename path = after path path
  where
    after : Bytes → Bytes → Bytes
    after name [] = name
    after name (c ∷ cs) = after (if c == b'/' then cs else name) cs

-- The part in front of the last dot, and the part from it on.
unfoldable pub split_dot : Bytes → Option (Bytes × Bytes)
split_dot [] = none
split_dot (c ∷ cs) = elim (split_dot cs) [
  | some (front, back) ↦ some (c ∷ front, back)
  | none ↦ if c == b'.' then some ([], c ∷ cs) else none
]

-- path::stem and path::extension of a file name; a name that begins with its only dot has none.
unfoldable pub stem_extension : Bytes → Bytes × Bytes
unfolding split_dot
stem_extension name =
    if bytes_eq name (b'.' ∷ b'.' ∷ []) then (name, []) else elim (split_dot name) [
      | none ↦ (name, [])
      | some (front, back) ↦ if length front == 0 then (name, []) else (front, back)
    ]

unfoldable pub extension : Bytes → Bytes
unfolding stem_extension filename
extension path = (stem_extension (filename path)).1

unfoldable pub stem : Bytes → Bytes
unfolding stem_extension filename
stem path = (stem_extension (filename path)).0

abbrev is_digit : ℕ → Bool
is_digit c = leb b'0' c && leb c b'9'

-- isspace
abbrev is_space : ℕ → Bool
is_space c = c == 32 || (leb 9 c && leb c 13)

unfoldable pub read_digits : ℕ → Bytes → ℕ
read_digits acc [] = acc
read_digits acc (c ∷ cs) =
    let rest = read_digits (acc * 10 + (c - 48)) cs in if is_digit c then rest else acc

-- Digits at the front; no digit and a value out of range are exceptions.
unfoldable pub digits_value : Bytes → Option ℕ
unfolding read_digits
digits_value [] = none
digits_value (c ∷ cs) =
    let n = read_digits 0 (c ∷ cs) in if is_digit c && ltb n (2 ^ 64) then some n else none

-- std::stoull; `none` is an exception.
unfoldable pub stoull : Bytes → Option ℕ
unfolding digits_value
stoull [] = none
stoull (c ∷ cs) =
    let rest = stoull cs in
    if is_space c
    then rest
    else if c == b'+'
    then digits_value cs
    else if c == b'-'
    then (elim (digits_value cs) [ none ↦ none | some n ↦ some ((2 ^ 64 - n) % 2 ^ 64) ])
    else digits_value (c ∷ cs)

-- std::sort of strings
unfoldable pub insert_name : Bytes → List Bytes → List Bytes
insert_name x [] = x ∷ []
insert_name x (y ∷ ys) =
    let rest = insert_name x ys in if bytes_lt y x then y ∷ rest else x ∷ y ∷ ys

unfoldable pub sort_names : List Bytes → List Bytes
unfolding insert_name
sort_names [] = []
sort_names (x ∷ xs) = insert_name x (sort_names xs)

-- filename().string().rfind("wal_", 0) == 0
unfoldable pub is_wal_name : Bytes → Bool
unfolding filename
is_wal_name path = bytes_eq (take 4 (filename path)) (b'w' ∷ b'a' ∷ b'l' ∷ b'_' ∷ [])
