-- ===== src/Slice.antt =====
-- include/slice.h: the class Slice, a view of `size_` bytes from the address `data_` on.
-- `mem` is what may be read from `data_` on, and so it may be longer than the view.
pub mod Laws
use cpp_kvstore.Common.{ℕ, ◌+◌, ◌-◌, ◌%◌, ◌^◌, ◌≤◌, ◌≡◌, Bool, true, false, List, [], Ordering}
use cpp_kvstore.Common.{
  ltb, leb, ◌==◌, if◌then◌else◌, length, take, drop, get_elem?, Option, some, none,
}
use cpp_kvstore.Common.{Run, done, fault, ◌>>=◌}
use cpp_kvstore.Common.Bytes.{Bytes, read_bytes}
use cpp_kvstore.Common.Lex.{lex, is_lt, is_eq, is_gt}

pub record Slice : Type 0 where
  pub mem : Bytes
  pub size : ℕ

-- Slice(), Slice(const std::string&)
abbrev pub empty_slice : Slice
empty_slice = record { mem = []; size = 0 }

unfoldable pub of_string : Bytes → Slice
of_string s = record { mem = s; size = length s }

abbrev pub IsValid : Slice → Type 0
IsValid s = s.size ≤ length s.mem

-- The bytes that a valid slice shows.
abbrev pub view : Slice → Bytes
view s = take s.size s.mem

-- memcmp reads `n` bytes on both sides; only the sign of its result is used.
unfoldable pub memcmp : Bytes → Bytes → ℕ → Run Ordering
memcmp a b n = read_bytes n a >>= λ p. read_bytes n b >>= λ q. done (lex p.0 q.0)

unfoldable pub is_empty : Slice → Bool
is_empty s = s.size == 0

-- operator[] reads past the view where the memory goes on: the build has no assertions (-DNDEBUG).
unfoldable pub byte_at : Slice → ℕ → Run ℕ
byte_at s n = elim (get_elem? s.mem n) [ none ↦ fault | some b ↦ done b ]

unfoldable pub clear : Slice → Slice
clear s = empty_slice

-- `size_ -= n` wraps where the slice is shorter than `n`: the build has no assertions.
unfoldable pub remove_prefix : Slice → ℕ → Slice
remove_prefix s n = record { mem = drop n s.mem; size = (s.size + (2 ^ 64 - n % 2 ^ 64)) % 2 ^ 64 }

unfoldable pub starts_with : Slice → Slice → Run Bool
unfolding memcmp
starts_with s x =
    if leb x.size s.size then (memcmp s.mem x.mem x.size >>= λ r. done (is_eq r)) else done false

unfoldable pub to_string : Slice → Run Bytes
to_string s = read_bytes s.size s.mem >>= λ p. done p.0

-- the lengths decide where memcmp finds no difference
abbrev pub by_size : ℕ → ℕ → Ordering → Ordering
by_size n m Ordering.eq =
    if ltb n m then Ordering.lt else if ltb m n then Ordering.gt else Ordering.eq
by_size n m Ordering.lt = Ordering.lt
by_size n m Ordering.gt = Ordering.gt

unfoldable pub compare : Slice → Slice → Run Ordering
unfolding memcmp
compare s b =
    let min_len = if ltb s.size b.size then s.size else b.size in
    memcmp s.mem b.mem min_len >>= λ r. done (by_size s.size b.size r)

unfoldable pub slice_eq : Slice → Slice → Run Bool
slice_eq s b = compare s b >>= λ r. done (is_eq r)

unfoldable pub slice_ne : Slice → Slice → Run Bool
slice_ne s b = compare s b >>= λ r. done (if is_eq r then false else true)

unfoldable pub slice_lt : Slice → Slice → Run Bool
slice_lt s b = compare s b >>= λ r. done (is_lt r)

unfoldable pub slice_le : Slice → Slice → Run Bool
slice_le s b = compare s b >>= λ r. done (if is_gt r then false else true)

unfoldable pub slice_gt : Slice → Slice → Run Bool
slice_gt s b = compare s b >>= λ r. done (is_gt r)

unfoldable pub slice_ge : Slice → Slice → Run Bool
slice_ge s b = compare s b >>= λ r. done (if is_lt r then false else true)
