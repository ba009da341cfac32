-- ===== src/Sharded/Routing.antt =====
-- Which shard a key goes to, and what put and erase through the shards mean for get.
use cpp_kvstore.Common.{
  ℕ, ◌+◌, ◌-◌, ◌/◌, ◌%◌, ◌^◌, ◌≤◌, ◌<◌, ◌≡◌, refl, ◌∙◌, arith, true, false, Bool-cases, inl, inr,
}
use cpp_kvstore.Common.{
  List, [], ◌∷◌, Option, none, some, if◌then◌else◌, leb, ◌==◌, length, take, drop, length-drop, All,
  done, fault,
}
use native.Mathlib.Nat.{mod-eq_of_lt, div-lt_self}
use cpp_kvstore.Slice.Laws.{read_bytes-take}
use cpp_kvstore.Common.Bytes.{Bytes, read_bytes}
use cpp_kvstore.Spatial.Key.{big_endian_value}
use cpp_kvstore.Sharded.{
  ShardRange, ShardedKvEngine, divide, uint64_max, spatial_key_size, in_range, scan_ranges,
  shard_of_code, get_shard,
}

pub divide_lem : (a b : ℕ) → 0 < b → divide a b ≡ done (a / b)
unfolding divide
divide_lem a b pos = ground arith

divide_zero : (a : ℕ) → divide a 0 ≡ fault
unfolding divide
divide_zero a = refl

-- The key's Morton code over the step is at most the last shard.
abbrev clamp : ℕ → ℕ → ℕ
clamp shard_num i = if leb shard_num i then shard_num - 1 else i

clamp_lt : (shard_num i : ℕ) → 0 < shard_num → clamp shard_num i < shard_num
clamp_lt shard_num i pos = ground arith

-- The Morton code that the key's bytes show.
abbrev pub code_of : Bytes → ℕ
code_of key = big_endian_value 0 (take 8 (drop 2 key))

read_code :
    (key : Bytes)
    → spatial_key_size ≤ length key
    → read_bytes 8 (drop 2 key) ≡ done (take 8 (drop 2 key), drop 8 (drop 2 key))
read_code key long = read_bytes-take 8 (drop 2 key) (omega (arith, length-drop 2 key))

shard_of_code_run :
    (shard_num step i : ℕ) (key : Bytes)
    → spatial_key_size ≤ length key
    → divide uint64_max shard_num ≡ done step
    → divide (code_of key) ((step + 1) % 2 ^ 64) ≡ done i
    → shard_of_code shard_num key ≡ done (clamp shard_num i)
unfolding shard_of_code
shard_of_code_run shard_num step i key long e f = rw (read_code key long, shard_of_code, e, f) refl

shard_of_code_fault :
    (shard_num step : ℕ) (key : Bytes)
    → spatial_key_size ≤ length key
    → divide uint64_max shard_num ≡ done step
    → divide (code_of key) ((step + 1) % 2 ^ 64) ≡ fault
    → shard_of_code shard_num key ≡ fault
unfolding shard_of_code
shard_of_code_fault shard_num step key long e f = rw (read_code key long, shard_of_code, e, f) refl

shard_of_code_lem :
    (shard_num : ℕ) (key : Bytes)
    → 2 ≤ shard_num
    → spatial_key_size ≤ length key
    → shard_of_code shard_num key
      ≡ done (clamp shard_num (code_of key / (uint64_max / shard_num + 1)))
shard_of_code_lem shard_num key two long =
    let step = uint64_max / shard_num in
    let small : (step + 1) % 2 ^ 64 ≡ step + 1 = mod-eq_of_lt (
      let lt = div-lt_self {n = uint64_max} {k = shard_num} (omega arith) (omega arith) in
      omega (arith, lt)) in
    shard_of_code_run shard_num step (code_of key / (step + 1)) key long
      (divide_lem uint64_max shard_num (omega arith))
      (rw small (divide_lem (code_of key) (step + 1) (omega arith)))

-- On one shard no key that is long enough to be a spatial key has a shard: the step is UINT64_MAX,
-- one more wraps to 0, and the code is divided by it.
pub get_shard_one :
    (s : ShardedKvEngine) (key : Bytes)
    → s.shard_num ≡ 1
    → spatial_key_size ≤ length key
    → get_shard s key ≡ fault
unfolding get_shard
get_shard_one s key one long =
    let fails =
      shard_of_code_fault 1 uint64_max key long (divide_lem uint64_max 1 (omega arith))
        (divide_zero (code_of key)) in
    let is_long : leb spatial_key_size (length key) ≡ true = ground (arith, long) in
    rw (is_long, get_shard, one) fails

-- As many shards as the number says, two at least, and no range of another one.
pub record WellFormed (s : ShardedKvEngine) : Type 0 where
  pub several : 2 ≤ s.shard_num
  pub all_there : length s.shards ≡ s.shard_num
  pub indices : All (λ (r : ShardRange). r.shard_index < s.shard_num) s.ranges

scan_ranges_lt :
    (n : ℕ) (ranges : List ShardRange) (key : Bytes) (i : ℕ)
    → All (λ (r : ShardRange). r.shard_index < n) ranges
    → scan_ranges ranges key ≡ some i
    → i < n
unfolding scan_ranges
scan_ranges_lt n [] key i all e = absurd (cc e)
scan_ranges_lt n (r ∷ ranges) key i all e = elim (Bool-cases (in_range key r)) [
  | inl here ↦ let f = rw here at e in let g : r.shard_index ≡ i = cc f in rw (← g) all.0
  | inr other ↦ scan_ranges_lt n ranges key i all.1 (rw other at e)
]

pub get_shard_long :
    (s : ShardedKvEngine) (key : Bytes)
    → leb spatial_key_size (length key) ≡ true
    → get_shard s key ≡ shard_of_code s.shard_num key
unfolding get_shard
get_shard_long s key long = rw long refl

pub get_shard_short :
    (s : ShardedKvEngine) (key : Bytes)
    → leb spatial_key_size (length key) ≡ false
    → get_shard s key ≡ (elim (scan_ranges s.ranges key) [
      | some i ↦ done i
      | none ↦ if length s.shards == 0 then fault else done (length s.shards - 1)
    ])
unfolding get_shard
get_shard_short s key short = rw short refl

-- Every key has a shard, and it is one of those that are there.
pub get_shard_lem :
    (s : ShardedKvEngine) (key : Bytes)
    → WellFormed s
    → (i : ℕ) × (get_shard s key ≡ done i) × (i < length s.shards)
get_shard_lem s key w = elim (Bool-cases (leb spatial_key_size (length key))) [
  | inl long ↦
      let quotient = code_of key / (uint64_max / s.shard_num + 1) in
      (
        clamp s.shard_num quotient,
        get_shard_long s key long
            ∙ shard_of_code_lem s.shard_num key w.several (ground (arith, long)),
        omega (arith, clamp_lt s.shard_num quotient (omega (arith, w.several)), w.all_there),
      )
  | inr short ↦ scanned (scan_ranges s.ranges key) refl short
]
  where
    scanned :
        (o : Option ℕ)
        → scan_ranges s.ranges key ≡ o
        → leb spatial_key_size (length key) ≡ false
        → (i : ℕ) × (get_shard s key ≡ done i) × (i < length s.shards)
    scanned (some i) e short = (
      i,
      get_shard_short s key short ∙ rw e refl,
      omega (arith, scan_ranges_lt s.shard_num s.ranges key i w.indices e, w.all_there),
    )
    scanned none e short =
        let some_shard : (length s.shards == 0) ≡ false = ground (arith, w.several, w.all_there) in
        (
          length s.shards - 1,
          get_shard_short s key short ∙ rw (e, some_shard) refl,
          omega (arith, w.several, w.all_there),
        )
