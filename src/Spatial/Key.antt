-- ===== src/Spatial/Key.antt =====
-- SpatialKey3D: its big-endian bytes are its round trip, and sort as the key's fields do.
use native.Mathlib.Nat.{pow-suc}
use cpp_kvstore.Common.{ℕ, zero, suc, ◌+◌, ◌*◌, ◌/◌, ◌%◌, ◌^◌, ◌<◌, ◌≡◌, refl, ap, ap₂, ◌∙◌, arith}
use cpp_kvstore.Common.{[], ◌∷◌, ◌++◌, append_assoc, compare, Ordering}
use cpp_kvstore.Common.{length, length-append, All, Run, done, ◌>>=◌}
use cpp_kvstore.Common.Bytes.{Bytes, IsByte, fixed, fixed_value, read_fixed}
use cpp_kvstore.Common.Bytes.{fixed-fixed_value, fixed_value-lt, read_fixed-fixed}
use cpp_kvstore.Common.Lex.{lex}
use cpp_kvstore.Slice.{Slice, of_string}

pub record SpatialKey3D : Type 0 where
  pub layer_type : ℕ
  pub lod_level : ℕ
  pub morton_code : ℕ
  pub timestamp_us : ℕ

-- The bytes of a number, highest first.
abbrev pub big_endian : ℕ → ℕ → Bytes
big_endian zero n = []
big_endian (suc w) n = big_endian w (n / 256) ++ (n % 256) ∷ []

abbrev pub big_endian_value : ℕ → Bytes → ℕ
big_endian_value acc [] = acc
big_endian_value acc (b ∷ bs) = big_endian_value (acc * 256 + b) bs

-- The number whose memory, lowest byte first, shows the bytes of `n` highest first.
abbrev pub htobe64 : ℕ → ℕ
htobe64 n = fixed_value (big_endian 8 n)

abbrev pub be64toh : ℕ → ℕ
be64toh n = big_endian_value 0 (fixed 8 n)

-- The memory of the packed struct.
abbrev pub key_bytes : SpatialKey3D → Bytes
key_bytes k =
    fixed 1 k.layer_type ++ fixed 1 k.lod_level ++ fixed 8 k.morton_code ++ fixed 8 k.timestamp_us

-- ToBytes
unfoldable pub to_bytes : SpatialKey3D → Bytes
to_bytes k = key_bytes (record {
  layer_type = k.layer_type;
  lod_level = k.lod_level;
  morton_code = htobe64 k.morton_code;
  timestamp_us = htobe64 k.timestamp_us;
})

-- FromSlice
unfoldable pub from_slice : Slice → Run SpatialKey3D
from_slice s = read_fixed 1 s.mem >>= λ layer. read_fixed 1 layer.1 >>= λ lod.
    read_fixed 8 lod.1 >>= λ code. read_fixed 8 code.1 >>= λ time. done (record {
      layer_type = layer.0;
      lod_level = lod.0;
      morton_code = be64toh code.0;
      timestamp_us = be64toh time.0;
    })

-- ToSlice shows the struct's own memory.
unfoldable pub to_slice : SpatialKey3D → Slice
to_slice k = of_string (key_bytes k)

-- The fields are in the range of their types.
pub record InRange (k : SpatialKey3D) : Type 0 where
  pub layer : k.layer_type < 2 ^ 8
  pub lod : k.lod_level < 2 ^ 8
  pub code : k.morton_code < 2 ^ 64
  pub time : k.timestamp_us < 2 ^ 64

big_endian-IsByte : (w n : ℕ) → All IsByte (big_endian w n)
big_endian-IsByte zero n = tt
big_endian-IsByte (suc w) n =
    snoc (big_endian w (n / 256)) (n % 256) (big_endian-IsByte w (n / 256)) (omega arith)
  where
    snoc : (bs : Bytes) (b : ℕ) → All IsByte bs → IsByte b → All IsByte (bs ++ b ∷ [])
    snoc [] b hs h = (h, tt)
    snoc (c ∷ bs) b hs h = (hs.0, snoc bs b hs.1 h)

length-big_endian : (w n : ℕ) → length (big_endian w n) ≡ w
length-big_endian zero n = refl
length-big_endian (suc w) n =
    omega (
      arith,
      length-append (big_endian w (n / 256)) ((n % 256) ∷ []),
      length-big_endian w (n / 256),
    )

big_endian_value-append :
    (acc : ℕ) (bs : Bytes) (b : ℕ)
    → big_endian_value acc (bs ++ b ∷ []) ≡ big_endian_value acc bs * 256 + b
big_endian_value-append acc [] b = refl
big_endian_value-append acc (c ∷ bs) b = big_endian_value-append (acc * 256 + c) bs b

big_endian_value-big_endian : (w n : ℕ) → n < 256 ^ w → big_endian_value 0 (big_endian w n) ≡ n
big_endian_value-big_endian zero n lt = omega arith
big_endian_value-big_endian (suc w) n lt =
    let high = big_endian_value-big_endian w (n / 256) (omega (arith, pow-suc 256 w)) in
    omega (arith, big_endian_value-append 0 (big_endian w (n / 256)) (n % 256), high)

fixed-htobe64 : (n : ℕ) → fixed 8 (htobe64 n) ≡ big_endian 8 n
fixed-htobe64 n = fixed-fixed_value (big_endian 8 n) (big_endian-IsByte 8 n)

htobe64-lt : (n : ℕ) → htobe64 n < 2 ^ 64
htobe64-lt n =
    omega (arith, fixed_value-lt (big_endian 8 n) (big_endian-IsByte 8 n), length-big_endian 8 n)

be64toh-htobe64 : (n : ℕ) → n < 2 ^ 64 → be64toh (htobe64 n) ≡ n
be64toh-htobe64 n lt =
    ap (big_endian_value 0) (fixed-htobe64 n) ∙ big_endian_value-big_endian 8 n lt

-- FromSlice gives back the key that ToBytes was given.
pub from_slice-to_bytes :
    (k : SpatialKey3D) → InRange k → from_slice (of_string (to_bytes k)) ≡ done k
unfolding from_slice to_bytes of_string
from_slice-to_bytes k r =
    let time = fixed 8 (htobe64 k.timestamp_us) in
    let code = fixed 8 (htobe64 k.morton_code) ++ time in
    rw
      (
        read_fixed-fixed 1 k.layer_type (fixed 1 k.lod_level ++ code) r.layer,
        read_fixed-fixed 1 k.lod_level code r.lod,
        read_fixed-fixed 8 (htobe64 k.morton_code) time (htobe64-lt k.morton_code),
        read_fixed-fixed 8 (htobe64 k.timestamp_us) [] (htobe64-lt k.timestamp_us),
        be64toh-htobe64 k.morton_code r.code,
        be64toh-htobe64 k.timestamp_us r.time,
      )
      refl

-- The first of two comparisons that tells its sides apart.
abbrev pub then_by : Ordering → Ordering → Ordering
then_by Ordering.lt second = Ordering.lt
then_by Ordering.eq second = second
then_by Ordering.gt second = Ordering.gt

-- The order of the keys: by layer, level of detail, Morton code and time.
abbrev pub compare_keys : SpatialKey3D → SpatialKey3D → Ordering
compare_keys a b = then_by (compare a.layer_type b.layer_type) (
    then_by (compare a.lod_level b.lod_level)
      (then_by (compare a.morton_code b.morton_code) (compare a.timestamp_us b.timestamp_us)))

compare_digit :
    (n m : ℕ) (o : Ordering)
    → then_by (compare (n / 256) (m / 256)) (then_by (compare (n % 256) (m % 256)) o)
      ≡ then_by (compare n m) o
compare_digit n m o = ground arith

lex_cons : (x y : ℕ) (xs ys : Bytes) → lex (x ∷ xs) (y ∷ ys) ≡ then_by (compare x y) (lex xs ys)
unfolding lex
lex_cons x y xs ys = ground arith

lex-big_endian :
    (w n m : ℕ) (xs ys : Bytes)
    → n < 256 ^ w
    → m < 256 ^ w
    → lex (big_endian w n ++ xs) (big_endian w m ++ ys) ≡ then_by (compare n m) (lex xs ys)
unfolding lex
lex-big_endian zero n m xs ys p q =
    let n0 : n ≡ 0 = omega arith in let m0 : m ≡ 0 = omega arith in rw (n0, m0) refl
lex-big_endian (suc w) n m xs ys p q =
    let s = pow-suc 256 w in
    ap₂ lex (append_assoc (big_endian w (n / 256)) ((n % 256) ∷ []) xs)
      (append_assoc (big_endian w (m / 256)) ((m % 256) ∷ []) ys)
    ∙ lex-big_endian w (n / 256) (m / 256) ((n % 256) ∷ xs) ((m % 256) ∷ ys) (omega (arith, s))
        (omega (arith, s))
    ∙ ap (then_by (compare (n / 256) (m / 256))) (lex_cons (n % 256) (m % 256) xs ys)
    ∙ compare_digit n m (lex xs ys)

then_by_eq : (o : Ordering) → then_by o Ordering.eq ≡ o
then_by_eq Ordering.lt = refl
then_by_eq Ordering.eq = refl
then_by_eq Ordering.gt = refl

to_bytes_lem :
    (k : SpatialKey3D)
    → InRange k
    → to_bytes k
      ≡ k.layer_type ∷ k.lod_level ∷ (big_endian 8 k.morton_code ++ big_endian 8 k.timestamp_us)
unfolding to_bytes
to_bytes_lem k r =
    let layer : k.layer_type % 256 ≡ k.layer_type = omega (arith, r.layer) in
    let lod : k.lod_level % 256 ≡ k.lod_level = omega (arith, r.lod) in
    rw (layer, lod)
      (ap₂ (λ c t. k.layer_type ∷ k.lod_level ∷ (c ++ t)) (fixed-htobe64 k.morton_code)
        (fixed-htobe64 k.timestamp_us))

-- The bytes of two keys compare, byte by byte, as the keys' fields do.
pub lex-to_bytes :
    (a b : SpatialKey3D) → InRange a → InRange b → lex (to_bytes a) (to_bytes b) ≡ compare_keys a b
unfolding lex
lex-to_bytes a b ra rb =
    let time =
      lex-big_endian 8 a.timestamp_us b.timestamp_us [] [] ra.time rb.time
      ∙ then_by_eq (compare a.timestamp_us b.timestamp_us) in
    let code =
      lex-big_endian 8 a.morton_code b.morton_code (big_endian 8 a.timestamp_us)
        (big_endian 8 b.timestamp_us) ra.code rb.code
      ∙ ap (then_by (compare a.morton_code b.morton_code)) time in
    ap₂ lex (to_bytes_lem a ra) (to_bytes_lem b rb)
    ∙ lex_cons a.layer_type b.layer_type
        (a.lod_level ∷ (big_endian 8 a.morton_code ++ big_endian 8 a.timestamp_us))
        (b.lod_level ∷ (big_endian 8 b.morton_code ++ big_endian 8 b.timestamp_us))
    ∙ ap (then_by (compare a.layer_type b.layer_type)) (
        lex_cons a.lod_level b.lod_level (big_endian 8 a.morton_code ++ big_endian 8 a.timestamp_us)
          (big_endian 8 b.morton_code ++ big_endian 8 b.timestamp_us)
        ∙ ap (then_by (compare a.lod_level b.lod_level)) code)
