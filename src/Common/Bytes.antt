-- ===== src/Common/Bytes.antt =====
-- Byte buffers: fixed-width integers in a little-endian host's memory, and reads from a cursor.
-- A cursor into a buffer is the part of the buffer that begins there.
use Prim.Native.Nat.{ℕ, zero, suc, ◌+◌, ◌*◌, ◌/◌, ◌%◌, ◌^◌, ◌<◌}
use mathlib.Core.Path.{◌≡◌, refl, ap}
use mathlib.Core.List.{List, [], ◌∷◌, ◌++◌}
use native.Mathlib.Omega.{arith}
use native.Mathlib.Nat.{pow-suc}
use cpp_kvstore.Common.Lists.{length, All}
use cpp_kvstore.Common.Outcome.{Run, done, fault, ◌>>=◌}

abbrev pub Bytes : Type 0
Bytes = List ℕ

abbrev pub IsByte : ℕ → Type 0
IsByte b = b < 256

-- The bytes of a `w`-byte unsigned integer, lowest first.
abbrev pub fixed : ℕ → ℕ → Bytes
fixed zero n = []
fixed (suc w) n = (n % 256) ∷ fixed w (n / 256)

abbrev pub fixed_value : Bytes → ℕ
fixed_value [] = 0
fixed_value (b ∷ bs) = b + 256 * fixed_value bs

-- Copies `n` bytes from the cursor and moves it past them.
abbrev pub read_bytes : ℕ → Bytes → Run (Bytes × Bytes)
read_bytes zero rest = done ([], rest)
read_bytes (suc n) [] = fault
read_bytes (suc n) (b ∷ rest) = read_bytes n rest >>= λ p. done (b ∷ p.0, p.1)

-- Copies a `w`-byte integer from the cursor and moves it past.
unfoldable pub read_fixed : ℕ → Bytes → Run (ℕ × Bytes)
read_fixed w rest = read_bytes w rest >>= λ p. done (fixed_value p.0, p.1)

pub length-fixed : (w n : ℕ) → length (fixed w n) ≡ w
length-fixed zero n = refl
length-fixed (suc w) n = ap suc (length-fixed w (n / 256))

pub fixed-IsByte : (w n : ℕ) → All IsByte (fixed w n)
fixed-IsByte zero n = tt
fixed-IsByte (suc w) n = (omega arith, fixed-IsByte w (n / 256))

pow_step : (w : ℕ) → 256 ^ suc w ≡ 256 * 256 ^ w
pow_step w = omega (arith, pow-suc 256 w)

-- A number that fits `w` bytes is what its bytes stand for.
pub fixed_value-fixed : (w n : ℕ) → n < 256 ^ w → fixed_value (fixed w n) ≡ n
fixed_value-fixed zero n h = omega arith
fixed_value-fixed (suc w) n h =
    omega (arith, pow_step w, fixed_value-fixed w (n / 256) (omega (arith, pow_step w)))

pub fixed_value-lt : (bs : Bytes) → All IsByte bs → fixed_value bs < 256 ^ length bs
fixed_value-lt [] h = omega arith
fixed_value-lt (b ∷ bs) h = omega (arith, pow_step (length bs), fixed_value-lt bs h.1)

pub fixed-fixed_value : (bs : Bytes) → All IsByte bs → fixed (length bs) (fixed_value bs) ≡ bs
fixed-fixed_value [] h = refl
fixed-fixed_value (b ∷ bs) (p, h) =
    let low : (b + 256 * fixed_value bs) % 256 ≡ b = omega arith in
    let high : (b + 256 * fixed_value bs) / 256 ≡ fixed_value bs = omega arith in
    rw (low, high, fixed-fixed_value bs h)

-- The bytes at the front are read, and the cursor stands behind them.
pub read_bytes-append : (xs ys : Bytes) → read_bytes (length xs) (xs ++ ys) ≡ done (xs, ys)
read_bytes-append [] ys = refl
read_bytes-append (x ∷ xs) ys = rw (read_bytes-append xs ys)

pub read_fixed-fixed :
    (w n : ℕ) (rest : Bytes) → n < 256 ^ w → read_fixed w (fixed w n ++ rest) ≡ done (n, rest)
unfolding read_fixed
read_fixed-fixed w n rest h =
    let e = rw length-fixed at (read_bytes-append (fixed w n) rest) in
    rw (e, fixed_value-fixed w n h)
