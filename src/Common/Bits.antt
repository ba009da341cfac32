-- ===== src/Common/Bits.antt =====
-- `^`, `&` and `|` at variables: the equation for the lowest digit, bounds, and the laws of `^`.
use Prim.Native.Nat.{min, max, differ, digits, bitwise, bit_and, bit_or, bit_xor}
use Prim.Native.Nat.{bit_and-bitwise, bit_or-bitwise, bit_xor-bitwise}
use Prim.Native.Nat.{ℕ, zero, suc, ◌+◌, ◌*◌, ◌/◌, ◌%◌, ◌^◌, ◌≤◌, ◌<◌}
use mathlib.Core.Path.{◌≡◌, refl}
use native.Mathlib.Nat.{le_refl, pow-suc}
use native.Mathlib.Omega.{arith}

module _ (on_zero : ℕ → ℕ) (op : ℕ → ℕ → ℕ) where
  -- Fuel beyond the left operand makes no difference.
  digits_enough : (n m a b : ℕ) → a ≤ n → a ≤ m → digits on_zero op n a b ≡ digits on_zero op m a b
  digits_enough n m zero b p q = digits_none n m b
    where
      digits_none : (n m b : ℕ) → digits on_zero op n 0 b ≡ digits on_zero op m 0 b
      digits_none zero zero b = refl
      digits_none zero (suc m) b = refl
      digits_none (suc n) zero b = refl
      digits_none (suc n) (suc m) b = refl
  digits_enough zero m (suc a) b p q = absurd (omega arith)
  digits_enough (suc n) zero (suc a) b p q = absurd (omega arith)
  digits_enough (suc n) (suc m) (suc a) b p q =
      rw (digits_enough n m (suc a / 2) (b / 2) (omega arith) (omega arith))

  bitwise_digit :
      (a b : ℕ)
      → bitwise on_zero op (suc a) b
        ≡ bitwise on_zero op (suc a / 2) (b / 2) * 2 + op (suc a % 2) (b % 2)
  bitwise_digit a b =
      omega (arith, digits_enough a (suc a / 2) (suc a / 2) (b / 2) (omega arith) (le_refl _))

pub bit_and_digit : (a b : ℕ) → bit_and a b ≡ bit_and (a / 2) (b / 2) * 2 + min (a % 2) (b % 2)
bit_and_digit zero b = simp bit_and-bitwise (omega arith)
bit_and_digit (suc a) b = simp bit_and-bitwise (bitwise_digit (λ y. 0) min a b)

pub bit_or_digit : (a b : ℕ) → bit_or a b ≡ bit_or (a / 2) (b / 2) * 2 + max (a % 2) (b % 2)
bit_or_digit zero b = simp bit_or-bitwise (omega arith)
bit_or_digit (suc a) b = simp bit_or-bitwise (bitwise_digit (λ y. y) max a b)

differ_lem : (x y : ℕ) → x < 2 → y < 2 → differ x y ≡ (x + y) % 2
differ_lem zero zero p q = refl
differ_lem zero (suc zero) p q = refl
differ_lem zero (suc (suc y)) p q = absurd (omega arith)
differ_lem (suc zero) zero p q = refl
differ_lem (suc zero) (suc zero) p q = refl
differ_lem (suc zero) (suc (suc y)) p q = absurd (omega arith)
differ_lem (suc (suc x)) y p q = absurd (omega arith)

bit_xor-differ : (a b : ℕ) → bit_xor a b ≡ bit_xor (a / 2) (b / 2) * 2 + differ (a % 2) (b % 2)
bit_xor-differ zero b =
    simp bit_xor-bitwise (omega (arith, differ_lem 0 (b % 2) (omega arith) (omega arith)))
bit_xor-differ (suc a) b = simp bit_xor-bitwise (bitwise_digit (λ y. y) differ a b)

pub bit_xor_digit : (a b : ℕ) → bit_xor a b ≡ bit_xor (a / 2) (b / 2) * 2 + (a + b) % 2
bit_xor_digit a b =
    omega (arith, bit_xor-differ a b, differ_lem (a % 2) (b % 2) (omega arith) (omega arith))

pub bit_xor-lt : (w a b : ℕ) → a < 2 ^ w → b < 2 ^ w → bit_xor a b < 2 ^ w
bit_xor-lt zero a b p q =
    let e : a ≡ 0 = omega arith in let f : b ≡ 0 = omega arith in rw (e, f) (omega arith)
bit_xor-lt (suc w) a b p q =
    let s = pow-suc 2 w in
    omega (
      arith,
      s,
      bit_xor_digit a b,
      bit_xor-lt w (a / 2) (b / 2) (omega (arith, s)) (omega (arith, s)),
    )

-- `^ c` undoes itself.
bit_xor_undo : (w a c : ℕ) → a < 2 ^ w → c < 2 ^ w → bit_xor (bit_xor a c) c ≡ a
bit_xor_undo zero a c p q =
    let e : a ≡ 0 = omega arith in let f : c ≡ 0 = omega arith in rw (e, f) refl
bit_xor_undo (suc w) a c p q =
    let s = pow-suc 2 w in
    let half : bit_xor a c / 2 ≡ bit_xor (a / 2) (c / 2) = omega (arith, bit_xor_digit a c) in
    let rest = bit_xor_undo w (a / 2) (c / 2) (omega (arith, s)) (omega (arith, s)) in
    rw (bit_xor_digit (bit_xor a c) c, half, rest) (omega (arith, bit_xor_digit a c))

pub bit_xor-injective :
    (w a b c : ℕ) → a < 2 ^ w → b < 2 ^ w → c < 2 ^ w → bit_xor a c ≡ bit_xor b c → a ≡ b
bit_xor-injective w a b c p q r e = cc (e, bit_xor_undo w a c p r, bit_xor_undo w b c q r)

bit_and-le : (n a b : ℕ) → a ≤ n → (bit_and a b ≤ a) × (bit_and a b ≤ b)
bit_and-le n zero b h = omega (arith, bit_and_zero b)
  where
    bit_and_zero : (b : ℕ) → bit_and 0 b ≡ 0
    bit_and_zero b = bit_and-bitwise 0 b
bit_and-le zero (suc a) b h = absurd (omega arith)
bit_and-le (suc n) (suc a) b h =
    omega (arith, bit_and_digit (suc a) b, bit_and-le n (suc a / 2) (b / 2) (omega arith))

pub bit_and-le_left : (a b : ℕ) → bit_and a b ≤ a
bit_and-le_left a b = (bit_and-le a a b (le_refl a)).0

pub bit_and-le_right : (a b : ℕ) → bit_and a b ≤ b
bit_and-le_right a b = (bit_and-le a a b (le_refl a)).1
