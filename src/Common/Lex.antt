-- ===== src/Common/Lex.antt =====
-- The order of `std::string` and `memcmp`: byte by byte, a proper prefix first.
use Prim.Native.Nat.{compare, Ordering}
use mathlib.Core.Path.{◌≡◌, refl}
use mathlib.Core.Logic.{◌⊎◌, ◌≢◌, inl, inr}
use cpp_kvstore.Common.Tests.{Bool-cases}
use mathlib.Core.Bool.{Bool, true, false}
use mathlib.Core.List.{[], ◌∷◌, ◌++◌}
use native.Mathlib.Omega.{arith}
use cpp_kvstore.Common.Bytes.{Bytes}

unfoldable pub lex : Bytes → Bytes → Ordering
lex [] [] = Ordering.eq
lex [] (y ∷ b) = Ordering.lt
lex (x ∷ a) [] = Ordering.gt
lex (x ∷ a) (y ∷ b) = elim (compare x y) [
  | Ordering.lt ↦ Ordering.lt
  | Ordering.eq ↦ lex a b
  | Ordering.gt ↦ Ordering.gt
]

abbrev pub is_lt : Ordering → Bool
is_lt Ordering.lt = true
is_lt _ = false

abbrev pub is_eq : Ordering → Bool
is_eq Ordering.eq = true
is_eq _ = false

abbrev pub is_gt : Ordering → Bool
is_gt Ordering.gt = true
is_gt _ = false

abbrev pub swap_ordering : Ordering → Ordering
swap_ordering Ordering.lt = Ordering.gt
swap_ordering Ordering.eq = Ordering.eq
swap_ordering Ordering.gt = Ordering.lt

-- `a < b` for strings.
infix 50 ◌≺◌
abbrev pub ◌≺◌ : Bytes → Bytes → Type 0
a ≺ b = lex a b ≡ Ordering.lt

pub lex_refl : (a : Bytes) → lex a a ≡ Ordering.eq
unfolding lex
lex_refl [] = refl
lex_refl (x ∷ a) = ground (arith, lex_refl a)

pub lex-eq : (a b : Bytes) → lex a b ≡ Ordering.eq → a ≡ b
unfolding lex
lex-eq [] [] h = refl
lex-eq [] (y ∷ b) h = cc
lex-eq (x ∷ a) [] h = cc
lex-eq (x ∷ a) (y ∷ b) h = ground (arith, lex-eq a b)

pub lex_swap : (a b : Bytes) → lex b a ≡ swap_ordering (lex a b)
unfolding lex
lex_swap [] [] = refl
lex_swap [] (y ∷ b) = refl
lex_swap (x ∷ a) [] = refl
lex_swap (x ∷ a) (y ∷ b) = ground (arith, lex_swap a b)

pub ≺_trans : (a b c : Bytes) → a ≺ b → b ≺ c → a ≺ c
unfolding lex
≺_trans [] b [] p q = ground arith
≺_trans [] b (z ∷ c) p q = refl
≺_trans (x ∷ a) [] c p q = ground arith
≺_trans (x ∷ a) (y ∷ b) [] p q = ground arith
≺_trans (x ∷ a) (y ∷ b) (z ∷ c) p q = ground (arith, ≺_trans a b c)

pub ≺_irrefl : (a : Bytes) → ¬ (a ≺ a)
≺_irrefl a h = cc (lex_refl a)

-- Neither before nor after is equal.
pub Ordering-cases :
    (a b : Bytes) → (lex a b ≡ Ordering.lt) ⊎ (lex a b ≡ Ordering.eq) ⊎ (lex a b ≡ Ordering.gt)
Ordering-cases a b = which (lex a b)
  where
    which : (o : Ordering) → (o ≡ Ordering.lt) ⊎ (o ≡ Ordering.eq) ⊎ (o ≡ Ordering.gt)
    which Ordering.lt = inl refl
    which Ordering.eq = inr (inl refl)
    which Ordering.gt = inr (inr refl)

pub lex-gt : (a b : Bytes) → lex a b ≡ Ordering.gt → b ≺ a
lex-gt a b h = ground (arith, lex_swap a b)

pub lex-lt : (a b : Bytes) → a ≺ b → lex b a ≡ Ordering.gt
lex-lt a b h = ground (arith, lex_swap a b)

-- A common front does not matter.
pub lex-append : (front a b : Bytes) → lex (front ++ a) (front ++ b) ≡ lex a b
unfolding lex
lex-append [] a b = refl
lex-append (x ∷ front) a b = ground (arith, lex-append front a b)

-- `a == b`, `a < b` of std::string
abbrev pub bytes_eq : Bytes → Bytes → Bool
bytes_eq a b = is_eq (lex a b)

abbrev pub bytes_lt : Bytes → Bytes → Bool
bytes_lt a b = is_lt (lex a b)

pub bytes_eq→eq : (a b : Bytes) → bytes_eq a b ≡ true → a ≡ b
bytes_eq→eq a b h = lex-eq a b (ground (arith, h))

pub bytes_eq_refl : (a : Bytes) → bytes_eq a a ≡ true
bytes_eq_refl a = rw (lex_refl a) refl

pub bytes_eq_ne : (a b : Bytes) → a ≢ b → bytes_eq a b ≡ false
bytes_eq_ne a b h = elim (Bool-cases (bytes_eq a b)) [
  | inl e ↦ absurd (h (bytes_eq→eq a b e))
  | inr e ↦ e
]

pub is_lt→lt : (o : Ordering) → is_lt o ≡ true → o ≡ Ordering.lt
is_lt→lt Ordering.lt h = refl
is_lt→lt Ordering.eq h = cc
is_lt→lt Ordering.gt h = cc
