-- ===== src/Common/Outcome.antt =====
-- What a run of a C++ routine over raw memory ends in.

-- `fault`: a read outside the buffer, which C++ leaves undefined. `stuck` is no C++ outcome: the
-- model's bound on the rounds of a loop was too small.
pub data Run {ℓ} (A : Type ℓ) : Type ℓ where
  done : A → Run A
  fault : Run A
  stuck : Run A

infixl 5 ◌>>=◌
abbrev pub ◌>>=◌ {ℓ κ} : {A : Type ℓ} {B : Type κ} → Run A → (A → Run B) → Run B
done a >>= f = f a
fault >>= f = fault
stuck >>= f = stuck
