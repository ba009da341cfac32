-- ===== src/SkipList/Fresh.antt =====
-- The constructor and random_level.
use cpp_kvstore.Common.{ℕ, zero, suc, ◌+◌, ◌≤◌, ◌<◌, ◌≡◌, refl, ap, arith, Bool, true, false}
use cpp_kvstore.Common.{List, [], ◌∷◌, Option, none, some, inl, inr, Bool-cases}
use cpp_kvstore.Common.{ltb, replicate, get_elem?, Run, done, fault}
use cpp_kvstore.SkipList.{
  SkipList, Heap, Node, Pointer, head, new_skip_list, random_from, random_level, load, forward_at,
}
use cpp_kvstore.SkipList.Search.{IsValid}

module _ {ℓ} {A : Type ℓ} where
  pub get_elem?-replicate : (n i : ℕ) (a : A) → i < n → get_elem? (replicate n a) i ≡ some a
  get_elem?-replicate zero i a lt = absurd (omega arith)
  get_elem?-replicate (suc n) zero a lt = refl
  get_elem?-replicate (suc n) (suc i) a lt = get_elem?-replicate n i a (omega arith)

pub forward_at-load :
    (h : Heap) (i a : ℕ) (n : Node) (p : Pointer)
    → load h a ≡ done n
    → get_elem? {A = Option ℕ} n.forward i ≡ some p
    → forward_at h i a ≡ done p
unfolding forward_at
forward_at-load h i a n p e f =
    rw e (ap (λ o. elim o as (λ x. Run Pointer) [ none ↦ fault | some q ↦ done q ]) f)

forward-new_skip_list :
    (max_lvl i : ℕ) → i < max_lvl → forward_at (new_skip_list max_lvl).heap i head ≡ done none
unfolding new_skip_list
forward-new_skip_list max_lvl i lt =
    forward_at-load (new_skip_list max_lvl).heap i head
      (record {
        key = [];
        value = record { type_ = 1; value = [] };
        forward = replicate max_lvl none;
      })
      none (unfold load in refl) (get_elem?-replicate max_lvl i none lt)

-- A list that was just constructed is valid and holds nothing.
pub new_skip_list-IsValid : (max_lvl : ℕ) → 0 < max_lvl → IsValid (new_skip_list max_lvl) []
unfolding new_skip_list
new_skip_list-IsValid max_lvl pos = record {
  sorted = tt;
  levels = λ i lt. forward-new_skip_list max_lvl i lt;
  nodes = tt;
  heights = tt;
  some_level = omega arith;
  within = omega arith;
  count = refl;
  head_allocated = omega arith;
}

random_from-bounds :
    (max_level : ℕ) (coins : List Bool) (lvl : ℕ)
    → lvl ≤ max_level
    → (lvl ≤ random_from max_level coins lvl) × (random_from max_level coins lvl ≤ max_level)
unfolding random_from
random_from-bounds max_level [] lvl le = (omega arith, le)
random_from-bounds max_level (false ∷ coins) lvl le = (omega arith, le)
random_from-bounds max_level (true ∷ coins) lvl le = elim (Bool-cases (ltb lvl max_level)) [
  | inl lt ↦
      let rest = random_from-bounds max_level coins (lvl + 1) (ground arith) in
      rw lt (omega (arith, rest.0), rest.1)
  | inr ge ↦ rw ge (omega arith, le)
]

-- The level of a new node is one that the head node has.
pub random_level-bounds :
    (s : SkipList) (coins : List Bool)
    → 0 < s.max_level
    → (0 < random_level s coins) × (random_level s coins ≤ s.max_level)
unfolding random_level
random_level-bounds s coins pos =
    let b = random_from-bounds s.max_level coins 1 (omega arith) in (omega (arith, b.0), b.1)
