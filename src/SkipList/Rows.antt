-- ===== src/SkipList/Rows.antt =====
-- The levels of a skip list as rows of one list of nodes, in ascending order of their keys: level i
-- links the nodes that are taller than i.
use cpp_kvstore.Common.{ℕ, ◌≤◌, ◌≡◌, refl, sym, ap, ◌∙◌, arith, true, false}
use cpp_kvstore.Common.{
  List, [], ◌∷◌, ◌++◌, Option, none, some, inl, inr, ◌⊎◌, Bool-cases, append_assoc,
}
use cpp_kvstore.Common.{if◌then◌else◌, ltb, All, done}
use cpp_kvstore.Common.Bytes.{Bytes}
use cpp_kvstore.Common.Lex.{bytes_lt, bytes_eq, ◌≺◌}
use cpp_kvstore.SkipList.{TableValue, Pointer, Heap, head, forward_at, key_of}

-- What the model of the levels knows of a node.
pub record Ghost : Type 0 where
  pub addr : ℕ
  pub key : Bytes
  pub value : TableValue
  pub height : ℕ

-- The nodes of level i.
abbrev pub row : ℕ → List Ghost → List Ghost
row i [] = []
row i (g ∷ gs) = if ltb i g.height then g ∷ row i gs else row i gs

abbrev pub first_of : List Ghost → Pointer
first_of [] = none
first_of (g ∷ gs) = some g.addr

-- From node `a` on, the pointers of level i run through exactly these nodes.
abbrev pub Links : Heap → ℕ → ℕ → List Ghost → Type 0
Links h i a [] = forward_at h i a ≡ done none
Links h i a (g ∷ gs) =
    (forward_at h i a ≡ done (some g.addr)) × (key_of h g.addr ≡ done g.key) × Links h i g.addr gs

-- The last node of a list that is taller than i, or the node in front of the list.
abbrev pub last_tall : ℕ → ℕ → List Ghost → ℕ
last_tall i a [] = a
last_tall i a (g ∷ gs) = last_tall i (if ltb i g.height then g.addr else a) gs

abbrev pub Below : Bytes → List Ghost → Type 0
Below key gs = All (λ (g : Ghost). bytes_lt g.key key ≡ true) gs

abbrev pub NotBelow : Bytes → List Ghost → Type 0
NotBelow key gs = All (λ (g : Ghost). bytes_lt g.key key ≡ false) gs

abbrev pub Above : Bytes → List Ghost → Type 0
Above key gs = All (λ (g : Ghost). key ≺ g.key) gs

abbrev pub Sorted : List Ghost → Type 0
Sorted [] = Unit
Sorted (g ∷ gs) = Above g.key gs × Sorted gs

abbrev pub lookup : Bytes → List Ghost → Option TableValue
lookup key [] = none
lookup key (g ∷ gs) = if bytes_eq g.key key then some g.value else lookup key gs

pub row-append : (i : ℕ) (l r : List Ghost) → row i (l ++ r) ≡ row i l ++ row i r
row-append i [] r = refl
row-append i (g ∷ l) r = ground (arith, row-append i l r)

pub last_tall-append :
    (i a : ℕ) (l r : List Ghost) → last_tall i a (l ++ r) ≡ last_tall i (last_tall i a l) r
last_tall-append i a [] r = refl
last_tall-append i a (g ∷ l) r = last_tall-append i (if ltb i g.height then g.addr else a) l r

-- Behind the last tall node of the front stand the tall nodes of the back.
pub Links-skip :
    (h : Heap) (i a : ℕ) (l r : List Ghost)
    → Links h i a (row i (l ++ r))
    → Links h i (last_tall i a l) (row i r)
Links-skip h i a [] r links = links
Links-skip h i a (g ∷ l) r links = elim (Bool-cases (ltb i g.height)) [
  | inl tall ↦
      let links' : Links h i a (g ∷ row i (l ++ r)) = rw tall at links in
      rw tall (Links-skip h i g.addr l r (links'.2))
  | inr short ↦
      let links' : Links h i a (row i (l ++ r)) = rw short at links in
      rw short (Links-skip h i a l r links')
]

-- Either no node of the list is taller than i, or there is a last one.
pub last_tall-cases :
    (i a : ℕ) (l : List Ghost)
    → (last_tall i a l ≡ a)
      ⊎ ((front : List Ghost) × (g : Ghost) × (back : List Ghost) × (l ≡ front ++ g ∷ back)
          × (ltb i g.height ≡ true)
          × (last_tall i a l ≡ g.addr))
last_tall-cases i a [] = inl refl
last_tall-cases i a (g ∷ l) = elim (Bool-cases (ltb i g.height)) [
  | inr short ↦ elim (last_tall-cases i a l) [
    | inl e ↦ inl (rw short e)
    | inr (front, t, back, split, tall, e) ↦
        inr (g ∷ front, t, back, ap (λ s. g ∷ s) split, tall, rw short e)
  ]
  | inl tall ↦ elim (last_tall-cases i g.addr l) [
    | inl e ↦ inr ([], g, l, refl, tall, rw tall e)
    | inr (front, t, back, split, tall', e) ↦
        inr (g ∷ front, t, back, ap (λ s. g ∷ s) split, tall', rw tall e)
  ]
]

-- A node that a search of level i can stand on: the last tall node of some front of the list.
abbrev pub Stands : ℕ → List Ghost → ℕ → Type 0
Stands i l x =
    (front : List Ghost) × (back : List Ghost) × (l ≡ front ++ back) × (x ≡ last_tall i head front)

-- The place that a search leaves level i + 1 with is a place to start level i from.
pub Stands-down : (i j : ℕ) (l : List Ghost) → i ≤ j → Stands i l (last_tall j head l)
Stands-down i j l le = elim (last_tall-cases j head l) [
  | inl e ↦ ([], l, refl, e)
  | inr (front, g, back, split, tall, e) ↦
      let tall_below : ltb i g.height ≡ true = ground arith in
      (
        front ++ g ∷ [],
        back,
        split ∙ sym (append_assoc front (g ∷ []) back),
        e ∙ rw (last_tall-append i head front (g ∷ []), tall_below),
      )
]
