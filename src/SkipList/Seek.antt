-- ===== src/SkipList/Seek.antt =====
-- find_greater_or_equal: its one loop goes right or down, and never passes a node twice.
use cpp_kvstore.Common.{ℕ, zero, suc, ◌+◌, ◌≤◌, ◌≡◌, refl, sym, ap, ◌∙◌, arith, true, false}
use cpp_kvstore.Common.{List, [], ◌∷◌, ◌++◌, inl, inr, ◌⊎◌, Bool-cases, append_assoc}
use cpp_kvstore.Common.{ltb, length, length-append, Run, done}
use cpp_kvstore.Common.Bytes.{Bytes}
use cpp_kvstore.Common.Lex.{bytes_lt}
use cpp_kvstore.SkipList.{Heap, head, SkipList, seek_loop, find_greater_or_equal}
use cpp_kvstore.SkipList.Rows.{
  Ghost, row, row-append, first_of, Links, Links-skip, last_tall, last_tall-append, Below, NotBelow,
}
use cpp_kvstore.SkipList.Search.{
  lower, upper, lower-append-upper, lower-Below, upper-NotBelow, IsValid,
}
use cpp_kvstore.SkipList.Get.{forward-upper}

-- Either no node of the list is taller than i, or there is a first one.
next_tall :
    (i : ℕ) (back : List Ghost)
    → (row i back ≡ [])
      ⊎ ((b1 : List Ghost) × (g : Ghost) × (b2 : List Ghost) × (back ≡ b1 ++ g ∷ b2)
          × (row i b1 ≡ [])
          × (ltb i g.height ≡ true))
next_tall i [] = inl refl
next_tall i (g ∷ back) = elim (Bool-cases (ltb i g.height)) [
  | inl tall ↦ inr ([], g, back, refl, refl, tall)
  | inr short ↦ elim (next_tall i back) [
    | inl e ↦ inl (rw short e)
    | inr (b1, t, b2, split, e, tall) ↦ inr (g ∷ b1, t, b2, ap (λ s. g ∷ s) split, rw short e, tall)
  ]
]

last_tall-row : (i a : ℕ) (l : List Ghost) → row i l ≡ [] → last_tall i a l ≡ a
last_tall-row i a [] e = refl
last_tall-row i a (g ∷ l) e = elim (Bool-cases (ltb i g.height)) [
  | inl tall ↦ absurd (cc (rw tall at e))
  | inr short ↦ rw short (last_tall-row i a l (rw short at e))
]

row-NotBelow : (key : Bytes) (i : ℕ) (r : List Ghost) → NotBelow key r → NotBelow key (row i r)
row-NotBelow key i [] h = tt
row-NotBelow key i (g ∷ r) h = elim (Bool-cases (ltb i g.height)) [
  | inl tall ↦ rw tall (h.0, row-NotBelow key i r h.1)
  | inr short ↦ rw short (row-NotBelow key i r h.1)
]

seek_down :
    (fuel : ℕ) (h : Heap) (i : ℕ) (key : Bytes) (x : ℕ) (es : List Ghost)
    → Links h i x es
    → NotBelow key es
    → seek_loop (suc fuel) h (suc i) key x ≡ seek_loop fuel h i key x
unfolding seek_loop
seek_down fuel h i key x [] links above = rw links refl
seek_down fuel h i key x (g ∷ es) links above =
    rw (links.0, links.1)
      (ap
        (λ b. elim b as (λ t. Run ℕ) [
          | true ↦ seek_loop fuel h (suc i) key g.addr
          | false ↦ seek_loop fuel h i key x
        ])
        above.0)

seek_right :
    (fuel : ℕ) (h : Heap) (i : ℕ) (key : Bytes) (x : ℕ) (g : Ghost) (es : List Ghost)
    → Links h i x (g ∷ es)
    → bytes_lt g.key key ≡ true
    → seek_loop (suc fuel) h (suc i) key x ≡ seek_loop fuel h (suc i) key g.addr
unfolding seek_loop
seek_right fuel h i key x g es links below =
    rw (links.0, links.1)
      (ap
        (λ b. elim b as (λ t. Run ℕ) [
          | true ↦ seek_loop fuel h (suc i) key g.addr
          | false ↦ seek_loop fuel h i key x
        ])
        below)

Below-middle :
    (key : Bytes) (l : List Ghost) (g : Ghost) (r : List Ghost)
    → Below key (l ++ g ∷ r)
    → bytes_lt g.key key ≡ true
Below-middle key [] g r b = b.0
Below-middle key (x ∷ l) g r b = Below-middle key l g r b.1

seek_zero : (fuel : ℕ) (h : Heap) (key : Bytes) (x : ℕ) → seek_loop fuel h 0 key x ≡ done x
unfolding seek_loop
seek_zero zero h key x = refl
seek_zero (suc fuel) h key x = refl

seek_next :
    (fuel : ℕ) (h : Heap) (i : ℕ) (key : Bytes) (x y : ℕ)
    → (i ≡ 0 → x ≡ y)
    → ((k : ℕ) → i ≡ suc k → seek_loop fuel h (suc k) key x ≡ done y)
    → seek_loop fuel h i key x ≡ done y
seek_next fuel h zero key x y last next = seek_zero fuel h key x ∙ ap done (last refl)
seek_next fuel h (suc k) key x y last next = next k refl

row-tall :
    (i : ℕ) (b1 : List Ghost) (g : Ghost) (b2 : List Ghost)
    → row i b1 ≡ []
    → ltb i g.height ≡ true
    → row i (b1 ++ g ∷ b2) ≡ g ∷ row i b2
row-tall i b1 g b2 e tall = row-append i b1 (g ∷ b2) ∙ rw (e, tall) refl

last_tall-tall :
    (i j a : ℕ) (b1 : List Ghost) (g : Ghost)
    → j ≤ i
    → ltb i g.height ≡ true
    → last_tall j a (b1 ++ g ∷ []) ≡ g.addr
last_tall-tall i j a b1 g le tall =
    let tall_j : ltb j g.height ≡ true = ground arith in
    last_tall-append j a b1 (g ∷ []) ∙ rw tall_j refl

module _ (h : Heap) (key : Bytes) (l r : List Ghost) (below : Below key l)
    (above : NotBelow key r) where
  -- From the end of `front`, with a step for each node of `back` and each level.
  seek_loop_lem :
      (fuel i x : ℕ) (front back : List Ghost)
      → l ≡ front ++ back
      → length back + suc i ≤ fuel
      → ((j : ℕ) → j ≤ i → last_tall j head front ≡ x)
      → ((j : ℕ) → j ≤ i → Links h j head (row j (l ++ r)))
      → seek_loop fuel h (suc i) key x ≡ done (last_tall 0 head l)
  seek_loop_lem zero i x front back split le at links = absurd (omega arith)
  seek_loop_lem (suc fuel) i x front back split le at links =
      let whole : l ++ r ≡ front ++ (back ++ r) =
        ap (λ t. t ++ r) split ∙ append_assoc front back r in
      let all : Links h i head (row i (front ++ (back ++ r))) =
        rw whole at (links i (omega arith)) in
      let from_x : Links h i x (row i (back ++ r)) =
        rw (at i (omega arith)) at (Links-skip h i head front (back ++ r) all) in
      elim (next_tall i back) [
        | inl e ↦
            let here : row i (back ++ r) ≡ row i r =
              row-append i back r ∙ ap (λ t. t ++ row i r) e in
            seek_down fuel h i key x (row i r) (rw here at from_x) (row-NotBelow key i r above)
            ∙ seek_next fuel h i key x (last_tall 0 head l)
                (λ z. sym (
                  ap (last_tall 0 head) split
                  ∙ last_tall-append 0 head front back
                  ∙ ap (λ a. last_tall 0 a back) (at 0 (omega arith))
                  ∙ last_tall-row 0 x back (rw z at e)))
                (λ k z.
                  seek_loop_lem fuel k x front back split (omega (arith, z, le))
                    (λ j lt. at j (omega (arith, z))) (λ j lt. links j (omega (arith, z))))
        | inr (b1, g, b2, cut, e, tall) ↦
            let here : row i (back ++ r) ≡ g ∷ row i (b2 ++ r) =
              ap (row i) (ap (λ t. t ++ r) cut ∙ append_assoc b1 (g ∷ b2) r)
              ∙ row-tall i b1 g (b2 ++ r) e tall in
            let split' : l ≡ front ++ (b1 ++ g ∷ b2) = split ∙ ap (λ t. front ++ t) cut in
            let below_g =
              Below-middle key (front ++ b1) g b2
                (rw (split' ∙ sym (append_assoc front b1 (g ∷ b2))) at below) in
            let size = ap length cut in
            let sum = length-append b1 (g ∷ b2) in
            seek_right fuel h i key x g (row i (b2 ++ r)) (rw here at from_x) below_g
            ∙ seek_loop_lem fuel i g.addr ((front ++ b1) ++ g ∷ []) b2
                (split'
                  ∙ sym (append_assoc front b1 (g ∷ b2))
                  ∙ sym (append_assoc (front ++ b1) (g ∷ []) b2))
                (omega (arith, size, sum, le))
                (λ j lt. last_tall-tall i j head (front ++ b1) g lt tall) links
      ]

-- find_greater_or_equal on a valid skip list is the first node that is not below the key.
pub find_greater_or_equal_lem :
    (s : SkipList) (gs : List Ghost) (key : Bytes)
    → IsValid s gs
    → find_greater_or_equal s key ≡ done (first_of (upper key gs))
unfolding find_greater_or_equal
find_greater_or_equal_lem s gs key v =
    let l = lower key gs in
    let cut = lower-append-upper key gs in
    let size = ap length cut ∙ sym v.count in
    let sum = length-append l (upper key gs) in
    let end : seek_loop (s.node_count + s.current_level) s.heap s.current_level key head
        ≡ done (last_tall 0 head l) =
      seek_next (s.node_count + s.current_level) s.heap s.current_level key head
        (last_tall 0 head l) (λ z. absurd (omega (arith, z, v.some_level)))
        (λ k z.
          seek_loop_lem s.heap key l (upper key gs) (lower-Below key gs)
            (upper-NotBelow key gs v.sorted) (s.node_count + s.current_level) k head [] l refl
            (omega (arith, z, size, sum)) (λ j lt. refl)
            (λ j lt. rw cut (v.levels j (omega (arith, z, v.within))))) in
    rw end (forward-upper s gs v key)
