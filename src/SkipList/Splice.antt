-- ===== src/SkipList/Splice.antt =====
-- A level after put has linked a node in: the same row, with the node at its place.
use cpp_kvstore.Common.{ℕ, ◌≡◌, ◌≢◌, refl, sym, ap, ◌∙◌}
use cpp_kvstore.Common.{List, [], ◌∷◌, ◌++◌, some, inl, inr, Bool-cases}
use cpp_kvstore.Common.{ltb, All, done}
use cpp_kvstore.Common.Bytes.{Bytes}
use cpp_kvstore.Common.Lex.{◌≺◌, ≺_irrefl}
use cpp_kvstore.SkipList.{Node, Heap, load, forward_at, key_of}
use cpp_kvstore.SkipList.Rows.{Ghost, row, first_of, Links, last_tall, Above, Sorted}
use cpp_kvstore.SkipList.Search.{IsNode}

-- The node in front and the nodes of the list stand at different addresses.
abbrev pub Distinct : ℕ → List Ghost → Type 0
Distinct a [] = Unit
Distinct a (g ∷ gs) = All (λ (x : Ghost). x.addr ≢ a) (g ∷ gs) × Distinct g.addr gs

-- The last node of a list, or the one in front.
abbrev pub last_of : ℕ → List Ghost → ℕ
last_of a [] = a
last_of a (g ∷ gs) = last_of g.addr gs

abbrev pub Avoids : ℕ → List Ghost → Type 0
Avoids a gs = All (λ (x : Ghost). x.addr ≢ a) gs

pub Avoids-row : (a i : ℕ) (gs : List Ghost) → Avoids a gs → Avoids a (row i gs)
Avoids-row a i [] h = tt
Avoids-row a i (g ∷ gs) h = elim (Bool-cases (ltb i g.height)) [
  | inl tall ↦ rw tall (h.0, Avoids-row a i gs h.1)
  | inr short ↦ rw short (Avoids-row a i gs h.1)
]

pub last_of-row : (i a : ℕ) (gs : List Ghost) → last_of a (row i gs) ≡ last_tall i a gs
last_of-row i a [] = refl
last_of-row i a (g ∷ gs) = elim (Bool-cases (ltb i g.height)) [
  | inl tall ↦ rw tall (last_of-row i g.addr gs)
  | inr short ↦ rw short (last_of-row i a gs)
]

-- Nodes with ascending keys are different ones.
Avoids-Above :
    (h : Heap) (a : ℕ) (k : Bytes) (n : Node) (gs : List Ghost)
    → load h a ≡ done n
    → n.key ≡ k
    → Above k gs
    → All (IsNode h) gs
    → Avoids a gs
Avoids-Above h a k n [] e f above nodes = tt
Avoids-Above h a k n (g ∷ gs) e f above nodes =
    let here : g.addr ≢ a = λ same.
      let m = nodes.0 in
      let one : m.node ≡ n = cc (m.loaded, e, same) in
      let keys : g.key ≡ k = sym m.key ∙ ap (λ (x : Node). x.key) one ∙ f in
      let before : k ≺ g.key = above.0 in ≺_irrefl k (rw keys at before) in
    (here, Avoids-Above h a k n gs e f above.1 nodes.1)

pub Avoids-later :
    (h : Heap) (g : Ghost) (gs : List Ghost)
    → IsNode h g
    → Above g.key gs
    → All (IsNode h) gs
    → Avoids g.addr gs
Avoids-later h g gs n above nodes = Avoids-Above h g.addr g.key n.node gs n.loaded n.key above nodes

pub Distinct-row :
    (h : Heap) (i a : ℕ) (gs : List Ghost)
    → Sorted gs
    → All (IsNode h) gs
    → Avoids a gs
    → Distinct a (row i gs)
Distinct-row h i a [] s nodes avoids = tt
Distinct-row h i a (g ∷ gs) s nodes avoids =
    let rest = Distinct-row h i g.addr gs s.1 nodes.1 (Avoids-later h g gs nodes.0 s.0 nodes.1) in
    let all = Avoids-row a i (g ∷ gs) avoids in
    elim (Bool-cases (ltb i g.height)) [
      | inl tall ↦
          let here : Avoids a (g ∷ row i gs) = (avoids.0, Avoids-row a i gs avoids.1) in
          rw tall (here, rest)
      | inr short ↦ rw short (Distinct-row h i a gs s.1 nodes.1 avoids.1)
    ]

Avoids-last : (a : ℕ) (g : Ghost) (gs : List Ghost) → Avoids a (g ∷ gs) → last_of g.addr gs ≢ a
Avoids-last a g [] h = h.0
Avoids-last a g (x ∷ gs) h = Avoids-last a x gs h.1

-- Pointers that are as before link the same row.
pub Links-same :
    (h h' : Heap) (i a : ℕ) (es : List Ghost)
    → forward_at h' i a ≡ forward_at h i a
    → All
        (λ (g : Ghost).
          (forward_at h' i g.addr ≡ forward_at h i g.addr) × (key_of h' g.addr ≡ key_of h g.addr))
        es
    → Links h i a es
    → Links h' i a es
Links-same h h' i a [] e same links = e ∙ links
Links-same h h' i a (g ∷ es) e same links =
    let rest = Links-same h h' i g.addr es (same.0).0 same.1 links.2 in
    (e ∙ links.0, (same.0).1 ∙ links.1, rest)

module _ (h h' : Heap) (i u : ℕ) (new : Ghost)
    (others : (b : ℕ) → b ≢ new.addr → b ≢ u → forward_at h' i b ≡ forward_at h i b)
    (keys : (b : ℕ) (k : Bytes) → key_of h b ≡ done k → key_of h' b ≡ done k)
    (new_key : key_of h' new.addr ≡ done new.key)
    (of_prev : forward_at h' i u ≡ done (some new.addr)) where
  Links-behind :
      (a : ℕ) (es : List Ghost)
      → forward_at h' i a ≡ forward_at h i a
      → Avoids new.addr es
      → Avoids u es
      → Links h i a es
      → Links h' i a es
  Links-behind a [] e x y links = e ∙ links
  Links-behind a (g ∷ es) e x y links =
      let rest = Links-behind g.addr es (others g.addr x.0 y.0) x.1 y.1 links.2 in
      (e ∙ links.0, keys g.addr g.key links.1, rest)

  Links-from_new :
      (es : List Ghost)
      → forward_at h' i new.addr ≡ done (first_of es)
      → Avoids new.addr es
      → Avoids u es
      → Links h i u es
      → Links h' i new.addr es
  Links-from_new [] e x y links = e
  Links-from_new (g ∷ es) e x y links =
      let rest = Links-behind g.addr es (others g.addr x.0 y.0) x.1 y.1 links.2 in
      (e, keys g.addr g.key links.1, rest)

  -- The row with the new node behind the last one of `es`.
  pub Links-splice :
      (a : ℕ) (es rs : List Ghost)
      → last_of a es ≡ u
      → a ≢ new.addr
      → Distinct a es
      → Avoids new.addr es
      → Avoids new.addr rs
      → Avoids u rs
      → forward_at h' i new.addr ≡ done (first_of rs)
      → Links h i a (es ++ rs)
      → Links h' i a (es ++ new ∷ rs)
  Links-splice a [] rs last apart distinct x y z e links =
      let at_u : forward_at h' i a ≡ done (some new.addr) = rw (sym last) at of_prev in
      (at_u, new_key, Links-from_new rs e y z (rw last at links))
  Links-splice a (g ∷ es) rs last apart distinct x y z e links =
      let not_last : a ≢ u = λ same. Avoids-last a g es distinct.0 (last ∙ sym same) in
      let rest = Links-splice g.addr es rs last x.0 distinct.1 x.1 y z e links.2 in
      (others a apart not_last ∙ links.0, keys g.addr g.key links.1, rest)
