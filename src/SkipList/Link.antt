-- ===== src/SkipList/Link.antt =====
-- The loop of put that splices a new node in, level by level.
use cpp_kvstore.Common.{ℕ, zero, suc, ◌+◌, ◌≤◌, ◌<◌, ◌≡◌, ◌≢◌, refl, sym, ◌∙◌, arith}
use cpp_kvstore.Common.{List, [], ◌∷◌, some, inl, inr, ◌⊎◌}
use cpp_kvstore.Common.{done}
use cpp_kvstore.SkipList.{Pointer, Heap, forward_at, set_forward, link}
use cpp_kvstore.SkipList.Frame.{Keeps, Sets, set_forward_lem, eq_split}

-- u i, u (i + 1), … : the predecessors on m levels from i on.
abbrev pub ups : ℕ → ℕ → (ℕ → ℕ) → List ℕ
ups zero i u = []
ups (suc m) i u = u i ∷ ups m (suc i) u

-- h' is h with the node `new` behind u j, and before p j, on the levels j from i on, m of them.
pub record Linked (h : Heap) (new i m : ℕ) (u : ℕ → ℕ) (p : ℕ → Pointer) (h' : Heap) : Type 0 where
  pub outside : (j b : ℕ) → (j < i) ⊎ (i + m ≤ j) → forward_at h' j b ≡ forward_at h j b
  pub others : (j b : ℕ) → b ≢ new → b ≢ u j → forward_at h' j b ≡ forward_at h j b
  pub of_new : (j : ℕ) → i ≤ j → j < i + m → forward_at h' j new ≡ done (p j)
  pub of_prev : (j : ℕ) → i ≤ j → j < i + m → forward_at h' j (u j) ≡ done (some new)
  pub keeps : Keeps h h'

Keeps-refl : (h : Heap) → Keeps h h
Keeps-refl h = ((λ b n e. (n, e, (refl, refl, refl))), refl)

Keeps-chain : (h h1 h2 : Heap) → Keeps h h1 → Keeps h1 h2 → Keeps h h2
Keeps-chain h h1 h2 k l = (
  (λ b n e.
      let (n1, e1, s1) = k.0 b n e in
      let (n2, e2, s2) = l.0 b n1 e1 in (n2, e2, (s2.0 ∙ s1.0, s2.1 ∙ s1.1, s2.2 ∙ s1.2))),
  l.1 ∙ k.1,
)

module _ (new : ℕ) (u : ℕ → ℕ) (p : ℕ → Pointer) (apart : (j : ℕ) → u j ≢ new) where
  link_step :
      (h h1 h2 h' : Heap) (i : ℕ) (us : List ℕ)
      → forward_at h i (u i) ≡ done (p i)
      → set_forward h i new (p i) ≡ done h1
      → set_forward h1 i (u i) (some new) ≡ done h2
      → link h2 new (suc i) us ≡ done h'
      → link h new i (u i ∷ us) ≡ done h'
  unfolding link
  link_step h h1 h2 h' i us e e1 e2 e' = rw (e, e1, e2) e'

  Linked-suc :
      (h h1 h2 h' : Heap) (i m : ℕ)
      → Sets h i new (p i) h1
      → Sets h1 i (u i) (some new) h2
      → Linked h2 new (suc i) m u p h'
      → Linked h new i (suc m) u p h'
  Linked-suc h h1 h2 h' i m s1 s2 rest =
      let level = (λ (j : ℕ) (b : ℕ) (ne : j ≢ i). s2.other_level j b ne ∙ s1.other_level j b ne) in
      let new_apart : new ≢ u i = λ e. apart i (sym e) in
      record {
        outside = λ j b out.
            rest.outside j b (elim out [ inl lt ↦ inl (omega arith) | inr ge ↦ inr (omega arith) ])
            ∙ level j b (elim out [ inl lt ↦ (λ e. omega arith) | inr ge ↦ (λ e. omega arith) ]);
        others = λ j b b_new b_u. rest.others j b b_new b_u ∙ elim (eq_split i j) [
          | inl e ↦ s2.other_node j b (rw e at b_u) ∙ s1.other_node j b b_new
          | inr ne ↦ level j b ne
        ];
        of_new = λ j low high. elim (eq_split i j) [
          | inl e ↦
              rw e
                (rest.outside i new (inl (omega arith)) ∙ s2.other_node i new new_apart ∙ s1.here)
          | inr ne ↦ rest.of_new j (omega arith) (omega arith)
        ];
        of_prev = λ j low high. elim (eq_split i j) [
          | inl e ↦ rw e (rest.outside i (u i) (inl (omega arith)) ∙ s2.here)
          | inr ne ↦ rest.of_prev j (omega arith) (omega arith)
        ];
        keeps = Keeps-chain h h2 h' (Keeps-chain h h1 h2 s1.keeps s2.keeps) rest.keeps;
      }

  -- The loop ends with the node linked in, if its predecessors and the node have these levels.
  pub link_lem :
      (m : ℕ) (h : Heap) (i : ℕ)
      → ((j : ℕ) → i ≤ j → j < i + m → forward_at h j (u j) ≡ done (p j))
      → ((j : ℕ) → i ≤ j → j < i + m → (q : Pointer) × (forward_at h j new ≡ done q))
      → (h' : Heap) × (link h new i (ups m i u) ≡ done h') × Linked h new i m u p h'
  link_lem zero h i prev tall = (
    h,
    unfold link in refl,
    record {
      outside = λ j b out. refl;
      others = λ j b x y. refl;
      of_new = λ j low high. absurd (omega arith);
      of_prev = λ j low high. absurd (omega arith);
      keeps = Keeps-refl h;
    },
  )
  link_lem (suc m) h i prev tall =
      let (q, new_has) = tall i (omega arith) (omega arith) in
      let (h1, e1, s1) = set_forward_lem h i new q (p i) new_has in
      let prev1 : forward_at h1 i (u i) ≡ done (p i) =
        s1.other_node i (u i) (apart i) ∙ prev i (omega arith) (omega arith) in
      let (h2, e2, s2) = set_forward_lem h1 i (u i) (p i) (some new) prev1 in
      let level = (λ (j : ℕ) (b : ℕ) (ne : j ≢ i). s2.other_level j b ne ∙ s1.other_level j b ne) in
      let (h', e', rest) =
        link_lem m h2 (suc i)
          (λ j low high. level j (u j) (λ e. omega arith) ∙ prev j (omega arith) (omega arith))
          (λ j low high.
            let (r, f) = tall j (omega arith) (omega arith) in
            (r, level j new (λ e. omega arith) ∙ f)) in
      (
        h',
        link_step h h1 h2 h' i (ups m (suc i) u) (prev i (omega arith) (omega arith)) e1 e2 e',
        Linked-suc h h1 h2 h' i m s1 s2 rest,
      )
