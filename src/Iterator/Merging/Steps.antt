-- ===== src/Iterator/Merging/Steps.antt =====
-- One step of the merge: the state of the queue and the children behind it.
use cpp_kvstore.Common.{ℕ, zero, suc, ◌<◌, ◌≡◌, ◌≢◌, refl, sym, ap, ◌∙◌, arith, true, false}
use cpp_kvstore.Common.{List, [], ◌∷◌, ◌++◌, some, inl, inr, ◌⊎◌, Bool-cases}
use cpp_kvstore.Common.{if◌then◌else◌, ◌==◌, length, get_elem?, set, All}
use cpp_kvstore.Common.{done}
use cpp_kvstore.Iterator.{IteratorEntry, Iterator}
use cpp_kvstore.Iterator.Spec.{Ascending, Yields}
use cpp_kvstore.Iterator.Merging.{HeapItem, push_child, advance}
use cpp_kvstore.Iterator.Merging.Heap.{Takes, Apart, Has, Apart-middle, Has-middle}

-- What is left to each child, by its index.
abbrev pub Rests : Type 0
Rests = ℕ → List IteratorEntry

abbrev pub rest_without : ℕ → List IteratorEntry → Rests → Rests
rest_without i es rem j = if j == i then es else rem j

-- The item stands for the first entry that its child has left.
abbrev pub Shown : ℕ → Rests → HeapItem → Type 0
Shown n rem it =
    (it.child_index < n) × (es : List IteratorEntry) × (rem it.child_index ≡ it.entry ∷ es)

module _ {A : Type 0} where
  pub get_elem?-set : (l : List A) (i : ℕ) (v : A) → i < length l → get_elem? (set l i v) i ≡ some v
  get_elem?-set [] i v lt = absurd (omega arith)
  get_elem?-set (x ∷ l) zero v lt = refl
  get_elem?-set (x ∷ l) (suc i) v lt = get_elem?-set l i v (omega arith)

  pub get_elem?-set_ne :
      (l : List A) (i j : ℕ) (v : A) → j ≢ i → get_elem? (set l i v) j ≡ get_elem? l j
  get_elem?-set_ne [] i j v ne = refl
  get_elem?-set_ne (x ∷ l) zero zero v ne = absurd (ne refl)
  get_elem?-set_ne (x ∷ l) zero (suc j) v ne = refl
  get_elem?-set_ne (x ∷ l) (suc i) zero v ne = refl
  get_elem?-set_ne (x ∷ l) (suc i) (suc j) v ne = get_elem?-set_ne l i j v (λ e. ne (ap suc e))

  pub length-set : (l : List A) (i : ℕ) (v : A) → length (set l i v) ≡ length l
  length-set [] i v = refl
  length-set (x ∷ l) zero v = refl
  length-set (x ∷ l) (suc i) v = ap suc (length-set l i v)

pub same_or : (i j : ℕ) → ((j == i) ≡ true) × (j ≡ i) ⊎ ((j == i) ≡ false) × (j ≢ i)
same_or i j = elim (Bool-cases (j == i)) [
  | inl e ↦ inl (e, ground (arith, e))
  | inr e ↦ inr (e, ground (arith, e))
]

module _ {S : Type 0} (I : Iterator S) where
  -- The children have these rests, and the queue holds the first entry of each that is not empty.
  pub record Queued (n : ℕ) (children : List S) (items : List HeapItem) (rem : Rests) : Type 0 where
    pub size : length children ≡ n
    pub child : (i : ℕ) → i < n → (s : S) × (get_elem? children i ≡ some s) × Yields I s (rem i)
    pub ascending : (i : ℕ) → i < n → Ascending (rem i)
    pub shown : All (Shown n rem) items
    pub apart : Apart items
    pub complete :
        (i : ℕ)
        → i < n
        → (e : IteratorEntry) (es : List IteratorEntry) → rem i ≡ e ∷ es
        → Has i e items

  -- What the push behind Next adds.
  abbrev pub pushed : ℕ → List IteratorEntry → List HeapItem → List HeapItem
  pushed idx [] items = items
  pushed idx (e ∷ es) items = record { child_index = idx; entry = e } ∷ items

  pub push_child-Yields :
      (idx : ℕ) (s : S) (items : List HeapItem) (es : List IteratorEntry)
      → Yields I s es
      → push_child I idx s items ≡ pushed idx es items
  unfolding push_child
  push_child-Yields idx s items [] y = rw y refl
  push_child-Yields idx s items (e ∷ es) y = rw (y.0, y.1) refl

  advance_lem :
      (idx : ℕ) (children : List S) (items : List HeapItem) (s : S) (e : IteratorEntry)
      (es : List IteratorEntry)
      → get_elem? children idx ≡ some s
      → Yields I s (e ∷ es)
      → (s' : S) × (advance I idx children items ≡ done (set children idx s', pushed idx es items))
        × Yields I s' es
  unfolding advance
  advance_lem idx children items s e es at y =
      let s' = y.2 in (s', rw (at, advance, y.3, push_child-Yields idx s' items es y.4) refl, y.4)

  Shown-others :
      (n idx : ℕ) (es : List IteratorEntry) (rem : Rests) (items : List HeapItem)
      → All (λ (y : HeapItem). y.child_index ≢ idx) items
      → All (Shown n rem) items
      → All (Shown n (rest_without idx es rem)) items
  Shown-others n idx es rem [] ne shown = tt
  Shown-others n idx es rem (x ∷ items) ne shown =
      let rest = Shown-others n idx es rem items ne.1 shown.1 in
      let away : (x.child_index == idx) ≡ false = ground (arith, ne.0) in
      let here : Shown n (rest_without idx es rem) x =
        ((shown.0).0, (shown.0).1, rw away ((shown.0).2)) in
      (here, rest)

  module _ (n : ℕ) (children : List S) (items : List HeapItem) (rem : Rests)
      (q : Queued n children items rem) (top : HeapItem) (rest : List HeapItem)
      (t : Takes top rest items) where
    -- Popping the top and moving its child on.
    pub advance-Queued :
        (es : List IteratorEntry)
        → top.child_index < n
        → rem top.child_index ≡ top.entry ∷ es
        → (p : List S × List HeapItem) × (advance I top.child_index children rest ≡ done p)
          × Queued n p.0 p.1 (rest_without top.child_index es rem)
          × (p.1 ≡ pushed top.child_index es rest)
    advance-Queued es lt at =
        let idx = top.child_index in
        let (s, here, y) = q.child idx lt in
        let (s', step, y') = advance_lem idx children rest s top.entry es here (rw at at y) in
        let apart_middle = Apart-middle t.front top t.back (rw t.before at q.apart) in
        let others : All (λ (x : HeapItem). x.child_index ≢ idx) rest = rw t.after apart_middle.1 in
        let apart_rest : Apart rest = rw t.after apart_middle.0 in
        let shown_rest : All (Shown n rem) rest =
          rw t.after (All-remove t.front t.back (rw t.before at q.shown)) in
        (
          (set children idx s', pushed idx es rest),
          step,
          record {
            size = length-set children idx s' ∙ q.size;
            child = λ i i_lt. elim (same_or idx i) [
              | inl (e, f) ↦
                  (s', rw f (get_elem?-set children idx s' (omega (arith, q.size))), rw e y')
              | inr (e, f) ↦
                  let (c, at_c, y_c) = q.child i i_lt in
                  (c, get_elem?-set_ne children idx i s' f ∙ at_c, rw e y_c)
            ];
            ascending = λ i i_lt. elim (same_or idx i) [
              | inl (e, f) ↦ rw e ((rw at at (q.ascending idx lt)).1)
              | inr (e, f) ↦ rw e (q.ascending i i_lt)
            ];
            shown = shown_pushed es (Shown-others n idx es rem rest others shown_rest);
            apart = apart_pushed es others apart_rest;
            complete = λ i i_lt e es' has. elim (same_or idx i) [
              | inl (f, g) ↦ complete_pushed es i e es' (sym g) (rw f at has)
              | inr (f, g) ↦
                  later es i e
                    (elim (Has-middle i e t.front top t.back
                      (rw t.before at (q.complete i i_lt e es' (rw f at has)))) [
                        | inl here ↦ absurd (g (sym here.0))
                        | inr there ↦ rw t.after there
                      ])
            ];
          },
          refl,
        )
      where
        All-remove :
            (front back : List HeapItem)
            → All (Shown n rem) (front ++ top ∷ back)
            → All (Shown n rem) (front ++ back)
        All-remove [] back h = h.1
        All-remove (x ∷ front) back h = (h.0, All-remove front back h.1)

        shown_pushed :
            (es' : List IteratorEntry)
            → All (Shown n (rest_without top.child_index es' rem)) rest
            → All (Shown n (rest_without top.child_index es' rem)) (pushed top.child_index es' rest)
        shown_pushed [] h = h
        shown_pushed (e ∷ es') h =
            let self : (top.child_index == top.child_index) ≡ true = ground arith in
            let here : Shown n (rest_without top.child_index (e ∷ es') rem)
                (record { child_index = top.child_index; entry = e }) =
              (lt, es', rw self refl) in
            (here, h)

        apart_pushed :
            (es' : List IteratorEntry)
            → All (λ (x : HeapItem). x.child_index ≢ top.child_index) rest
            → Apart rest
            → Apart (pushed top.child_index es' rest)
        apart_pushed [] o a = a
        apart_pushed (e ∷ es') o a = (o, a)

        complete_pushed :
            (es' : List IteratorEntry) (i : ℕ) (e : IteratorEntry) (es'' : List IteratorEntry)
            → top.child_index ≡ i
            → es' ≡ e ∷ es''
            → Has i e (pushed top.child_index es' rest)
        complete_pushed [] i e es'' at_i has = absurd (cc has)
        complete_pushed (x ∷ es') i e es'' at_i has = inl (at_i, cc has)

        later :
            (es' : List IteratorEntry) (i : ℕ) (e : IteratorEntry)
            → Has i e rest
            → Has i e (pushed top.child_index es' rest)
        later [] i e h = h
        later (x ∷ es') i e h = inr h
