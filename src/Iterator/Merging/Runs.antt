-- ===== src/Iterator/Merging/Runs.antt =====
-- A MergingIterator over children in ascending order shows each key once, in ascending order, with
-- the entry of the highest sequence number.
use cpp_kvstore.Common.{ℕ, zero, suc, ◌≤◌, ◌<◌, ◌≡◌, refl, sym, ap, ◌∙◌, arith, true, false}
use cpp_kvstore.Common.{List, [], ◌∷◌, ◌++◌, none, some, inl, inr, ◌⊎◌, Bool-cases}
use cpp_kvstore.Common.{length, length-insert, All, All-map}
use cpp_kvstore.Common.{done}
use cpp_kvstore.Common.Bytes.{Bytes}
use cpp_kvstore.Common.Lex.{◌≺◌, ≺_trans, bytes_eq, bytes_eq→eq, bytes_eq_refl}
use cpp_kvstore.Iterator.{IteratorEntry, Iterator}
use cpp_kvstore.Iterator.Spec.{KeysAfter, Ascending, drop_key, drop_key-after, bytes_eq-after}
use cpp_kvstore.Iterator.Merging.{HeapItem, pop_top, advance, pop_key}
use cpp_kvstore.Iterator.Merging.Heap.{
  Takes, AllPreceded, AllPreceded-Has, Precedes, count_key, count_key-middle, pop_top-cases,
}
use cpp_kvstore.Iterator.Merging.Steps.{
  Rests, rest_without, Queued, advance-Queued, pushed, same_or, Shown,
}

abbrev pub FromKey : Bytes → List IteratorEntry → Type 0
FromKey k es = All (λ (e : IteratorEntry). (k ≺ e.key) ⊎ (k ≡ e.key)) es

-- The entry is the first of one child, its key is no later than any other's, and of the entries
-- with its key none has a higher sequence number.
abbrev pub Least : ℕ → IteratorEntry → Rests → Type 0
Least n e rem =
    ((i : ℕ) → i < n → All (λ (x : IteratorEntry). Precedes e x) (rem i))
    × ((i : ℕ) × (i < n) × (es : List IteratorEntry) × (rem i ≡ e ∷ es))

-- The merge of n lists: time and again the least entry, and its key dropped from all lists.
abbrev pub Merges : ℕ → Rests → List IteratorEntry → Type 0
Merges n rem [] = (i : ℕ) → i < n → rem i ≡ []
Merges n rem (e ∷ es) = Least n e rem × Merges n (λ i. drop_key e.key (rem i)) es

list_cases :
    (l : List IteratorEntry)
    → (l ≡ []) ⊎ ((e : IteratorEntry) × (es : List IteratorEntry) × (l ≡ e ∷ es))
list_cases [] = inl refl
list_cases (e ∷ es) = inr (e, es, refl)

Precedes-after :
    (a e : IteratorEntry) (es : List IteratorEntry)
    → Precedes a e
    → KeysAfter e.key es
    → All (λ (x : IteratorEntry). Precedes a x) es
Precedes-after a e [] p after = tt
Precedes-after a e (x ∷ es) (inl p) after =
    (inl (≺_trans a.key e.key x.key p after.0), Precedes-after a e es (inl p) after.1)
Precedes-after a e (x ∷ es) (inr p) after =
    (inl (rw (p.0) (after.0)), Precedes-after a e es (inr p) after.1)

after_of_Precedes : (k : Bytes) (a e : IteratorEntry) → k ≺ a.key → Precedes a e → k ≺ e.key
after_of_Precedes k a e lt (inl p) = ≺_trans k a.key e.key lt p
after_of_Precedes k a e lt (inr p) = rw (← p.0) lt

module _ {S : Type 0} (I : Iterator S) where
  pub Queued-empty :
      (n : ℕ) (children : List S) (items : List HeapItem) (rem : Rests)
      → Queued I n children items rem
      → items ≡ []
      → (i : ℕ) → i < n
      → rem i ≡ []
  Queued-empty n children items rem q e i lt = elim (list_cases (rem i)) [
    | inl none_left ↦ none_left
    | inr (x, xs, f) ↦ absurd (rw e at (q.complete i lt x xs f))
  ]

  -- What holds of an item of the queue.
  pub Shown-Takes :
      (n : ℕ) (rem : Rests) (items : List HeapItem) (top : HeapItem) (rest : List HeapItem)
      → Takes top rest items
      → All (Shown n rem) items
      → Shown n rem top
  Shown-Takes n rem items top rest t shown = middle t.front t.back (rw t.before at shown)
    where
      middle :
          (front back : List HeapItem) → All (Shown n rem) (front ++ top ∷ back) → Shown n rem top
      middle [] back h = h.0
      middle (x ∷ front) back h = middle front back h.1

  -- Every entry that is left follows the top of the queue.
  pub Least-top :
      (n : ℕ) (children : List S) (items : List HeapItem) (rem : Rests)
      → Queued I n children items rem
      → (top : HeapItem) → AllPreceded top.entry items
      → (i : ℕ) → i < n
      → All (λ (x : IteratorEntry). Precedes top.entry x) (rem i)
  Least-top n children items rem q top least i lt = elim (list_cases (rem i)) [
    | inl e ↦ rw e tt
    | inr (x, xs, e) ↦
        let first = AllPreceded-Has top.entry x i items least (q.complete i lt x xs e) in
        let up : Ascending (x ∷ xs) = rw e at (q.ascending i lt) in
        rw e (first, Precedes-after top.entry x xs first up.0)
  ]

  pub record Popped (n : ℕ) (k : Bytes) (items : List HeapItem) (rem : Rests)
      (p : List S × List HeapItem) : Type 0 where
    pub rem' : Rests
    pub queued : Queued I n p.0 p.1 rem'
    pub drops : (i : ℕ) → i < n → rem' i ≡ drop_key k (rem i)
    pub few : length p.1 ≤ length items

  pop_key_empty :
      (fuel : ℕ) (k : Bytes) (children : List S) (items : List HeapItem)
      → pop_top items ≡ none
      → pop_key I fuel k children items ≡ done (children, items)
  unfolding pop_key
  pop_key_empty zero k children items e = rw (e, pop_key) refl
  pop_key_empty (suc fuel) k children items e = rw (e, pop_key) refl

  pop_key_other :
      (fuel : ℕ) (k : Bytes) (children : List S) (items : List HeapItem) (top : HeapItem)
      (rest : List HeapItem)
      → pop_top items ≡ some (top, rest)
      → bytes_eq top.entry.key k ≡ false
      → pop_key I fuel k children items ≡ done (children, items)
  unfolding pop_key
  pop_key_other zero k children items top rest e f = rw (e, pop_key, f) refl
  pop_key_other (suc fuel) k children items top rest e f = rw (e, pop_key, f) refl

  pop_key_same :
      (fuel : ℕ) (k : Bytes) (children : List S) (items : List HeapItem) (top : HeapItem)
      (rest : List HeapItem) (p : List S × List HeapItem)
      → pop_top items ≡ some (top, rest)
      → bytes_eq top.entry.key k ≡ true
      → advance I top.child_index children rest ≡ done p
      → pop_key I (suc fuel) k children items ≡ pop_key I fuel k p.0 p.1
  unfolding pop_key
  pop_key_same fuel k children items top rest p e f g = rw (e, pop_key, f, g) refl

  FromKey-top :
      (n : ℕ) (k : Bytes) (rem : Rests) (top : HeapItem)
      → ((i : ℕ) → i < n → FromKey k (rem i))
      → Shown n rem top
      → (k ≺ top.entry.key) ⊎ (k ≡ top.entry.key)
  FromKey-top n k rem top from shown =
      let at : FromKey k (top.entry ∷ shown.1) = rw (shown.2) at (from top.child_index shown.0) in
      at.0

  count_pushed :
      (k : Bytes) (idx : ℕ) (es : List IteratorEntry) (items : List HeapItem)
      → KeysAfter k es
      → count_key k (pushed I idx es items) ≡ count_key k items
  count_pushed k idx [] items after = refl
  count_pushed k idx (e ∷ es) items after = rw (bytes_eq-after k e.key after.0) refl

  pub length-pushed :
      (idx : ℕ) (es : List IteratorEntry) (items : List HeapItem)
      → length (pushed I idx es items) ≤ suc (length items)
  length-pushed idx [] items = omega arith
  length-pushed idx (e ∷ es) items = omega arith

  abbrev pub PopsTo : ℕ → ℕ → Bytes → List S → List HeapItem → Rests → Type 0
  PopsTo fuel n k children items rem =
      (p : List S × List HeapItem) × (pop_key I fuel k children items ≡ done p)
      × Popped n k items rem p

  -- Either the top has another key, and nothing is popped, or it has this one.
  pop_key_split :
      (n : ℕ) (k : Bytes) (children : List S) (items : List HeapItem) (rem : Rests)
      → Queued I n children items rem
      → ((i : ℕ) → i < n → FromKey k (rem i))
      → ((fuel : ℕ) → PopsTo fuel n k children items rem)
        ⊎ ((top : HeapItem) × (rest : List HeapItem) × (pop_top items ≡ some (top, rest))
            × Takes top rest items
            × (bytes_eq top.entry.key k ≡ true))
  pop_key_split n k children items rem q from = elim (pop_top-cases items) [
    | inl (e, popped) ↦
        let empty = Queued-empty n children items rem q e in
        inl (λ fuel. (
          (children, items),
          pop_key_empty fuel k children items popped,
          record {
            rem' = rem;
            queued = q;
            drops = λ i lt. rw (empty i lt) refl;
            few = omega arith;
          },
        ))
    | inr (top, rest, popped, t) ↦ elim (Bool-cases (bytes_eq top.entry.key k)) [
      | inr other ↦
          let shown = Shown-Takes n rem items top rest t q.shown in
          let after : k ≺ top.entry.key = elim (FromKey-top n k rem top from shown) [
            | inl lt ↦ lt
            | inr eq ↦ absurd (cc (other, bytes_eq_refl k, eq))
          ] in
          inl (λ fuel. (
            (children, items),
            pop_key_other fuel k children items top rest popped other,
            record {
              rem' = rem;
              queued = q;
              drops = λ i lt. sym (
                  drop_key-after k (rem i) (
                    All-map (λ (x : IteratorEntry). Precedes top.entry x)
                      (λ (x : IteratorEntry). k ≺ x.key)
                      (λ x p. after_of_Precedes k top.entry x after p) (rem i)
                      (Least-top n children items rem q top t.least i lt)));
              few = omega arith;
            },
          ))
      | inl same ↦ inr (top, rest, popped, t, same)
    ]
  ]

  -- What the advance of one child with the key changes.
  pub drop_twice :
      (n : ℕ) (k : Bytes) (rem : Rests) (top : HeapItem) (es : List IteratorEntry)
      → rem top.child_index ≡ top.entry ∷ es
      → bytes_eq top.entry.key k ≡ true
      → KeysAfter k es
      → (i : ℕ) → drop_key k (rest_without top.child_index es rem i) ≡ drop_key k (rem i)
  drop_twice n k rem top es at same after i = elim (same_or top.child_index i) [
    | inl (e, f) ↦ rw (e, f, at, same) (drop_key-after k es after)
    | inr (e, f) ↦ rw e refl
  ]

  pub FromKey-without :
      (n : ℕ) (k : Bytes) (rem : Rests) (idx : ℕ) (es : List IteratorEntry)
      → KeysAfter k es
      → ((i : ℕ) → i < n → FromKey k (rem i))
      → (i : ℕ) → i < n
      → FromKey k (rest_without idx es rem i)
  FromKey-without n k rem idx es after from i lt = elim (same_or idx i) [
    | inl (e, f) ↦ rw e (
        All-map (λ (x : IteratorEntry). k ≺ x.key)
          (λ (x : IteratorEntry). (k ≺ x.key) ⊎ (k ≡ x.key)) (λ x p. inl p) es after)
    | inr (e, f) ↦ rw e (from i lt)
  ]

  -- The loop pops the entries with the key, one of each child, if no entry is before it.
  pub pop_key-Popped :
      (fuel n : ℕ) (k : Bytes) (children : List S) (items : List HeapItem) (rem : Rests)
      → Queued I n children items rem
      → ((i : ℕ) → i < n → FromKey k (rem i))
      → count_key k items ≤ fuel
      → PopsTo fuel n k children items rem
  pop_key-Popped zero n k children items rem q from enough =
      elim (pop_key_split n k children items rem q from) [
        | inl stop ↦ stop 0
        | inr (top, rest, popped, t, same) ↦
            absurd
              (omega (arith, count_key-middle k t.front top t.back same, ap (count_key k) t.before))
      ]
  pop_key-Popped (suc fuel) n k children items rem q from enough =
      elim (pop_key_split n k children items rem q from) [
        | inl stop ↦ stop (suc fuel)
        | inr (top, rest, popped, t, same) ↦
            let (idx_lt, es, at) = Shown-Takes n rem items top rest t q.shown in
            let up : Ascending (top.entry ∷ es) = rw at at (q.ascending top.child_index idx_lt) in
            let key = bytes_eq→eq top.entry.key k same in
            let after : KeysAfter k es = rw key at up.0 in
            let (p, step, q1, is_pushed) =
              advance-Queued I n children items rem q top rest t es idx_lt at in
            let count = ap (count_key k) is_pushed ∙ count_pushed k top.child_index es rest after in
            let count_rest =
              ap (count_key k) t.before ∙ count_key-middle k t.front top t.back same in
            let same_rest = ap (count_key k) t.after in
            let rem1 = rest_without top.child_index es rem in
            let (p2, run, out) =
              pop_key-Popped fuel n k p.0 p.1 rem1 q1
                (FromKey-without n k rem top.child_index es after from)
                (omega (arith, count, count_rest, same_rest, enough)) in
            (
              p2,
              pop_key_same fuel k children items top rest p popped same step ∙ run,
              record {
                rem' = out.rem';
                queued = out.queued;
                drops = λ i lt. out.drops i lt ∙ drop_twice n k rem top es at same after i;
                few = omega (
                  arith,
                  out.few,
                  ap length is_pushed,
                  length-pushed top.child_index es rest,
                  ap length t.before,
                  ap length t.after,
                  length-insert t.front top t.back,
                );
              },
            )
      ]
