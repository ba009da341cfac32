-- ===== src/Iterator/Merging/Yields.antt =====
-- FindMin and Next show the merge of what the children have left.
use cpp_kvstore.Common.{ℕ, zero, suc, ◌+◌, ◌≤◌, ◌<◌, ◌≡◌, refl, sym, ap, ◌∙◌, arith, true, false}
use cpp_kvstore.Common.{List, [], ◌∷◌, none, some, inl, inr, ◌⊎◌, Bool-cases}
use cpp_kvstore.Common.{length, length-insert, All-map, done}
use cpp_kvstore.Common.Bytes.{Bytes}
use cpp_kvstore.Common.Lex.{◌≺◌, bytes_eq_refl}
use cpp_kvstore.Iterator.{IteratorEntry, Iterator}
use cpp_kvstore.Iterator.Spec.{KeysAfter, Ascending, Yields, drop_key, drop_key-after}
use cpp_kvstore.Iterator.Merging.{
  HeapItem, MergingIterator, pop_top, advance, pop_key, find_min, next, merged_iterator,
}
use cpp_kvstore.Iterator.Merging.Heap.{Takes, count_key-le, pop_top-cases}
use cpp_kvstore.Iterator.Merging.Steps.{Rests, rest_without, Queued, advance-Queued, Shown}
use cpp_kvstore.Iterator.Merging.Runs.{
  FromKey, Least, Merges, Queued-empty, Shown-Takes, Least-top, FromKey-without, drop_twice,
  length-pushed, pop_key-Popped,
}
use cpp_kvstore.Iterator.Merging.Newest.{KeysAfter-drop_key, FromKey-Least}

-- How many entries n children have left.
abbrev pub total : ℕ → Rests → ℕ
total zero rem = 0
total (suc n) rem = length (rem n) + total n rem

length-drop_key : (k : Bytes) (es : List IteratorEntry) → length (drop_key k es) ≤ length es
length-drop_key k [] = omega arith
length-drop_key k (e ∷ es) = ground arith

total_le : (n : ℕ) (k : Bytes) (rem : Rests) → total n (λ i. drop_key k (rem i)) ≤ total n rem
total_le zero k rem = omega arith
total_le (suc n) k rem = omega (arith, length-drop_key k (rem n), total_le n k rem)

-- Dropping the key of an entry that is left leaves less.
total_lt :
    (n : ℕ) (rem : Rests) (i : ℕ) (e : IteratorEntry) (es : List IteratorEntry)
    → i < n
    → rem i ≡ e ∷ es
    → suc (total n (λ j. drop_key e.key (rem j))) ≤ total n rem
total_lt zero rem i e es lt at = absurd (omega arith)
total_lt (suc n) rem i e es lt at = elim (last n i lt) [
  | inl eq ↦
      let here : rem n ≡ e ∷ es = rw (← eq) at in
      let short : suc (length (drop_key e.key (rem n))) ≤ length (rem n) =
        rw (here, bytes_eq_refl e.key) (omega arith) in
      omega (arith, short, total_le n e.key rem)
  | inr below ↦ omega (arith, length-drop_key e.key (rem n), total_lt n rem i e es below at)
]
  where
    last : (n i : ℕ) → i < suc n → (i ≡ n) ⊎ (i < n)
    last n i lt = ground arith

module _ {S : Type 0} (I : Iterator S) (n : ℕ) where
  Queued-same :
      (children : List S) (items : List HeapItem) (rem rem' : Rests)
      → Queued I n children items rem
      → ((i : ℕ) → i < n → rem' i ≡ rem i)
      → Queued I n children items rem'
  Queued-same children items rem rem' q same = record {
    size = q.size;
    child = λ i lt. (let (s, at, y) = q.child i lt in (s, at, rw (same i lt) y));
    ascending = λ i lt. rw (same i lt) (q.ascending i lt);
    shown =
        All-map (Shown n rem) (Shown n rem') (λ x p. (p.0, p.1, same x.child_index p.0 ∙ p.2)) items
          q.shown;
    apart = q.apart;
    complete = λ i lt e es at. q.complete i lt e es (sym (same i lt) ∙ at);
  }

  -- The queue after the key was dropped.
  pop_key-dropped :
      (k : Bytes) (children : List S) (items : List HeapItem) (rem rem' : Rests)
      → Queued I n children items rem'
      → length items ≤ n
      → ((i : ℕ) → i < n → FromKey k (rem' i))
      → ((i : ℕ) → i < n → drop_key k (rem' i) ≡ rem i)
      → (p : List S × List HeapItem) × (pop_key I (length children) k children items ≡ done p)
        × Queued I n p.0 p.1 rem
        × (length p.1 ≤ n)
  pop_key-dropped k children items rem rem' q few from same =
      let (p, run, out) =
        pop_key-Popped I (length children) n k children items rem' q from
          (omega (arith, count_key-le k items, q.size, few)) in
      (
        p,
        run,
        Queued-same p.0 p.1 out.rem' rem out.queued (λ i lt. sym (out.drops i lt ∙ same i lt)),
        omega (arith, out.few, few),
      )

  find_min_empty :
      (m : MergingIterator S)
      → pop_top m.min_heap ≡ none
      → find_min I m ≡ done (record m { valid = false })
  unfolding find_min
  find_min_empty m e = rw (e, find_min) refl

  find_min_popped :
      (m : MergingIterator S) (top : HeapItem) (rest : List HeapItem) (p q : List S × List HeapItem)
      → pop_top m.min_heap ≡ some (top, rest)
      → advance I top.child_index m.children rest ≡ done p
      → pop_key I (length m.children) top.entry.key p.0 p.1 ≡ done q
      → find_min I m
        ≡ done (record { children = q.0; min_heap = q.1; valid = true; current_entry = top.entry })
  unfolding find_min
  find_min_popped m top rest p q e f g = rw (e, find_min, f, g) refl

  next_empty :
      (m : MergingIterator S) → m.min_heap ≡ [] → next I m ≡ done (record m { valid = false })
  unfolding next
  next_empty m e = elim (Bool-cases m.valid) [
    | inl v ↦
        rw (v, next, e)
          (ap
            (λ h. done (record {
              children = m.children;
              min_heap = h;
              valid = false;
              current_entry = m.current_entry;
            }))
            e)
    | inr v ↦ rw (v, next) refl
  ]

  next_more :
      (m : MergingIterator S) (x : HeapItem) (xs : List HeapItem) (p : List S × List HeapItem)
      → m.valid ≡ true
      → m.min_heap ≡ x ∷ xs
      → pop_key I (length m.children) m.current_entry.key m.children (x ∷ xs) ≡ done p
      → next I m ≡ find_min I (record m { children = p.0; min_heap = p.1 })
  unfolding next find_min
  next_more m x xs p v e f = rw (v, next, e, f) refl

  abbrev pub Shows : MergingIterator S → Rests → Type 0
  Shows m rem = (es : List IteratorEntry) × Yields (merged_iterator I) m es × Merges n rem es

  abbrev pub FindsMin : MergingIterator S → Rests → Type 0
  FindsMin m rem = (m' : MergingIterator S) × (find_min I m ≡ done m') × Shows m' rem

  heap_cases :
      (l : List HeapItem) → (l ≡ []) ⊎ ((x : HeapItem) × (xs : List HeapItem) × (l ≡ x ∷ xs))
  heap_cases [] = inl refl
  heap_cases (x ∷ xs) = inr (x, xs, refl)

  -- One step, if FindMin does its work on what the key leaves.
  show_next :
      (m : MergingIterator S) (rem : Rests)
      → m.valid ≡ true
      → Queued I n m.children m.min_heap rem
      → length m.min_heap ≤ n
      → ((i : ℕ) → i < n → KeysAfter m.current_entry.key (rem i))
      → ((m1 : MergingIterator S)
          → Queued I n m1.children m1.min_heap rem
          → length m1.min_heap ≤ n
          → FindsMin m1 rem)
      → (m' : MergingIterator S) × (next I m ≡ done m') × Shows m' rem
  show_next m rem v q few after find = elim (heap_cases m.min_heap) [
    | inl e ↦ (
      record m { valid = false },
      next_empty m e,
      ([], refl, Queued-empty I n m.children m.min_heap rem q e),
    )
    | inr (x, xs, e) ↦
        let key = m.current_entry.key in
        let (p, run, q1, few1) =
          pop_key-dropped key m.children m.min_heap rem rem q few
            (λ i lt.
              All-map (λ (y : IteratorEntry). key ≺ y.key)
                (λ (y : IteratorEntry). (key ≺ y.key) ⊎ (key ≡ y.key)) (λ y h. inl h) (rem i)
                (after i lt))
            (λ i lt. drop_key-after key (rem i) (after i lt)) in
        let (m', found, shows) = find (record m { children = p.0; min_heap = p.1 }) q1 few1 in
        (m', next_more m x xs p v e (rw e at run) ∙ found, shows)
  ]

  -- FindMin does its work on all that is shorter.
  abbrev Shorter : Rests → Type 0
  Shorter rem =
      (rem' : Rests)
      → suc (total n rem') ≤ total n rem
      → (m : MergingIterator S) → Queued I n m.children m.min_heap rem'
      → length m.min_heap ≤ n
      → FindsMin m rem'

  find_min_top :
      (m : MergingIterator S) (rem : Rests)
      → Queued I n m.children m.min_heap rem
      → length m.min_heap ≤ n
      → Shorter rem
      → (top : HeapItem) (rest : List HeapItem) → pop_top m.min_heap ≡ some (top, rest)
      → Takes top rest m.min_heap
      → FindsMin m rem
  find_min_top m rem q few find top rest popped t =
      let (idx_lt, es, at) = Shown-Takes I n rem m.min_heap top rest t q.shown in
      let k = top.entry.key in
      let least : Least n top.entry rem = (
        Least-top I n m.children m.min_heap rem q top t.least,
        (top.child_index, idx_lt, es, at),
      ) in
      let from = FromKey-Least n top.entry rem least in
      let up : Ascending (top.entry ∷ es) = rw at at (q.ascending top.child_index idx_lt) in
      let (p, step, q1, is_pushed) =
        advance-Queued I n m.children m.min_heap rem q top rest t es idx_lt at in
      let rem1 = rest_without top.child_index es rem in
      let dropped : Rests = λ i. drop_key k (rem i) in
      let few1 : length p.1 ≤ n = omega (
        arith,
        ap length is_pushed,
        length-pushed I top.child_index es rest,
        ap length t.before,
        ap length t.after,
        length-insert t.front top t.back,
        few,
      ) in
      let (p2, run, q2, few2) =
        pop_key-dropped k p.0 p.1 dropped rem1 q1 few1
          (FromKey-without I n k rem top.child_index es up.0 from)
          (λ i lt. drop_twice I n k rem top es at (bytes_eq_refl k) up.0 i) in
      let m1 : MergingIterator S = record {
        children = p2.0;
        min_heap = p2.1;
        valid = true;
        current_entry = top.entry;
      } in
      let run' : pop_key I (length m.children) k p.0 p.1 ≡ done p2 =
        ap (λ x. pop_key I x k p.0 p.1) (q.size ∙ sym q1.size) ∙ run in
      let less = total_lt n rem top.child_index top.entry es idx_lt at in
      let (m', moved, shown) =
        show_next m1 dropped refl q2 few2
          (λ i lt. KeysAfter-drop_key k (rem i) (q.ascending i lt) (from i lt))
          (find (λ i. drop_key k (rem i)) less) in
      (
        m1,
        find_min_popped m top rest p p2 popped step run',
        (top.entry ∷ shown.0, (refl, refl, m', moved, shown.1), (least, shown.2)),
      )

  find_min_step :
      (m : MergingIterator S) (rem : Rests)
      → Queued I n m.children m.min_heap rem
      → length m.min_heap ≤ n
      → Shorter rem
      → FindsMin m rem
  find_min_step m rem q few find = elim (pop_top-cases m.min_heap) [
    | inl (e, popped) ↦ (
      record m { valid = false },
      find_min_empty m popped,
      ([], refl, Queued-empty I n m.children m.min_heap rem q e),
    )
    | inr (top, rest, popped, t) ↦ find_min_top m rem q few find top rest popped t
  ]

  find_min_fuel :
      (fuel : ℕ) (m : MergingIterator S) (rem : Rests)
      → Queued I n m.children m.min_heap rem
      → length m.min_heap ≤ n
      → total n rem ≤ fuel
      → FindsMin m rem
  find_min_fuel zero m rem q few enough =
      find_min_step m rem q few (λ rem' less m1 q1 few1. absurd (omega (arith, less, enough)))
  find_min_fuel (suc fuel) m rem q few enough =
      find_min_step m rem q few
        (λ rem' less m1 q1 few1. find_min_fuel fuel m1 rem' q1 few1 (omega (arith, less, enough)))

  pub find_min_lem :
      (m : MergingIterator S) (rem : Rests)
      → Queued I n m.children m.min_heap rem
      → length m.min_heap ≤ n
      → FindsMin m rem
  find_min_lem m rem q few = find_min_fuel (total n rem) m rem q few (omega arith)
