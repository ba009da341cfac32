-- ===== src/Iterator/Merging/Start.antt =====
-- The constructor of MergingIterator and Seek, over children whose entries ascend.
use cpp_kvstore.Common.{ℕ, zero, suc, ◌+◌, ◌≤◌, ◌<◌, ◌≡◌, ◌≢◌, refl, ap, ◌∙◌, arith, false}
use cpp_kvstore.Common.{List, [], ◌∷◌, some, inl, inr}
use cpp_kvstore.Common.{length, get_elem?, All, All-map, Run, done}
use cpp_kvstore.Common.Bytes.{Bytes}
use cpp_kvstore.Iterator.{IteratorEntry, Iterator, no_entry}
use cpp_kvstore.Iterator.Spec.{Ascending, Yields}
use cpp_kvstore.Iterator.Merging.{
  HeapItem, MergingIterator, push_children, find_min, merging_iterator, seek_children, seek,
  merged_iterator,
}
use cpp_kvstore.Iterator.Merging.Heap.{Apart, Has}
use cpp_kvstore.Iterator.Merging.Steps.{Rests, Shown, Queued, pushed, push_child-Yields}
use cpp_kvstore.Iterator.Merging.Newest.{Merged, Merges-Merged}
use cpp_kvstore.Iterator.Merging.Yields.{find_min_lem}

-- The lists by their index, and nothing behind the last.
abbrev pub rest_at : List (List IteratorEntry) → Rests
rest_at [] i = []
rest_at (l ∷ ls) zero = l
rest_at (l ∷ ls) (suc i) = rest_at ls i

module _ {S : Type 0} (I : Iterator S) where
  -- Each child shows one of the lists, in this order, and the list ascends.
  abbrev pub ShowsEach : List S → List (List IteratorEntry) → Type 0
  ShowsEach [] [] = Unit
  ShowsEach [] (l ∷ ls) = ⊥
  ShowsEach (s ∷ children) [] = ⊥
  ShowsEach (s ∷ children) (l ∷ ls) = Yields I s l × Ascending l × ShowsEach children ls

  -- The first entries of the lists, pushed one after another.
  abbrev heads : ℕ → List (List IteratorEntry) → List HeapItem → List HeapItem
  heads i [] items = items
  heads i (l ∷ ls) items = heads (suc i) ls (pushed I i l items)

  push_children-heads :
      (i : ℕ) (children : List S) (ls : List (List IteratorEntry)) (items : List HeapItem)
      → ShowsEach children ls
      → push_children I i children items ≡ heads i ls items
  unfolding push_children
  push_children-heads i [] [] items h = refl
  push_children-heads i [] (l ∷ ls) items h = absurd h
  push_children-heads i (s ∷ children) [] items h = absurd h
  push_children-heads i (s ∷ children) (l ∷ ls) items h =
      rw (push_child-Yields I i s items l h.0)
        (push_children-heads (suc i) children ls (pushed I i l items) h.2)

  length-ShowsEach :
      (children : List S) (ls : List (List IteratorEntry))
      → ShowsEach children ls
      → length children ≡ length ls
  length-ShowsEach [] [] h = refl
  length-ShowsEach [] (l ∷ ls) h = absurd h
  length-ShowsEach (s ∷ children) [] h = absurd h
  length-ShowsEach (s ∷ children) (l ∷ ls) h = ap suc (length-ShowsEach children ls h.2)

  child_at :
      (children : List S) (ls : List (List IteratorEntry))
      → ShowsEach children ls
      → (i : ℕ) → i < length children
      → ((s : S) × (get_elem? children i ≡ some s) × Yields I s (rest_at ls i))
        × Ascending (rest_at ls i)
  child_at [] ls h i lt = absurd (omega arith)
  child_at (s ∷ children) [] h i lt = absurd h
  child_at (s ∷ children) (l ∷ ls) h zero lt = ((s, refl, h.0), h.1)
  child_at (s ∷ children) (l ∷ ls) h (suc i) lt = child_at children ls (h.2) i (omega arith)

  length-heads :
      (i : ℕ) (ls : List (List IteratorEntry)) (items : List HeapItem)
      → length (heads i ls items) ≤ length items + length ls
  length-heads i [] items = omega arith
  length-heads i ([] ∷ ls) items = omega (arith, length-heads (suc i) ls items)
  length-heads i ((e ∷ l) ∷ ls) items =
      omega (arith, length-heads (suc i) ls (pushed I i (e ∷ l) items))

  abbrev Below : ℕ → List HeapItem → Type 0
  Below i items = All (λ (x : HeapItem). x.child_index < i) items

  Below-suc : (i : ℕ) (items : List HeapItem) → Below i items → Below (suc i) items
  Below-suc i items =
      All-map (λ (x : HeapItem). x.child_index < i) (λ (x : HeapItem). x.child_index < suc i)
        (λ x lt. omega arith) items

  Apart-heads :
      (i : ℕ) (ls : List (List IteratorEntry)) (items : List HeapItem)
      → Below i items
      → Apart items
      → Apart (heads i ls items)
  Apart-heads i [] items below apart = apart
  Apart-heads i ([] ∷ ls) items below apart =
      Apart-heads (suc i) ls items (Below-suc i items below) apart
  Apart-heads i ((e ∷ l) ∷ ls) items below apart =
      let ne =
        All-map (λ (x : HeapItem). x.child_index < i) (λ (x : HeapItem). x.child_index ≢ i)
          (λ x lt eq. omega arith) items below in
      Apart-heads (suc i) ls (pushed I i (e ∷ l) items) ((omega arith, Below-suc i items below))
        (ne, apart)

  Has-heads :
      (i : ℕ) (ls : List (List IteratorEntry)) (items : List HeapItem) (j : ℕ) (e : IteratorEntry)
      → Has j e items
      → Has j e (heads i ls items)
  Has-heads i [] items j e has = has
  Has-heads i ([] ∷ ls) items j e has = Has-heads (suc i) ls items j e has
  Has-heads i ((x ∷ l) ∷ ls) items j e has =
      Has-heads (suc i) ls (pushed I i (x ∷ l) items) j e (inr has)

  heads_complete :
      (i : ℕ) (ls : List (List IteratorEntry)) (items : List HeapItem) (j : ℕ) (e : IteratorEntry)
      (es : List IteratorEntry)
      → rest_at ls j ≡ e ∷ es
      → Has (i + j) e (heads i ls items)
  heads_complete i [] items j e es at = absurd (cc at)
  heads_complete i ([] ∷ ls) items zero e es at = absurd (cc at)
  heads_complete i ((x ∷ l) ∷ ls) items zero e es at =
      let same : x ≡ e = cc at in
      Has-heads (suc i) ls (pushed I i (x ∷ l) items) (i + 0) e (inl (omega arith, same))
  heads_complete i (l ∷ ls) items (suc j) e es at =
      let at_j : i + suc j ≡ suc i + j = omega arith in
      rw at_j (heads_complete (suc i) ls (pushed I i l items) j e es at)

  Shown-heads :
      (n i : ℕ) (rem : Rests) (ls : List (List IteratorEntry)) (items : List HeapItem)
      → i + length ls ≤ n
      → ((j : ℕ) → rem (i + j) ≡ rest_at ls j)
      → All (Shown n rem) items
      → All (Shown n rem) (heads i ls items)
  Shown-heads n i rem [] items fit same shown = shown
  Shown-heads n i rem ([] ∷ ls) items fit same shown =
      Shown-heads n (suc i) rem ls items (omega arith) (λ j. ap rem (omega arith) ∙ same (suc j))
        shown
  Shown-heads n i rem ((e ∷ l) ∷ ls) items fit same shown =
      let here : Shown n rem (record { child_index = i; entry = e }) =
        (omega arith, l, ap rem (omega arith) ∙ same 0) in
      Shown-heads n (suc i) rem ls (pushed I i (e ∷ l) items) (omega arith)
        (λ j. ap rem (omega arith) ∙ same (suc j)) (here, shown)

  Queued-start :
      (children : List S) (ls : List (List IteratorEntry))
      → ShowsEach children ls
      → Queued I (length children) children (heads 0 ls []) (rest_at ls)
  Queued-start children ls h = record {
    size = refl;
    child = λ i lt. (child_at children ls h i lt).0;
    ascending = λ i lt. (child_at children ls h i lt).1;
    shown =
        Shown-heads (length children) 0 (rest_at ls) ls []
          (omega (arith, length-ShowsEach children ls h)) (λ j. ap (rest_at ls) (omega arith)) tt;
    apart = Apart-heads 0 ls [] tt tt;
    complete = λ i lt e es at.
        (let same : i ≡ 0 + i = omega arith in rw same (heads_complete 0 ls [] i e es at));
  }

  -- FindMin on a state whose queue was just filled.
  abbrev ShowsMerge : List (List IteratorEntry) → Run (MergingIterator S) → Type 0
  ShowsMerge ls r =
      (m : MergingIterator S) × (r ≡ done m)
      × ((es : List IteratorEntry) × Yields (merged_iterator I) m es
          × Merged (length ls) (rest_at ls) es)

  find_min_start :
      (m : MergingIterator S) (ls : List (List IteratorEntry))
      → ShowsEach m.children ls
      → m.min_heap ≡ push_children I 0 m.children []
      → ShowsMerge ls (find_min I m)
  find_min_start m ls h filled =
      let n = length m.children in
      let items = filled ∙ push_children-heads 0 m.children ls [] h in
      let q : Queued I n m.children m.min_heap (rest_at ls) =
        rw items (Queued-start m.children ls h) in
      let size = length-ShowsEach m.children ls h in
      let (m', found, shown) =
        find_min_lem I n m (rest_at ls) q
          (omega (arith, ap length items, length-heads 0 ls [], size)) in
      (
        m',
        found,
        (
          shown.0,
          shown.1,
          rw (← size) (Merges-Merged n (rest_at ls) (shown.0) (shown.2) q.ascending),
        ),
      )

  -- If each child shows the entries of an ascending list, the constructor of MergingIterator returns
  -- an iterator that shows, in ascending order, each key of the lists once, with an entry that has
  -- the highest sequence number among theirs.
  pub merging_iterator_lem :
      (children : List S) (ls : List (List IteratorEntry))
      → ShowsEach children ls
      → (m : MergingIterator S) × (merging_iterator I children ≡ done m)
        × ((es : List IteratorEntry) × Yields (merged_iterator I) m es
            × Merged (length ls) (rest_at ls) es)
  unfolding merging_iterator
  merging_iterator_lem children ls h =
      find_min_start
        (record {
          children = children;
          min_heap = push_children I 0 children [];
          valid = false;
          current_entry = no_entry;
        })
        ls h refl

  -- Each child's Seek returns a child that shows one of the lists, in this order.
  abbrev pub SeeksEach : Bytes → List S → List (List IteratorEntry) → Type 0
  SeeksEach target [] [] = Unit
  SeeksEach target [] (l ∷ ls) = ⊥
  SeeksEach target (s ∷ children) [] = ⊥
  SeeksEach target (s ∷ children) (l ∷ ls) =
      ((s' : S) × (I.seek s target ≡ done s') × Yields I s' l)
      × Ascending l
      × SeeksEach target children ls

  seek_children_lem :
      (target : Bytes) (children : List S) (ls : List (List IteratorEntry))
      → SeeksEach target children ls
      → (found : List S) × (seek_children I children target ≡ done found) × ShowsEach found ls
  unfolding seek_children
  seek_children_lem target [] [] h = ([], refl, tt)
  seek_children_lem target [] (l ∷ ls) h = absurd h
  seek_children_lem target (s ∷ children) [] h = absurd h
  seek_children_lem target (s ∷ children) (l ∷ ls) h =
      let (s', at, y) = h.0 in
      let (rest, run, shows) = seek_children_lem target children ls h.2 in
      (s' ∷ rest, rw (at, seek_children, run) refl, (y, h.1, shows))

  -- If Seek of each child returns one that shows the entries of an ascending list, Seek of the
  -- merge returns an iterator that shows, in ascending order, each key of the lists once, with an
  -- entry that has the highest sequence number among theirs, whatever it showed before.
  pub seek_lem :
      (m : MergingIterator S) (target : Bytes) (ls : List (List IteratorEntry))
      → SeeksEach target m.children ls
      → (m' : MergingIterator S) × (seek I m target ≡ done m')
        × ((es : List IteratorEntry) × Yields (merged_iterator I) m' es
            × Merged (length ls) (rest_at ls) es)
  unfolding seek
  seek_lem m target ls h =
      let (found, run, shows) = seek_children_lem target m.children ls h in
      let m1 : MergingIterator S = record m {
        children = found;
        min_heap = push_children I 0 found [];
      } in
      let (m', find, rest) = find_min_start m1 ls shows refl in (m', rw (run, seek) find, rest)
