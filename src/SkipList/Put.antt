-- ===== src/SkipList/Put.antt =====
-- put of a new key keeps the skip list valid and adds the entry at its place.
use cpp_kvstore.Common.{All-append-right, All-append-left, All-insert, All-map, length-insert}
use cpp_kvstore.Common.{ℕ, zero, suc, ◌≤◌, ◌<◌, ◌≡◌, ◌≢◌, refl, sym, ap, ◌∙◌, arith, false}
use cpp_kvstore.Common.{List, [], ◌∷◌, ◌++◌, none, some, inl, inr, Bool-cases}
use cpp_kvstore.Common.{if◌then◌else◌, ltb, length, replicate, All, done}
use cpp_kvstore.Common.Bytes.{Bytes}
use cpp_kvstore.Common.Lex.{◌≺◌}
use cpp_kvstore.Common.{lt→ltb}
use cpp_kvstore.SkipList.{
  TableValue, Pointer, Node, Heap, head, SkipList, load, forward_at, key_of, store, link,
  insert_node,
}
use cpp_kvstore.SkipList.Rows.{
  Ghost, row, row-append, first_of, Links, Links-skip, last_tall, Sorted,
}
use cpp_kvstore.SkipList.Search.{lower, upper, lower-append-upper, path, IsNode, IsValid}
use cpp_kvstore.SkipList.Get.{at_key, Links-first}
use cpp_kvstore.SkipList.Fresh.{forward_at-load, get_elem?-replicate}
use cpp_kvstore.SkipList.Frame.{Keeps, load-store, load-store_other, forward_at-same, bind-done}
use cpp_kvstore.SkipList.Link.{ups, Linked, link_lem}
use cpp_kvstore.SkipList.Splice.{
  Avoids, Avoids-row, Distinct-row, last_of-row, Links-same, Links-splice,
}
use cpp_kvstore.SkipList.Insert.{take_update-path, Sorted-insert, last_tall-Avoids}

pub All-row {κ} : (P : Ghost → Type κ) → (i : ℕ) (gs : List Ghost) → All P gs → All P (row i gs)
All-row P i [] h = tt
All-row P i (g ∷ gs) h = elim (Bool-cases (ltb i g.height)) [
  | inl tall ↦ rw tall (h.0, All-row P i gs h.1)
  | inr short ↦ rw short (All-row P i gs h.1)
]

length-replicate : (n : ℕ) (p : Pointer) → length (replicate n p) ≡ n
length-replicate zero p = refl
length-replicate (suc n) p = ap suc (length-replicate n p)

row-first : (i : ℕ) (g : Ghost) (gs : List Ghost) → i < g.height → row i (g ∷ gs) ≡ g ∷ row i gs
row-first i g gs lt = rw (lt→ltb i g.height lt) refl

row-later : (i : ℕ) (g : Ghost) (gs : List Ghost) → g.height ≤ i → row i (g ∷ gs) ≡ row i gs
row-later i g gs le = let short : ltb i g.height ≡ false = ground arith in rw short refl

Sorted-left : (l r : List Ghost) → Sorted (l ++ r) → Sorted l
Sorted-left [] r s = tt
Sorted-left (g ∷ l) r s =
    (All-append-left (λ (x : Ghost). g.key ≺ x.key) l r s.0, Sorted-left l r s.1)

last_tall-apart : (i a x : ℕ) (l : List Ghost) → a ≢ x → Avoids x l → last_tall i a l ≢ x
last_tall-apart i a x [] ne h = ne
last_tall-apart i a x (g ∷ l) ne h = elim (Bool-cases (ltb i g.height)) [
  | inl tall ↦ rw tall (last_tall-apart i g.addr x l h.0 h.1)
  | inr short ↦ rw short (last_tall-apart i a x l ne h.1)
]

pub IsNode-key_of : (h : Heap) (g : Ghost) → IsNode h g → key_of h g.addr ≡ done g.key
unfolding key_of
IsNode-key_of h g n = rw (n.loaded, n.key) refl

Keeps-key_of :
    (h h' : Heap) → Keeps h h' → (b : ℕ) (k : Bytes) → key_of h b ≡ done k → key_of h' b ≡ done k
unfolding key_of
Keeps-key_of h h' keeps b k e =
    let (n, loaded, at) = bind-done (load h b) (λ (n : Node). done n.key) k e in
    let (m, loaded', same) = keeps.0 b n loaded in rw (loaded', same.0) at

IsNode-Keeps : (h h' : Heap) → Keeps h h' → (g : Ghost) → IsNode h g → IsNode h' g
IsNode-Keeps h h' keeps g n =
    let (m, loaded', same) = keeps.0 g.addr n.node n.loaded in
    record {
      node = m;
      loaded = loaded';
      key = same.0 ∙ n.key;
      value = same.1 ∙ n.value;
      tall = same.2 ∙ n.tall;
      low = n.low;
      allocated = omega (arith, n.allocated, keeps.1);
      not_head = n.not_head;
    }

-- The heap with the new node on it.
abbrev pub with_node : Heap → Node → Heap
with_node h n = record (store h h.fresh (some n)) { fresh = suc h.fresh }

with_node-load : (h : Heap) (n : Node) → load (with_node h n) h.fresh ≡ done n
unfolding load
with_node-load h n = load-store h h.fresh n

with_node-load_other :
    (h : Heap) (n : Node) (b : ℕ) → b ≢ h.fresh → load (with_node h n) b ≡ load h b
unfolding load
with_node-load_other h n b ne = load-store_other h h.fresh b (some n) ne

with_node-IsNode : (h : Heap) (n : Node) (g : Ghost) → IsNode h g → IsNode (with_node h n) g
with_node-IsNode h n g m = record {
  node = m.node;
  loaded = with_node-load_other h n g.addr (λ e. omega (arith, m.allocated, e)) ∙ m.loaded;
  key = m.key;
  value = m.value;
  tall = m.tall;
  low = m.low;
  allocated = omega (arith, m.allocated);
  not_head = m.not_head;
}

module _ (s : SkipList) (gs : List Ghost) (v : IsValid s gs) (key : Bytes) (value : TableValue)
    (n : ℕ) (low : 0 < n) (high : n ≤ s.max_level) where
  l : List Ghost
  l = lower key gs

  r : List Ghost
  r = upper key gs

  -- The new node, and the heap it is put on.
  abbrev pub new_ghost : Ghost
  new_ghost = record { addr = s.heap.fresh; key = key; value = value; height = n }

  abbrev new_node : Node
  new_node = record { key = key; value = value; forward = replicate n none }

  abbrev h0 : Heap
  h0 = with_node s.heap new_node

  prev : ℕ → ℕ
  prev j = last_tall j head l

  next : ℕ → Pointer
  next j = first_of (row j r)

  all_new : Avoids s.heap.fresh gs
  all_new =
      All-map (IsNode s.heap) (λ (g : Ghost). g.addr ≢ s.heap.fresh)
        (λ g m e. omega (arith, m.allocated, e)) gs v.nodes

  cut : l ++ r ≡ gs
  unfolding l r
  cut = lower-append-upper key gs

  h0-same : (j b : ℕ) → b ≢ s.heap.fresh → forward_at h0 j b ≡ forward_at s.heap j b
  h0-same j b ne = forward_at-same s.heap h0 j b (with_node-load_other s.heap new_node b ne)

  h0-nodes : All (IsNode h0) gs
  h0-nodes =
      All-map (IsNode s.heap) (IsNode h0) (λ g m. with_node-IsNode s.heap new_node g m) gs v.nodes

  head-old : head ≢ s.heap.fresh
  head-old e = omega (arith, v.head_allocated, e)

  prev-old : (j : ℕ) → prev j ≢ s.heap.fresh
  unfolding prev
  prev-old j =
      last_tall-apart j head s.heap.fresh l head-old
        (All-append-left (λ (g : Ghost). g.addr ≢ s.heap.fresh) l r (rw cut all_new))

  level-h0 : (j : ℕ) → j < s.max_level → Links h0 j head (row j gs)
  level-h0 j lt =
      Links-same s.heap h0 j head (row j gs) (h0-same j head head-old)
        (All-row _ j gs (
          All-map (IsNode s.heap)
            (λ (g : Ghost).
              (forward_at h0 j g.addr ≡ forward_at s.heap j g.addr)
              × (key_of h0 g.addr ≡ key_of s.heap g.addr))
            (λ g m. (
              h0-same j g.addr (λ e. omega (arith, m.allocated, e)),
              IsNode-key_of h0 g (with_node-IsNode s.heap new_node g m)
                  ∙ sym (IsNode-key_of s.heap g m),
            ))
            gs v.nodes))
        (v.levels j lt)

  prev-next : (j : ℕ) → j < s.max_level → forward_at h0 j (prev j) ≡ done (next j)
  unfolding prev next
  prev-next j lt =
      let links : Links h0 j head (row j (l ++ r)) = rw cut (level-h0 j lt) in
      Links-first h0 j (last_tall j head l) (row j r) (Links-skip h0 j head l r links)

  new-level : (j : ℕ) → j < n → forward_at h0 j s.heap.fresh ≡ done none
  new-level j lt =
      forward_at-load h0 j s.heap.fresh new_node none (with_node-load s.heap new_node)
        (get_elem?-replicate n j none lt)

  linked :
      (h' : Heap) × (link h0 s.heap.fresh 0 (ups n 0 prev) ≡ done h')
      × Linked h0 s.heap.fresh 0 n prev next h'
  linked =
      link_lem s.heap.fresh prev next prev-old n h0 0 (λ j ge lt. prev-next j (omega arith))
        (λ j ge lt. (none, new-level j (omega arith)))

  -- The nodes with the new one at its place.
  abbrev pub inserted : List Ghost
  inserted = lower key gs ++ new_ghost ∷ upper key gs

  module _ (h' : Heap) (k : Linked h0 s.heap.fresh 0 n prev next h') where
    new-IsNode : IsNode h' new_ghost
    new-IsNode =
        let (m, loaded', same) = k.keeps.0 s.heap.fresh new_node (with_node-load s.heap new_node) in
        record {
          node = m;
          loaded = loaded';
          key = same.0;
          value = same.1;
          tall = same.2 ∙ length-replicate n none;
          low = low;
          allocated = omega (arith, k.keeps.1);
          not_head = omega (arith, v.head_allocated);
        }

    new-nodes : All (IsNode h') inserted
    new-nodes =
        All-insert (IsNode h') (lower key gs) new_ghost (upper key gs)
          (rw (lower-append-upper key gs)
            (All-map (IsNode h0) (IsNode h') (λ g m. IsNode-Keeps h0 h' k.keeps g m) gs h0-nodes))
          new-IsNode

    tall-level : (i : ℕ) → i < n → Links h' i head (row i inserted)
    unfolding l r cut prev next
    tall-level i lt =
        let split : row i inserted ≡ row i l ++ new_ghost ∷ row i r =
          row-append i l (new_ghost ∷ r) ∙ ap (λ t. row i l ++ t) (row-first i new_ghost r lt) in
        let both : row i l ++ row i r ≡ row i gs = sym (row-append i l r) ∙ ap (row i) cut in
        let old : Links h0 i head (row i l ++ row i r) =
          rw both (level-h0 i (omega (arith, high))) in
        let nodes : All (IsNode h0) (l ++ r) = rw cut h0-nodes in
        let sorted : Sorted (l ++ r) = rw cut v.sorted in
        let fresh : Avoids s.heap.fresh (l ++ r) = rw cut all_new in
        let not_head : Avoids head (l ++ r) =
          All-map (IsNode h0) (λ (g : Ghost). g.addr ≢ head) (λ g m e. omega (arith, m.not_head, e))
            (l ++ r) nodes in
        let left = (λ (a : ℕ) (avoids : Avoids a (l ++ r)).
          All-append-left (λ (g : Ghost). g.addr ≢ a) l r avoids) in
        let right = (λ (a : ℕ) (avoids : Avoids a (l ++ r)).
          All-append-right (λ (g : Ghost). g.addr ≢ a) l r avoids) in
        rw split (
          Links-splice h0 h' i (prev i) new_ghost (λ b x y. k.others i b x y)
            (Keeps-key_of h0 h' k.keeps) (IsNode-key_of h' new_ghost new-IsNode)
            (k.of_prev i (omega arith) (omega arith)) head (row i l) (row i r)
            (last_of-row i head l) head-old
            (Distinct-row h0 i head l (Sorted-left l r sorted)
              (All-append-left (IsNode h0) l r nodes) (left head not_head))
            (Avoids-row s.heap.fresh i l (left s.heap.fresh fresh))
            (Avoids-row s.heap.fresh i r (right s.heap.fresh fresh))
            (Avoids-row (prev i) i r (last_tall-Avoids h0 i head l r sorted nodes not_head))
            (k.of_new i (omega arith) (omega arith)) old)

    short-level : (i : ℕ) → n ≤ i → i < s.max_level → Links h' i head (row i inserted)
    unfolding l r cut
    short-level i ge lt =
        let same : row i inserted ≡ row i gs =
          row-append i l (new_ghost ∷ r)
          ∙ ap (λ t. row i l ++ t) (row-later i new_ghost r ge)
          ∙ sym (row-append i l r)
          ∙ ap (row i) cut in
        let fwd = (λ (b : ℕ). k.outside i b (inr (omega arith))) in
        rw same (
          Links-same h0 h' i head (row i gs) (fwd head)
            (All-row _ i gs (
              All-map (IsNode h0)
                (λ (g : Ghost).
                  (forward_at h' i g.addr ≡ forward_at h0 i g.addr)
                  × (key_of h' g.addr ≡ key_of h0 g.addr))
                (λ g m. (
                  fwd g.addr,
                  IsNode-key_of h' g (IsNode-Keeps h0 h' k.keeps g m) ∙ sym (IsNode-key_of h0 g m),
                ))
                gs h0-nodes))
            (level-h0 i lt))

  -- put behind its search, for a key that is not there: the new list is valid and holds the nodes
  -- of the old one and the new node at its place.
  pub insert_node_lem :
      at_key key (upper key gs) ≡ none
      → (s' : SkipList) × (insert_node s (path s.current_level (lower key gs)) key value n
          ≡ done s')
        × IsValid s' inserted
  unfolding insert_node l prev
  insert_node_lem absent =
      let (h', e, k) = linked in
      let heights_l =
        All-append-left (λ (g : Ghost). g.height ≤ s.current_level) (lower key gs) (upper key gs)
          (rw (lower-append-upper key gs) v.heights) in
      let level = if ltb s.current_level n then n else s.current_level in
      let s' : SkipList = record s {
        heap = h';
        current_level = level;
        node_count = suc s.node_count;
      } in
      let grown : (s.current_level ≤ level) × (n ≤ level) × (level ≤ s.max_level) =
        ground (arith, v.within) in
      (
        s',
        rw (take_update-path s.current_level n (lower key gs) heights_l, e) refl,
        record {
          sorted = Sorted-insert key new_ghost gs refl absent v.sorted;
          levels = λ i lt. elim (Bool-cases (ltb i n)) [
            | inl below ↦ tall-level h' k i (ground (arith, below))
            | inr above ↦ short-level h' k i (ground (arith, above)) lt
          ];
          nodes = new-nodes h' k;
          heights =
              All-insert (λ (g : Ghost). g.height ≤ level) (lower key gs) new_ghost (upper key gs)
                (rw (lower-append-upper key gs) (
                  All-map (λ (g : Ghost). g.height ≤ s.current_level)
                    (λ (g : Ghost). g.height ≤ level) (λ g h. omega (arith, h, grown.0)) gs
                    v.heights))
                grown.1;
          some_level = omega (arith, v.some_level, grown.0);
          within = grown.2;
          count =
              ap suc (v.count ∙ ap length (sym (lower-append-upper key gs)))
              ∙ sym (length-insert (lower key gs) new_ghost (upper key gs));
          head_allocated = omega (arith, v.head_allocated, k.keeps.1);
        },
      )
