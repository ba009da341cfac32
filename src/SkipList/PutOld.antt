-- ===== src/SkipList/PutOld.antt =====
-- put of a key that is in the list: its value is replaced in place.
use cpp_kvstore.Common.{ℕ, suc, ◌≤◌, ◌≡◌, refl, sym, ap, ◌∙◌, arith, true, false}
use cpp_kvstore.Common.{List, [], ◌∷◌, some, inl, inr, Bool-cases}
use cpp_kvstore.Common.{if◌then◌else◌, ltb, ◌==◌, length, All, done}
use cpp_kvstore.Common.Bytes.{Bytes}
use cpp_kvstore.SkipList.{TableValue, Node, Heap, head, SkipList, load, store, forward_at, key_of}
use cpp_kvstore.SkipList.Rows.{Ghost, row, Links, Above, Sorted}
use cpp_kvstore.SkipList.Search.{IsNode, IsValid}
use cpp_kvstore.SkipList.Frame.{load-store, load-store_other, eq_split}

module _ (c : ℕ) (value : TableValue) where
  -- The node at `c` with the new value, the others as they are.
  abbrev pub revalue : Ghost → Ghost
  revalue g = record {
    addr = g.addr;
    key = g.key;
    value = if g.addr == c then value else g.value;
    height = g.height;
  }

  abbrev pub revalued : List Ghost → List Ghost
  revalued [] = []
  revalued (g ∷ gs) = revalue g ∷ revalued gs

  Above-revalued : (k : Bytes) (gs : List Ghost) → Above k gs → Above k (revalued gs)
  Above-revalued k [] h = tt
  Above-revalued k (g ∷ gs) h = (h.0, Above-revalued k gs h.1)

  Sorted-revalued : (gs : List Ghost) → Sorted gs → Sorted (revalued gs)
  Sorted-revalued [] h = tt
  Sorted-revalued (g ∷ gs) h = (Above-revalued g.key gs h.0, Sorted-revalued gs h.1)

  length-revalued : (gs : List Ghost) → length (revalued gs) ≡ length gs
  length-revalued [] = refl
  length-revalued (g ∷ gs) = ap suc (length-revalued gs)

  heights-revalued :
      (m : ℕ) (gs : List Ghost)
      → All (λ (g : Ghost). g.height ≤ m) gs
      → All (λ (g : Ghost). g.height ≤ m) (revalued gs)
  heights-revalued m [] h = tt
  heights-revalued m (g ∷ gs) h = (h.0, heights-revalued m gs h.1)

  module _ (h : Heap) (n : Node) (loaded : load h c ≡ done n) where
    abbrev new_heap : Heap
    new_heap = store h c (some (record n { value = value }))

    forward_at-new : (i b : ℕ) → forward_at new_heap i b ≡ forward_at h i b
    unfolding forward_at
    forward_at-new i b = elim (eq_split c b) [
      | inl e ↦ rw (e, load-store h c (record n { value = value }), loaded) refl
      | inr ne ↦ rw (load-store_other h c b (some (record n { value = value })) ne) refl
    ]

    key_of-new : (b : ℕ) → key_of new_heap b ≡ key_of h b
    unfolding key_of
    key_of-new b = elim (eq_split c b) [
      | inl e ↦ rw (e, load-store h c (record n { value = value }), loaded) refl
      | inr ne ↦ rw (load-store_other h c b (some (record n { value = value })) ne) refl
    ]

    Links-revalued :
        (i a : ℕ) (gs : List Ghost)
        → Links h i a (row i gs)
        → Links new_heap i a (row i (revalued gs))
    Links-revalued i a [] links = forward_at-new i a ∙ links
    Links-revalued i a (g ∷ gs) links = elim (Bool-cases (ltb i g.height)) [
      | inl tall ↦
          let all : Links h i a (g ∷ row i gs) = rw tall at links in
          let rest = Links-revalued i g.addr gs all.2 in
          rw tall (forward_at-new i a ∙ all.0, key_of-new g.addr ∙ all.1, rest)
      | inr short ↦
          let all : Links h i a (row i gs) = rw short at links in
          rw short (Links-revalued i a gs all)
    ]

    IsNode-revalue : (g : Ghost) → IsNode h g → IsNode new_heap (revalue g)
    IsNode-revalue g m = elim (eq_split c g.addr) [
      | inl e ↦
          let same : m.node ≡ n = cc (m.loaded, loaded, e) in
          let here : (g.addr == c) ≡ true = ground (arith, e) in
          record {
            node = record n { value = value };
            loaded = rw e (load-store h c (record n { value = value }));
            key = ap (λ (x : Node). x.key) (sym same) ∙ m.key;
            value = rw here refl;
            tall = ap (λ (x : Node). length x.forward) (sym same) ∙ m.tall;
            low = m.low;
            allocated = unfold store in m.allocated;
            not_head = m.not_head;
          }
      | inr ne ↦
          let other : (g.addr == c) ≡ false = ground (arith, ne) in
          record {
            node = m.node;
            loaded = load-store_other h c g.addr (some (record n { value = value })) ne ∙ m.loaded;
            key = m.key;
            value = rw other m.value;
            tall = m.tall;
            low = m.low;
            allocated = unfold store in m.allocated;
            not_head = m.not_head;
          }
    ]

    nodes-revalued : (gs : List Ghost) → All (IsNode h) gs → All (IsNode new_heap) (revalued gs)
    nodes-revalued [] a = tt
    nodes-revalued (g ∷ gs) a = (IsNode-revalue g a.0, nodes-revalued gs a.1)

-- The list is valid with the value replaced.
pub revalued-IsValid :
    (s : SkipList) (gs : List Ghost) (c : ℕ) (value : TableValue) (n : Node)
    → IsValid s gs
    → load s.heap c ≡ done n
    → IsValid
        (record s { heap = store s.heap c (some (record n { value = value })) })
        (revalued c value gs)
revalued-IsValid s gs c value n v loaded = record {
  sorted = Sorted-revalued c value gs v.sorted;
  levels = λ i lt. Links-revalued c value s.heap n loaded i head gs (v.levels i lt);
  nodes = nodes-revalued c value s.heap n loaded gs v.nodes;
  heights = heights-revalued c value s.current_level gs v.heights;
  some_level = v.some_level;
  within = v.within;
  count = v.count ∙ sym (length-revalued c value gs);
  head_allocated = unfold store in v.head_allocated;
}
