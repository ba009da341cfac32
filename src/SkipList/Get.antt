-- ===== src/SkipList/Get.antt =====
-- get and dump_all against the list of nodes that a valid skip list holds.
use cpp_kvstore.Common.{All-append-right}
use cpp_kvstore.Common.{ℕ, zero, suc, ◌≤◌, ◌≡◌, refl, sym, ap, ◌∙◌, arith}
use cpp_kvstore.Common.{List, [], ◌∷◌, ◌++◌, Option, none, some, inl, inr, Bool-cases}
use cpp_kvstore.Common.{if◌then◌else◌, length, All, done, ◌>>=◌, lt→ltb}
use cpp_kvstore.Common.Bytes.{Bytes}
use cpp_kvstore.Common.Lex.{bytes_eq, ◌≺◌, ≺_trans, lex-lt, lex-gt, Ordering-cases, is_lt→lt}
use cpp_kvstore.SkipList.{TableValue, Heap, head, SkipList, forward_at}
use cpp_kvstore.SkipList.{matching, get, dump_from, dump_all}
use cpp_kvstore.SkipList.Rows.{
  Ghost, row, first_of, Links, Links-skip, last_tall, Below, Above, Sorted, lookup,
}
use cpp_kvstore.SkipList.Search.{
  lower, upper, lower-append-upper, lower-Below, IsNode, IsValid, search_path_lem,
}

-- Every node is on level 0.
pub row-IsNode : (h : Heap) (gs : List Ghost) → All (IsNode h) gs → row 0 gs ≡ gs
row-IsNode h [] a = refl
row-IsNode h (g ∷ gs) a = rw (lt→ltb 0 g.height (a.0).low) (ap (λ t. g ∷ t) (row-IsNode h gs a.1))

pub Links-first :
    (h : Heap) (i a : ℕ) (gs : List Ghost) → Links h i a gs → forward_at h i a ≡ done (first_of gs)
Links-first h i a [] links = links
Links-first h i a (g ∷ gs) links = links.0

-- The first of these nodes, if it has the key.
abbrev pub at_key : Bytes → List Ghost → Option Ghost
at_key key [] = none
at_key key (g ∷ gs) = if bytes_eq g.key key then some g else none

abbrev pub value_of : Option Ghost → Option TableValue
value_of none = none
value_of (some g) = some g.value

pub lookup-Below :
    (key : Bytes) (l r : List Ghost) → Below key l → lookup key (l ++ r) ≡ lookup key r
lookup-Below key [] r b = refl
lookup-Below key (g ∷ l) r b = let lt = is_lt→lt _ (b.0) in rw lt (lookup-Below key l r b.1)

lookup-Above : (key : Bytes) (gs : List Ghost) → Above key gs → lookup key gs ≡ none
lookup-Above key [] a = refl
lookup-Above key (g ∷ gs) a = rw (lex-lt key g.key a.0) (lookup-Above key gs a.1)

pub Above-chain : (a b : Bytes) (gs : List Ghost) → a ≺ b → Above b gs → Above a gs
Above-chain a b [] lt above = tt
Above-chain a b (g ∷ gs) lt above = (≺_trans a b g.key lt above.0, Above-chain a b gs lt above.1)

lookup-upper :
    (key : Bytes) (gs : List Ghost)
    → Sorted gs
    → lookup key (upper key gs) ≡ value_of (at_key key (upper key gs))
lookup-upper key [] s = refl
lookup-upper key (g ∷ gs) s = elim (Ordering-cases g.key key) [
  | inl lt ↦ rw lt (lookup-upper key gs s.1)
  | inr (inl eq) ↦ rw (eq, eq) refl
  | inr (inr gt) ↦
      rw (gt, gt) (lookup-Above key gs (Above-chain key g.key gs (lex-gt g.key key gt) s.0))
]

pub lookup-at_key :
    (key : Bytes) (gs : List Ghost)
    → Sorted gs
    → lookup key gs ≡ value_of (at_key key (upper key gs))
lookup-at_key key gs s =
    ap (lookup key) (sym (lower-append-upper key gs))
    ∙ lookup-Below key (lower key gs) (upper key gs) (lower-Below key gs)
    ∙ lookup-upper key gs s

module _ (s : SkipList) (gs : List Ghost) (v : IsValid s gs) (key : Bytes) where
  -- Behind the last node below the key stands the first that is not.
  pub forward-upper :
      forward_at s.heap 0 (last_tall 0 head (lower key gs)) ≡ done (first_of (upper key gs))
  forward-upper =
      let cut = lower-append-upper key gs in
      let links : Links s.heap 0 head (row 0 (lower key gs ++ upper key gs)) =
        rw cut (v.levels 0 (omega (arith, v.some_level, v.within))) in
      let on_0 =
        row-IsNode s.heap (upper key gs)
          (All-append-right _ (lower key gs) (upper key gs) (rw cut v.nodes)) in
      Links-first s.heap 0 _ (upper key gs)
        (rw on_0 at (Links-skip s.heap 0 head (lower key gs) (upper key gs) links))

  matching-upper :
      (us : List Ghost)
      → All (IsNode s.heap) us
      → (matching s.heap key (first_of us) >>= λ m.
          done (elim m [ none ↦ none | some cn ↦ some (cn.1).value ]))
        ≡ done (value_of (at_key key us))
  unfolding matching
  matching-upper [] nodes = refl
  matching-upper (g ∷ us) nodes =
      let n = nodes.0 in
      rw (n.loaded, n.key)
        (elim (Bool-cases (bytes_eq g.key key)) [
          | inl e ↦ rw (e, n.value) refl
          | inr e ↦ rw e refl
        ])

  -- get on a valid skip list is the lookup in the list of its nodes.
  pub get_lem : get s key ≡ done (lookup key gs)
  unfolding get
  get_lem =
      let nodes =
        All-append-right _ (lower key gs) (upper key gs) (rw (lower-append-upper key gs) v.nodes) in
      rw (search_path_lem s gs v key, forward-upper, matching-upper (upper key gs) nodes)
        (ap done (sym (lookup-at_key key gs v.sorted)))

-- The pairs of key and value that the nodes hold.
abbrev pub entries : List Ghost → List (Bytes × TableValue)
entries [] = []
entries (g ∷ gs) = (g.key, g.value) ∷ entries gs

dump_from-entries :
    (fuel : ℕ) (h : Heap) (a : ℕ) (gs : List Ghost)
    → length gs ≤ fuel
    → Links h 0 a gs
    → All (IsNode h) gs
    → dump_from fuel h (first_of gs) ≡ done (entries gs)
unfolding dump_from
dump_from-entries fuel h a [] le links nodes = refl
dump_from-entries zero h a (g ∷ gs) le links nodes = absurd (omega arith)
dump_from-entries (suc fuel) h a (g ∷ gs) le links nodes =
    let n = nodes.0 in
    rw
      (
        n.loaded,
        Links-first h 0 g.addr gs links.2,
        dump_from-entries fuel h g.addr gs (omega arith) links.2 nodes.1,
        n.key,
        n.value,
      )
      refl

-- dump_all on a valid skip list gives all entries in ascending order of their keys.
pub dump_all_lem : (s : SkipList) (gs : List Ghost) → IsValid s gs → dump_all s ≡ done (entries gs)
unfolding dump_all
dump_all_lem s gs v =
    let links : Links s.heap 0 head gs =
      rw (row-IsNode s.heap gs v.nodes) at (v.levels 0 (omega (arith, v.some_level, v.within))) in
    rw (Links-first s.heap 0 head gs links)
      (dump_from-entries s.node_count s.heap head gs (omega (arith, v.count)) links v.nodes)
