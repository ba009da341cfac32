-- ===== src/SkipList/PutNew.antt =====
-- put of a key that is not in the list, and get after it.
use cpp_kvstore.Common.{All-append-right}
use cpp_kvstore.Common.{◌≡◌, refl, sym, ap, ◌∙◌, arith, Bool, true, false}
use cpp_kvstore.Common.{List, [], ◌∷◌, ◌++◌, Option, none, some, inl, inr, Bool-cases}
use cpp_kvstore.Common.{if◌then◌else◌, All, done}
use cpp_kvstore.Common.Bytes.{Bytes}
use cpp_kvstore.Common.Lex.{bytes_eq, bytes_eq→eq}
use cpp_kvstore.SkipList.{TableValue, Heap, SkipList, matching, random_level, insert_node, put, get}
use cpp_kvstore.SkipList.Rows.{Ghost, first_of, lookup, Below}
use cpp_kvstore.SkipList.Search.{
  lower, upper, lower-append-upper, lower-Below, path, IsNode, IsValid, search_path_lem,
}
use cpp_kvstore.SkipList.Get.{at_key, value_of, forward-upper, lookup-at_key, lookup-Below, get_lem}
use cpp_kvstore.SkipList.Fresh.{random_level-bounds}
use cpp_kvstore.SkipList.Put.{inserted, new_ghost, insert_node_lem}

value_of-none : (o : Option Ghost) → value_of o ≡ none → o ≡ none
value_of-none none e = refl
value_of-none (some g) e = absurd (cc e)

matching-none :
    (h : Heap) (key : Bytes) (us : List Ghost)
    → All (IsNode h) us
    → at_key key us ≡ none
    → matching h key (first_of us) ≡ done none
unfolding matching
matching-none h key [] nodes e = refl
matching-none h key (g ∷ us) nodes e =
    let n = nodes.0 in
    elim (Bool-cases (bytes_eq g.key key)) [
      | inl same ↦ absurd (cc (rw same at e))
      | inr other ↦ rw (n.loaded, n.key, other) refl
    ]

lookup-other :
    (k : Bytes) (l : List Ghost) (x : Ghost) (r : List Ghost)
    → bytes_eq x.key k ≡ false
    → lookup k (l ++ x ∷ r) ≡ lookup k (l ++ r)
lookup-other k [] x r e = rw e refl
lookup-other k (g ∷ l) x r e = rw (lookup-other k l x r e) refl

-- The lookup in a list that has a new key at its place.
lookup-insert :
    (key k : Bytes) (gs : List Ghost) (g : Ghost)
    → g.key ≡ key
    → lookup k (lower key gs ++ g ∷ upper key gs)
      ≡ (if bytes_eq key k then some g.value else lookup k gs)
lookup-insert key k gs g at = elim (Bool-cases (bytes_eq key k)) [
  | inl same ↦
      let e : key ≡ k = bytes_eq→eq key k same in
      let here : bytes_eq g.key k ≡ true = rw at same in
      let below : Below k (lower key gs) = rw (sym e) (lower-Below key gs) in
      rw same (lookup-Below k (lower key gs) (g ∷ upper key gs) below ∙ rw here refl)
  | inr other ↦ rw other (
      lookup-other k (lower key gs) g (upper key gs) (rw at other)
      ∙ ap (lookup k) (lower-append-upper key gs))
]

module _ (s : SkipList) (gs : List Ghost) (v : IsValid s gs) (key : Bytes) (value : TableValue)
    (coins : List Bool) (absent : lookup key gs ≡ none) where
  no_match : at_key key (upper key gs) ≡ none
  no_match =
      value_of-none (at_key key (upper key gs)) (sym (lookup-at_key key gs v.sorted) ∙ absent)

  put-insert_node :
      put s key value coins
      ≡ insert_node s (path s.current_level (lower key gs)) key value (random_level s coins)
  unfolding put
  put-insert_node =
      let nodes =
        All-append-right (IsNode s.heap) (lower key gs) (upper key gs)
          (rw (lower-append-upper key gs) v.nodes) in
      rw
        (
          search_path_lem s gs v key,
          forward-upper s gs v key,
          matching-none s.heap key (upper key gs) nodes no_match,
        )
        refl

  -- put of a key that is not in the list succeeds whatever the random level is; the list stays
  -- valid, and get gives the new value for the key and what it gave before for every other.
  pub put_new_lem :
      (s' : SkipList) × (gs' : List Ghost) × (put s key value coins ≡ done s')
      × IsValid s' gs'
      × ((k : Bytes) → get s' k ≡ (if bytes_eq key k then done (some value) else get s k))
  put_new_lem =
      let bounds = random_level-bounds s coins (omega (arith, v.some_level, v.within)) in
      let n = random_level s coins in
      let (s', e, v') = insert_node_lem s gs v key value n bounds.0 bounds.1 no_match in
      let gets = (λ (k : Bytes).
        get_lem s' (inserted s gs v key value n bounds.0 bounds.1) v' k
        ∙ ap done (lookup-insert key k gs (new_ghost s gs v key value n bounds.0 bounds.1) refl)
        ∙ get_if k) in
      (s', inserted s gs v key value n bounds.0 bounds.1, put-insert_node ∙ e, v', gets)
    where
      get_if :
          (k : Bytes)
          → done (if bytes_eq key k then some value else lookup k gs)
            ≡ (if bytes_eq key k then done (some value) else get s k)
      get_if k = elim (Bool-cases (bytes_eq key k)) [
        | inl same ↦ rw same refl
        | inr other ↦ rw other (sym (get_lem s gs v k))
      ]
