-- ===== src/SkipList/PutAny.antt =====
-- put of any key, and get after it.
use cpp_kvstore.Common.{All-append-right}
use cpp_kvstore.Common.{ℕ, ◌≡◌, refl, sym, ap, ◌∙◌, arith, Bool, true, false}
use cpp_kvstore.Common.{List, [], ◌∷◌, ◌++◌, Option, none, some, inl, inr, Bool-cases}
use cpp_kvstore.Common.{if◌then◌else◌, ◌==◌, All, done}
use cpp_kvstore.Common.Bytes.{Bytes}
use cpp_kvstore.Common.Lex.{is_lt→lt, bytes_eq, bytes_eq→eq}
use cpp_kvstore.SkipList.{TableValue, Node, Heap, SkipList, load, store, matching, put, get}
use cpp_kvstore.SkipList.Rows.{Ghost, lookup, Below}
use cpp_kvstore.SkipList.Search.{
  lower, upper, lower-append-upper, lower-Below, IsNode, IsValid, search_path_lem,
}
use cpp_kvstore.SkipList.Get.{at_key, value_of, lookup-at_key, forward-upper, get_lem}
use cpp_kvstore.SkipList.PutNew.{put_new_lem}
use cpp_kvstore.SkipList.PutOld.{revalued, revalued-IsValid}

at_key-some :
    (key : Bytes) (us : List Ghost) (g : Ghost)
    → at_key key us ≡ some g
    → (rest : List Ghost) × (us ≡ g ∷ rest) × (bytes_eq g.key key ≡ true)
at_key-some key [] g e = absurd (cc e)
at_key-some key (x ∷ us) g e = elim (Bool-cases (bytes_eq x.key key)) [
  | inl same ↦
      let first : x ≡ g = cc (rw same at e) in (us, ap (λ y. y ∷ us) first, rw (sym first) same)
  | inr other ↦ absurd (cc (rw other at e))
]

-- Of these nodes, only ones with the key stand at the address.
abbrev OnlyAt : Bytes → ℕ → List Ghost → Type 0
OnlyAt key c gs = All (λ (g : Ghost). g.addr ≡ c → g.key ≡ key) gs

lookup-same :
    (key : Bytes) (value : TableValue) (l : List Ghost) (g : Ghost) (r : List Ghost)
    → Below key l
    → bytes_eq g.key key ≡ true
    → lookup key (revalued g.addr value (l ++ g ∷ r)) ≡ some value
lookup-same key value [] g r below e =
    let here : (g.addr == g.addr) ≡ true = ground arith in rw (e, here) refl
lookup-same key value (x ∷ l) g r below e =
    let lt = is_lt→lt _ below.0 in rw lt (lookup-same key value l g r below.1 e)

lookup-apart :
    (key k : Bytes) (c : ℕ) (value : TableValue) (gs : List Ghost)
    → OnlyAt key c gs
    → bytes_eq key k ≡ false
    → lookup k (revalued c value gs) ≡ lookup k gs
lookup-apart key k c value [] only e = refl
lookup-apart key k c value (g ∷ gs) only e = elim (Bool-cases (bytes_eq g.key k)) [
  | inr other ↦ rw other (lookup-apart key k c value gs only.1 e)
  | inl same ↦ elim (Bool-cases (g.addr == c)) [
    | inl at ↦ let keys : g.key ≡ key = only.0 (ground (arith, at)) in absurd (cc (keys, same, e))
    | inr away ↦ rw (same, away) refl
  ]
]

OnlyAt-IsNode :
    (h : Heap) (key : Bytes) (c : ℕ) (n : Node) (gs : List Ghost)
    → load h c ≡ done n
    → n.key ≡ key
    → All (IsNode h) gs
    → OnlyAt key c gs
OnlyAt-IsNode h key c n [] e f nodes = tt
OnlyAt-IsNode h key c n (g ∷ gs) e f nodes =
    let m = nodes.0 in
    (
      (λ at.
          let one : m.node ≡ n = cc (m.loaded, e, at) in
          sym m.key ∙ ap (λ (x : Node). x.key) one ∙ f),
      OnlyAt-IsNode h key c n gs e f nodes.1,
    )

value_of-some :
    (o : Option Ghost) (x : TableValue) → value_of o ≡ some x → (g : Ghost) × (o ≡ some g)
value_of-some none x e = absurd (cc e)
value_of-some (some g) x e = (g, refl)

-- What put promises for a key.
abbrev pub Puts : SkipList → Bytes → TableValue → List Bool → Type 0
Puts s key value coins =
    (s' : SkipList) × (gs' : List Ghost) × (put s key value coins ≡ done s')
    × IsValid s' gs'
    × ((k : Bytes) → get s' k ≡ (if bytes_eq key k then done (some value) else get s k))

module _ (s : SkipList) (gs : List Ghost) (v : IsValid s gs) (key : Bytes) (value : TableValue)
    (coins : List Bool) where
  put_found :
      (g : Ghost) (n : IsNode s.heap g) (rest : List Ghost)
      → upper key gs ≡ g ∷ rest
      → bytes_eq g.key key ≡ true
      → put s key value coins
        ≡ done (record s { heap = store s.heap g.addr (some (record (n.node) { value = value })) })
  unfolding put matching
  put_found g n rest e same =
      rw (search_path_lem s gs v key, forward-upper s gs v key, e, n.loaded, n.key, same) refl

  put_old_lem : (x : TableValue) → lookup key gs ≡ some x → Puts s key value coins
  put_old_lem x present =
      let (g, at) =
        value_of-some (at_key key (upper key gs)) x
          (sym (lookup-at_key key gs v.sorted) ∙ present) in
      let (rest, split, same) = at_key-some key (upper key gs) g at in
      let cut : gs ≡ lower key gs ++ g ∷ rest =
        sym (lower-append-upper key gs) ∙ ap (λ t. lower key gs ++ t) split in
      let nodes : All (IsNode s.heap) (lower key gs ++ g ∷ rest) = rw cut at v.nodes in
      let n : IsNode s.heap g =
        (All-append-right (IsNode s.heap) (lower key gs) (g ∷ rest) nodes).0 in
      let v' = revalued-IsValid s gs g.addr value n.node v n.loaded in
      let only =
        OnlyAt-IsNode s.heap key g.addr n.node gs n.loaded (n.key ∙ bytes_eq→eq g.key key same)
          v.nodes in
      let gets = (λ (k : Bytes).
        get_lem _ (revalued g.addr value gs) v' k ∙ (elim (Bool-cases (bytes_eq key k)) [
          | inl is_k ↦
              let e : key ≡ k = bytes_eq→eq key k is_k in
              rw is_k (
                ap done (
                  ap (λ t. lookup k (revalued g.addr value t)) cut
                  ∙ rw (sym e)
                      (lookup-same key value (lower key gs) g rest (lower-Below key gs) same)))
          | inr other ↦
              rw other
                (ap done (lookup-apart key k g.addr value gs only other) ∙ sym (get_lem s gs v k))
        ])) in
      (_, revalued g.addr value gs, put_found g n rest split same, v', gets)

  -- put succeeds on every valid list, for every run of the random level: the list stays valid, and
  -- get gives the new value for the key and what it gave before for every other key.
  pub put_lem : Puts s key value coins
  put_lem = decide (lookup key gs) refl
    where
      decide : (o : Option TableValue) → lookup key gs ≡ o → Puts s key value coins
      decide none e = put_new_lem s gs v key value coins e
      decide (some x) e = put_old_lem x e
