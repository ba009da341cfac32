-- ===== src/SkipList/Search.antt =====
-- The search of put, get and erase finds, on each level, the last node below the key.
use cpp_kvstore.Common.{ℕ, zero, suc, ◌≤◌, ◌<◌, ◌≡◌, refl, sym, ap, ◌∙◌, arith, true, false}
use cpp_kvstore.Common.{List, [], ◌∷◌, ◌++◌, none, some, inl, inr, Bool-cases, append_assoc}
use cpp_kvstore.Common.{if◌then◌else◌, ltb, length, length-append, All, done}
use cpp_kvstore.Common.Bytes.{Bytes}
use cpp_kvstore.Common.Lex.{bytes_lt, ≺_trans, is_lt→lt}
use cpp_kvstore.SkipList.{Node, Heap, head, SkipList, load, forward_at, key_of}
use cpp_kvstore.SkipList.{walk, descend, search_path}
use cpp_kvstore.SkipList.Rows.{Ghost, row, Links, Links-skip, last_tall, last_tall-append}
use cpp_kvstore.SkipList.Rows.{Below, NotBelow, Above, Sorted, Stands, Stands-down}

-- How far a walk from `a` along these nodes goes.
abbrev stop_at : Bytes → ℕ → List Ghost → ℕ
stop_at key a [] = a
stop_at key a (g ∷ es) = if bytes_lt g.key key then stop_at key g.addr es else a

walk-none :
    (fuel : ℕ) (h : Heap) (i : ℕ) (key : Bytes) (a : ℕ)
    → forward_at h i a ≡ done none
    → walk (suc fuel) h i key a ≡ done a
unfolding walk
walk-none fuel h i key a e = rw e

walk-some :
    (fuel : ℕ) (h : Heap) (i : ℕ) (key : Bytes) (a c : ℕ) (k : Bytes)
    → forward_at h i a ≡ done (some c)
    → key_of h c ≡ done k
    → walk (suc fuel) h i key a
      ≡ (elim (bytes_lt k key) [ true ↦ walk fuel h i key c | false ↦ done a ])
unfolding walk
walk-some fuel h i key a c k e f = rw (e, f)

walk-Links :
    (fuel : ℕ) (h : Heap) (i : ℕ) (key : Bytes) (a : ℕ) (es : List Ghost)
    → length es < fuel
    → Links h i a es
    → walk fuel h i key a ≡ done (stop_at key a es)
walk-Links zero h i key a es lt links = absurd (omega arith)
walk-Links (suc fuel) h i key a [] lt links = walk-none fuel h i key a links
walk-Links (suc fuel) h i key a (g ∷ es) lt links =
    walk-some fuel h i key a g.addr g.key links.0 links.1 ∙ elim (Bool-cases (bytes_lt g.key key)) [
      | inl below ↦ rw below (walk-Links fuel h i key g.addr es (omega arith) links.2)
      | inr above ↦ rw above
    ]

length-row : (i : ℕ) (l : List Ghost) → length (row i l) ≤ length l
length-row i [] = omega arith
length-row i (g ∷ l) = ground (arith, length-row i l)

-- Among nodes below the key, in front of nodes that are not, a walk stops at the last of its level.
stop_at-row :
    (key : Bytes) (i a : ℕ) (l r : List Ghost)
    → Below key l
    → NotBelow key r
    → stop_at key a (row i (l ++ r)) ≡ last_tall i a l
stop_at-row key i a [] [] below above = refl
stop_at-row key i a [] (g ∷ r) below above = elim (Bool-cases (ltb i g.height)) [
  | inl tall ↦ rw (tall, above.0)
  | inr short ↦ rw short (stop_at-row key i a [] r tt above.1)
]
stop_at-row key i a (g ∷ l) r below above = elim (Bool-cases (ltb i g.height)) [
  | inl tall ↦ rw (tall, below.0) (stop_at-row key i g.addr l r below.1 above)
  | inr short ↦ rw short (stop_at-row key i a l r below.1 above)
]

Below-back : (key : Bytes) (l r : List Ghost) → Below key (l ++ r) → Below key r
Below-back key [] r b = b
Below-back key (g ∷ l) r b = Below-back key l r b.1

module _ (h : Heap) (key : Bytes) (l r : List Ghost) (below : Below key l)
    (above : NotBelow key r) where
  -- A walk from any place on its way ends at the last node of its level below the key.
  walk-Stands :
      (fuel i x : ℕ)
      → length (l ++ r) < fuel
      → Links h i head (row i (l ++ r))
      → Stands i l x
      → walk fuel h i key x ≡ done (last_tall i head l)
  walk-Stands fuel i x lt links (front, back, split, e) =
      let whole : l ++ r ≡ front ++ (back ++ r) =
        ap (λ t. t ++ r) split ∙ append_assoc front back r in
      let links' : Links h i head (row i (front ++ (back ++ r))) = rw whole at links in
      let from_x : Links h i x (row i (back ++ r)) =
        rw e (Links-skip h i head front (back ++ r) links') in
      let few = length-row i (back ++ r) in
      let sum = ap length whole in
      let below_back : Below key back = Below-back key front back (rw split at below) in
      walk-Links fuel h i key x (row i (back ++ r))
        (omega (arith, few, sum, length-append front (back ++ r))) from_x
      ∙ ap done (
          stop_at-row key i x back r below_back above
          ∙ rw e (sym (rw split (last_tall-append i head front back))))

-- The last nodes below the key on levels 0 to n - 1.
abbrev pub path : ℕ → List Ghost → List ℕ
path zero l = []
path (suc i) l = path i l ++ last_tall i head l ∷ []

module _ (h : Heap) (key : Bytes) (l r : List Ghost) (below : Below key l)
    (above : NotBelow key r) where
  descend_step :
      (fuel i x y : ℕ) (p : List ℕ × ℕ)
      → walk fuel h i key x ≡ done y
      → descend fuel h i key y ≡ done p
      → descend fuel h (suc i) key x ≡ done (p.0 ++ y ∷ [], p.1)
  unfolding descend
  descend_step fuel i x y p e f = rw (e, f)

  descend-path :
      (fuel i x : ℕ)
      → length (l ++ r) < fuel
      → ((j : ℕ) → j ≤ i → Links h j head (row j (l ++ r)))
      → Stands i l x
      → descend fuel h (suc i) key x ≡ done (path (suc i) l, last_tall 0 head l)
  descend-path fuel zero x lt links stands =
      descend_step fuel 0 x (last_tall 0 head l) ([], last_tall 0 head l)
        (walk-Stands h key l r below above fuel 0 x lt (links 0 (omega arith)) stands)
        (unfold descend in refl)
  descend-path fuel (suc i) x lt links stands =
      descend_step fuel (suc i) x (last_tall (suc i) head l) (path (suc i) l, last_tall 0 head l)
        (walk-Stands h key l r below above fuel (suc i) x lt (links (suc i) (omega arith)) stands)
        (descend-path fuel i (last_tall (suc i) head l) lt (λ j le. links j (omega arith))
          (Stands-down i (suc i) l (omega arith)))

  pub descend_lem :
      (fuel n : ℕ)
      → 0 < n
      → length (l ++ r) < fuel
      → ((j : ℕ) → j < n → Links h j head (row j (l ++ r)))
      → descend fuel h n key head ≡ done (path n l, last_tall 0 head l)
  descend_lem fuel zero low lt links = absurd (omega arith)
  descend_lem fuel (suc i) low lt links =
      descend-path fuel i head lt (λ j le. links j (omega arith)) ([], l, refl, refl)

-- The nodes below a key, and the others.
abbrev pub lower : Bytes → List Ghost → List Ghost
lower key [] = []
lower key (g ∷ gs) = if bytes_lt g.key key then g ∷ lower key gs else []

abbrev pub upper : Bytes → List Ghost → List Ghost
upper key [] = []
upper key (g ∷ gs) = if bytes_lt g.key key then upper key gs else g ∷ gs

pub lower-append-upper : (key : Bytes) (gs : List Ghost) → lower key gs ++ upper key gs ≡ gs
lower-append-upper key [] = refl
lower-append-upper key (g ∷ gs) = ground (arith, lower-append-upper key gs)

pub lower-Below : (key : Bytes) (gs : List Ghost) → Below key (lower key gs)
lower-Below key [] = tt
lower-Below key (g ∷ gs) = elim (Bool-cases (bytes_lt g.key key)) [
  | inl b ↦ rw b (b, lower-Below key gs)
  | inr n ↦ rw n tt
]

Above-NotBelow :
    (key k : Bytes) (gs : List Ghost) → bytes_lt k key ≡ false → Above k gs → NotBelow key gs
Above-NotBelow key k [] h a = tt
Above-NotBelow key k (g ∷ gs) h a =
    let not_below : bytes_lt g.key key ≡ false = elim (Bool-cases (bytes_lt g.key key)) [
      | inl b ↦ let lt = ≺_trans k g.key key a.0 (is_lt→lt _ b) in cc (lt, h)
      | inr n ↦ n
    ] in
    (not_below, Above-NotBelow key k gs h a.1)

pub upper-NotBelow : (key : Bytes) (gs : List Ghost) → Sorted gs → NotBelow key (upper key gs)
upper-NotBelow key [] s = tt
upper-NotBelow key (g ∷ gs) s = elim (Bool-cases (bytes_lt g.key key)) [
  | inl b ↦ rw b (upper-NotBelow key gs s.1)
  | inr n ↦ rw n (n, Above-NotBelow key g.key gs n s.0)
]

-- What a node's memory holds.
pub record IsNode (h : Heap) (g : Ghost) : Type 0 where
  pub node : Node
  pub loaded : load h g.addr ≡ done node
  pub key : node.key ≡ g.key
  pub value : node.value ≡ g.value
  pub tall : length node.forward ≡ g.height
  pub low : 0 < g.height
  pub allocated : g.addr < h.fresh
  pub not_head : 0 < g.addr

-- A skip list that holds these nodes: they ascend strictly, each level below the maximal links
-- exactly the nodes that are taller, and the counters are right.
pub record IsValid (s : SkipList) (gs : List Ghost) : Type 0 where
  pub sorted : Sorted gs
  pub levels : (i : ℕ) → i < s.max_level → Links s.heap i head (row i gs)
  pub nodes : All (IsNode s.heap) gs
  pub heights : All (λ (g : Ghost). g.height ≤ s.current_level) gs
  pub some_level : 0 < s.current_level
  pub within : s.current_level ≤ s.max_level
  pub count : s.node_count ≡ length gs
  pub head_allocated : head < s.heap.fresh

module _ (s : SkipList) (gs : List Ghost) (v : IsValid s gs) (key : Bytes) where
  abbrev l : List Ghost
  l = lower key gs

  -- The search path of put, get and erase on a valid list: on each level the last node below.
  pub search_path_lem : search_path s key ≡ done (path s.current_level l, last_tall 0 head l)
  unfolding search_path
  search_path_lem =
      let cut = lower-append-upper key gs in
      descend_lem s.heap key l (upper key gs) (lower-Below key gs) (upper-NotBelow key gs v.sorted)
        (suc s.node_count) s.current_level v.some_level (rw cut (omega (arith, v.count)))
        (λ j lt. rw cut (v.levels j (omega (arith, v.within))))
