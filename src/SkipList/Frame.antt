-- ===== src/SkipList/Frame.antt =====
-- What a write of one forward pointer changes, and what it leaves.
use cpp_kvstore.Common.{ℕ, zero, suc, ◌≡◌, ◌≢◌, refl, sym, ap, ◌∙◌, arith, true, false}
use cpp_kvstore.Common.{List, [], ◌∷◌, Option, none, some, inl, inr, ◌⊎◌, Bool-cases}
use cpp_kvstore.Common.{
  if◌then◌else◌, ltb, ◌==◌, length, get_elem?, set, Run, done, fault, stuck, ◌>>=◌,
}
use cpp_kvstore.SkipList.{Pointer, Node, Heap, load, forward_at, store, set_forward}

-- The key, the value and the height of a node.
abbrev pub SameNode : Node → Node → Type 0
SameNode n m = (n.key ≡ m.key) × (n.value ≡ m.value) × (length n.forward ≡ length m.forward)

-- Every node is there, with its key, value and height.
abbrev pub Keeps : Heap → Heap → Type 0
Keeps h h' =
    ((b : ℕ) (n : Node) → load h b ≡ done n → (m : Node) × (load h' b ≡ done m) × SameNode m n)
    × (h'.fresh ≡ h.fresh)

-- h' is h with p->forward[i] = q for the node p at a.
pub record Sets (h : Heap) (i a : ℕ) (q : Pointer) (h' : Heap) : Type 0 where
  pub here : forward_at h' i a ≡ done q
  pub other_node : (j b : ℕ) → b ≢ a → forward_at h' j b ≡ forward_at h j b
  pub other_level : (j b : ℕ) → j ≢ i → forward_at h' j b ≡ forward_at h j b
  pub keeps : Keeps h h'

set_here :
    (i : ℕ) (ps : List Pointer) (q p : Pointer)
    → get_elem? ps i ≡ some p
    → get_elem? (set ps i q) i ≡ some q
set_here i [] q p e = absurd (cc e)
set_here zero (x ∷ ps) q p e = refl
set_here (suc i) (x ∷ ps) q p e = set_here i ps q p e

set_other :
    (i j : ℕ) (ps : List Pointer) (q : Pointer) → j ≢ i → get_elem? (set ps i q) j ≡ get_elem? ps j
set_other i j [] q ne = refl
set_other zero zero (x ∷ ps) q ne = absurd (ne refl)
set_other zero (suc j) (x ∷ ps) q ne = refl
set_other (suc i) zero (x ∷ ps) q ne = refl
set_other (suc i) (suc j) (x ∷ ps) q ne = set_other i j ps q (λ e. ne (ap suc e))

length-set : (i : ℕ) (ps : List Pointer) (q : Pointer) → length (set ps i q) ≡ length ps
length-set i [] q = refl
length-set zero (x ∷ ps) q = refl
length-set (suc i) (x ∷ ps) q = ap suc (length-set i ps q)

get_elem?-lt :
    (i : ℕ) (ps : List Pointer) (p : Pointer) → get_elem? ps i ≡ some p → ltb i (length ps) ≡ true
get_elem?-lt i [] p e = absurd (cc e)
get_elem?-lt zero (x ∷ ps) p e = ground arith
get_elem?-lt (suc i) (x ∷ ps) p e = let lt = get_elem?-lt i ps p e in ground (arith, lt)

pub load-store : (h : Heap) (a : ℕ) (n : Node) → load (store h a (some n)) a ≡ done n
unfolding load store
load-store h a n = ground arith

pub load-store_other :
    (h : Heap) (a b : ℕ) (o : Option Node) → b ≢ a → load (store h a o) b ≡ load h b
unfolding load store
load-store_other h a b o ne =
    ap (λ x. elim x as (λ y. Run Node) [ none ↦ fault | some n ↦ done n ])
      (apart (Bool-cases (b == a)))
  where
    apart : ((b == a) ≡ true) ⊎ ((b == a) ≡ false) → (if b == a then o else h.node b) ≡ h.node b
    apart (inl e) = absurd (ne (ground (arith, e)))
    apart (inr e) = rw e refl

module _ {ℓ} {A : Type ℓ} {B : Type ℓ} where
  pub bind-done :
      (r : Run A) (f : A → Run B) (y : B)
      → (r >>= f) ≡ done y
      → (x : A) × (r ≡ done x) × (f x ≡ done y)
  bind-done (done x) f y e = (x, refl, e)
  bind-done fault f y e = absurd (cc e)
  bind-done stuck f y e = absurd (cc e)

pick : Option Pointer → Run Pointer
pick o = elim o [ none ↦ fault | some p ↦ done p ]

pick-done : (o : Option Pointer) (p : Pointer) → pick o ≡ done p → o ≡ some p
unfolding pick
pick-done none p e = absurd (cc e)
pick-done (some q) p e = cc e

forward_at-split :
    (h : Heap) (i a : ℕ) (p : Pointer)
    → forward_at h i a ≡ done p
    → (n : Node) × (load h a ≡ done n) × (get_elem? n.forward i ≡ some p)
unfolding forward_at pick
forward_at-split h i a p e =
    let (n, loaded, at) = bind-done (load h a) (λ m. pick (get_elem? m.forward i)) p e in
    (n, loaded, pick-done (get_elem? n.forward i) p at)

forward_at-load :
    (h : Heap) (i a : ℕ) (n : Node)
    → load h a ≡ done n
    → forward_at h i a ≡ pick (get_elem? n.forward i)
unfolding forward_at pick
forward_at-load h i a n e = rw e refl

pub forward_at-same :
    (h h' : Heap) (i b : ℕ) → load h' b ≡ load h b → forward_at h' i b ≡ forward_at h i b
unfolding forward_at
forward_at-same h h' i b e = rw e refl

pub eq_split : (a b : ℕ) → (b ≡ a) ⊎ (b ≢ a)
eq_split a b = elim (Bool-cases (b == a)) [
  | inl e ↦ inl (ground (arith, e))
  | inr e ↦ inr (ground (arith, e))
]

set_level :
    (h : Heap) (i a j b : ℕ) (n : Node) (q : Pointer)
    → load h a ≡ done n
    → j ≢ i
    → forward_at (store h a (some (record n { forward = set n.forward i q }))) j b
      ≡ forward_at h j b
set_level h i a j b n q loaded ne =
    let m : Node = record n { forward = set n.forward i q } in
    elim (eq_split a b) [
      | inl e ↦ rw e (
          forward_at-load (store h a (some m)) j a m (load-store h a m)
          ∙ ap pick (set_other i j n.forward q ne)
          ∙ sym (forward_at-load h j a n loaded))
      | inr apart ↦
          forward_at-same h (store h a (some m)) j b (load-store_other h a b (some m) apart)
    ]

set_keeps :
    (h : Heap) (i a b : ℕ) (n k : Node) (q : Pointer)
    → load h a ≡ done n
    → load h b ≡ done k
    → (x : Node) × (load (store h a (some (record n { forward = set n.forward i q }))) b ≡ done x)
      × SameNode x k
set_keeps h i a b n k q loaded at_b =
    let m : Node = record n { forward = set n.forward i q } in
    elim (eq_split a b) [
      | inl e ↦
          let same : k ≡ n = cc (loaded, at_b, e) in
          let kept : SameNode m k = rw same (refl, refl, length-set i n.forward q) in
          (m, rw e (load-store h a m), kept)
      | inr apart ↦
          let kept : SameNode k k = (refl, refl, refl) in
          (k, load-store_other h a b (some m) apart ∙ at_b, kept)
    ]

-- A pointer that can be read can be set.
pub set_forward_lem :
    (h : Heap) (i a : ℕ) (p q : Pointer)
    → forward_at h i a ≡ done p
    → (h' : Heap) × (set_forward h i a q ≡ done h') × Sets h i a q h'
unfolding set_forward
set_forward_lem h i a p q e =
    let (n, loaded, at) = forward_at-split h i a p e in
    let m : Node = record n { forward = set n.forward i q } in
    let h' : Heap = store h a (some m) in
    (
      h',
      rw (loaded, get_elem?-lt i n.forward p at) refl,
      record {
        here =
            forward_at-load h' i a m (load-store h a m)
            ∙ ap pick (set_here i n.forward q p at)
            ∙ unfold pick in refl;
        other_node = λ j b ne. forward_at-same h h' j b (load-store_other h a b (some m) ne);
        other_level = λ j b ne. set_level h i a j b n q loaded ne;
        keeps = ((λ b k at_b. set_keeps h i a b n k q loaded at_b), unfold store in refl);
      },
    )
