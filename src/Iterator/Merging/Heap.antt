-- ===== src/Iterator/Merging/Heap.antt =====
-- The priority queue: what pop_top takes, and the order of its items.
use cpp_kvstore.Common.{ℕ, suc, ◌≤◌, ◌≡◌, ◌≢◌, refl, sym, ap, ◌∙◌, arith, true, false}
use cpp_kvstore.Common.{List, [], ◌∷◌, ◌++◌, none, some, inl, inr, ◌⊎◌, Bool-cases}
use cpp_kvstore.Common.{if◌then◌else◌, length, All}
use cpp_kvstore.Common.Bytes.{Bytes}
use cpp_kvstore.Common.Lex.{◌≺◌, ≺_trans, bytes_eq, lex-eq, lex-gt, lex-lt, Ordering-cases}
use cpp_kvstore.Iterator.{IteratorEntry}
use cpp_kvstore.Iterator.Merging.{HeapItem, item_gt, pop_top}

-- The item's key is before the other's, or the same with at least its sequence number.
abbrev pub Precedes : IteratorEntry → IteratorEntry → Type 0
Precedes a b = (a.key ≺ b.key) ⊎ ((a.key ≡ b.key) × (b.sequence ≤ a.sequence))

Precedes-item_gt : (a b : HeapItem) → item_gt a b ≡ false → Precedes a.entry b.entry
unfolding item_gt
Precedes-item_gt a b e = elim (Ordering-cases a.entry.key b.entry.key) [
  | inl lt ↦ inl lt
  | inr (inl eq) ↦ inr (lex-eq _ _ eq, (let f = rw eq at e in ground arith))
  | inr (inr gt) ↦ absurd (cc (rw (gt, lex-gt a.entry.key b.entry.key gt) at e))
]

item_gt-Precedes : (a b : HeapItem) → item_gt a b ≡ true → Precedes b.entry a.entry
unfolding item_gt
item_gt-Precedes a b e = elim (Ordering-cases a.entry.key b.entry.key) [
  | inl lt ↦ absurd (cc (rw (lt, lex-lt a.entry.key b.entry.key lt) at e))
  | inr (inl eq) ↦ inr (sym (lex-eq _ _ eq), (let f = rw eq at e in ground arith))
  | inr (inr gt) ↦ inl (lex-gt _ _ gt)
]

Precedes-trans : (a b c : IteratorEntry) → Precedes a b → Precedes b c → Precedes a c
Precedes-trans a b c (inl p) (inl q) = inl (≺_trans a.key b.key c.key p q)
Precedes-trans a b c (inl p) (inr (q, s)) = inl (rw (← q) p)
Precedes-trans a b c (inr (p, r)) (inl q) = inl (rw p q)
Precedes-trans a b c (inr (p, r)) (inr (q, s)) = inr (p ∙ q, omega arith)

Precedes-refl : (a : IteratorEntry) → Precedes a a
Precedes-refl a = inr (refl, omega arith)

abbrev pub AllPreceded : IteratorEntry → List HeapItem → Type 0
AllPreceded e items = All (λ (x : HeapItem). Precedes e x.entry) items

AllPreceded-trans :
    (a b : IteratorEntry) (items : List HeapItem)
    → Precedes a b
    → AllPreceded b items
    → AllPreceded a items
AllPreceded-trans a b [] p all = tt
AllPreceded-trans a b (x ∷ xs) p all =
    (Precedes-trans a b x.entry p all.0, AllPreceded-trans a b xs p all.1)

-- The queue with its top in the middle, and without it.
pub record Takes (top : HeapItem) (rest items : List HeapItem) : Type 0 where
  pub front : List HeapItem
  pub back : List HeapItem
  pub before : items ≡ front ++ top ∷ back
  pub after : rest ≡ front ++ back
  pub least : AllPreceded top.entry items

pop_cons :
    (x y : HeapItem) (xs ys : List HeapItem)
    → pop_top xs ≡ some (y, ys)
    → pop_top (x ∷ xs) ≡ (if item_gt x y then some (y, x ∷ ys) else some (x, xs))
unfolding pop_top
pop_cons x y xs ys e = rw e refl

pub pop_top-cases :
    (items : List HeapItem)
    → ((items ≡ []) × (pop_top items ≡ none))
      ⊎ ((top : HeapItem) × (rest : List HeapItem) × (pop_top items ≡ some (top, rest))
          × Takes top rest items)
pop_top-cases [] = inl (refl, unfold pop_top in refl)
pop_top-cases (x ∷ xs) = elim (pop_top-cases xs) [
  | inl (e, f) ↦
      let popped : pop_top (x ∷ xs) ≡ some (x, xs) = unfold pop_top in (rw f refl) in
      inr (
        x,
        xs,
        popped,
        record {
          front = [];
          back = xs;
          before = refl;
          after = refl;
          least = (Precedes-refl x.entry, rw e tt);
        },
      )
  | inr (y, ys, f, t) ↦ elim (Bool-cases (item_gt x y)) [
    | inl gt ↦ inr (
      y,
      x ∷ ys,
      pop_cons x y xs ys f ∙ rw gt refl,
      record {
        front = x ∷ t.front;
        back = t.back;
        before = ap (λ l. x ∷ l) t.before;
        after = ap (λ l. x ∷ l) t.after;
        least = (item_gt-Precedes x y gt, t.least);
      },
    )
    | inr le ↦ inr (
      x,
      xs,
      pop_cons x y xs ys f ∙ rw le refl,
      record {
        front = [];
        back = xs;
        before = refl;
        after = refl;
        least = (
          Precedes-refl x.entry,
          AllPreceded-trans x.entry y.entry xs (Precedes-item_gt x y le) t.least,
        );
      },
    )
  ]
]

-- No two items of the queue are of the same child.
abbrev pub Apart : List HeapItem → Type 0
Apart [] = Unit
Apart (x ∷ xs) = All (λ (y : HeapItem). y.child_index ≢ x.child_index) xs × Apart xs

abbrev pub Has : ℕ → IteratorEntry → List HeapItem → Type 0
Has i e [] = ⊥
Has i e (x ∷ xs) = ((x.child_index ≡ i) × (x.entry ≡ e)) ⊎ Has i e xs

pub Apart-middle :
    (front : List HeapItem) (x : HeapItem) (back : List HeapItem)
    → Apart (front ++ x ∷ back)
    → Apart (front ++ back) × All (λ (y : HeapItem). y.child_index ≢ x.child_index) (front ++ back)
Apart-middle [] x back h = (h.1, h.0)
Apart-middle (y ∷ front) x back h =
    let rest = Apart-middle front x back h.1 in
    let others = split front x back h.0 in ((others.0, rest.0), ((λ e. others.1 (sym e)), rest.1))
  where
    split :
        (front : List HeapItem) (x : HeapItem) (back : List HeapItem)
        → All (λ (z : HeapItem). z.child_index ≢ y.child_index) (front ++ x ∷ back)
        → All (λ (z : HeapItem). z.child_index ≢ y.child_index) (front ++ back)
          × (x.child_index ≢ y.child_index)
    split [] x back h = (h.1, h.0)
    split (z ∷ front) x back h = let r = split front x back h.1 in ((h.0, r.0), r.1)

pub Has-middle :
    (i : ℕ) (e : IteratorEntry) (front : List HeapItem) (x : HeapItem) (back : List HeapItem)
    → Has i e (front ++ x ∷ back)
    → ((x.child_index ≡ i) × (x.entry ≡ e)) ⊎ Has i e (front ++ back)
Has-middle i e [] x back h = h
Has-middle i e (y ∷ front) x back (inl h) = inr (inl h)
Has-middle i e (y ∷ front) x back (inr h) = elim (Has-middle i e front x back h) [
  | inl here ↦ inl here
  | inr there ↦ inr (inr there)
]

pub AllPreceded-Has :
    (a e : IteratorEntry) (i : ℕ) (items : List HeapItem)
    → AllPreceded a items
    → Has i e items
    → Precedes a e
AllPreceded-Has a e i [] all h = absurd h
AllPreceded-Has a e i (x ∷ items) all (inl (p, q)) = rw (← q) all.0
AllPreceded-Has a e i (x ∷ items) all (inr h) = AllPreceded-Has a e i items all.1 h

-- How many items have the key.
abbrev pub count_key : Bytes → List HeapItem → ℕ
count_key k [] = 0
count_key k (x ∷ xs) = if bytes_eq x.entry.key k then suc (count_key k xs) else count_key k xs

pub count_key-middle :
    (k : Bytes) (front : List HeapItem) (x : HeapItem) (back : List HeapItem)
    → bytes_eq x.entry.key k ≡ true
    → count_key k (front ++ x ∷ back) ≡ suc (count_key k (front ++ back))
count_key-middle k [] x back e = rw e refl
count_key-middle k (y ∷ front) x back e = ground (arith, count_key-middle k front x back e)

pub count_key-le : (k : Bytes) (items : List HeapItem) → count_key k items ≤ length items
count_key-le k [] = omega arith
count_key-le k (x ∷ xs) = ground (arith, count_key-le k xs)
