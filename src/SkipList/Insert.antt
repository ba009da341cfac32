-- ===== src/SkipList/Insert.antt =====
-- What put prepares for a key that is not there: the place in the list and the update array.
use cpp_kvstore.Common.{ℕ, zero, suc, ◌+◌, ◌-◌, ◌≤◌, ◌≡◌, refl, sym, ap, ap₂, ◌∙◌, arith, false}
use cpp_kvstore.Common.{List, [], ◌∷◌, ◌++◌, none, inl, inr, Bool-cases}
use cpp_kvstore.Common.{ltb, replicate, All, done}
use cpp_kvstore.Common.Bytes.{Bytes}
use cpp_kvstore.Common.Lex.{bytes_lt, ◌≺◌, Ordering-cases, lex-gt}
use cpp_kvstore.SkipList.{Heap, head, take_update}
use cpp_kvstore.SkipList.Rows.{Ghost, last_tall, Above, Sorted}
use cpp_kvstore.SkipList.Search.{lower, upper, path, IsNode}
use cpp_kvstore.SkipList.Get.{at_key, Above-chain}
use cpp_kvstore.SkipList.Link.{ups}
use cpp_kvstore.SkipList.Splice.{Avoids, Avoids-later}

-- The update array, level by level.
ups-snoc : (m i : ℕ) (u : ℕ → ℕ) → ups (suc m) i u ≡ ups m i u ++ u (i + m) ∷ []
ups-snoc zero i u = let e : i ≡ i + 0 = omega arith in ap (λ k. u k ∷ []) e
ups-snoc (suc m) i u =
    let e : suc i + m ≡ i + suc m = omega arith in
    ap (λ t. u i ∷ t) (ups-snoc m (suc i) u ∙ ap (λ k. ups m (suc i) u ++ u k ∷ []) e)

ups-append : (m k i : ℕ) (u : ℕ → ℕ) → ups m i u ++ ups k (i + m) u ≡ ups (m + k) i u
ups-append zero k i u =
    let e : i + 0 ≡ i = omega arith in
    let f : k ≡ 0 + k = omega arith in ap (λ j. ups k j u) e ∙ ap (λ j. ups j i u) f
ups-append (suc m) k i u =
    let e : i + suc m ≡ suc i + m = omega arith in
    let f : suc (m + k) ≡ suc m + k = omega arith in
    ap (λ t. u i ∷ t) (ap (λ j. ups m (suc i) u ++ ups k j u) e ∙ ups-append m k (suc i) u)
    ∙ ap (λ j. ups j i u) f

path-ups : (n : ℕ) (l : List Ghost) → path n l ≡ ups n 0 (λ j. last_tall j head l)
path-ups zero l = refl
path-ups (suc n) l =
    let e : 0 + n ≡ n = omega arith in
    ap (λ t. t ++ last_tall n head l ∷ []) (path-ups n l)
    ∙ ap (λ k. ups n 0 (λ j. last_tall j head l) ++ last_tall k head l ∷ []) (sym e)
    ∙ sym (ups-snoc n 0 (λ j. last_tall j head l))

last_tall-low :
    (c j a : ℕ) (l : List Ghost) → c ≤ j → All (λ (g : Ghost). g.height ≤ c) l → last_tall j a l ≡ a
last_tall-low c j a [] le low = refl
last_tall-low c j a (g ∷ l) le low =
    let short : ltb j g.height ≡ false = ground (arith, low.0) in
    rw short (last_tall-low c j a l le low.1)

ups-replicate :
    (m i : ℕ) (u : ℕ → ℕ) (a : ℕ) → ((j : ℕ) → i ≤ j → u j ≡ a) → ups m i u ≡ replicate m a
ups-replicate zero i u a h = refl
ups-replicate (suc m) i u a h =
    ap₂ (λ x t. x ∷ t) (h i (omega arith)) (ups-replicate m (suc i) u a (λ j le. h j (omega arith)))

take_update-ups : (n k i : ℕ) (u : ℕ → ℕ) → take_update n (ups (n + k) i u) ≡ done (ups n i u)
unfolding take_update
take_update-ups n k i u =
    ap (take_update n) (sym (ups-append n k i u)) ∙ front n i (ups k (i + n) u)
  where
    front : (n i : ℕ) (rest : List ℕ) → take_update n (ups n i u ++ rest) ≡ done (ups n i u)
    front zero i rest = refl
    front (suc n) i rest = rw (front n (suc i) rest) refl

-- The array that the splicing loop reads has, on each level, the last node below the key.
pub take_update-path :
    (c n : ℕ) (l : List Ghost)
    → All (λ (g : Ghost). g.height ≤ c) l
    → take_update n (path c l ++ replicate (n - c) head) ≡ done (ups n 0 (λ j. last_tall j head l))
take_update-path c n l low =
    let u : ℕ → ℕ = λ j. last_tall j head l in
    let tail : ups (n - c) (0 + c) u ≡ replicate (n - c) head =
      ups-replicate (n - c) (0 + c) u head (λ j le. last_tall-low c j head l (omega arith) low) in
    let size : c + (n - c) ≡ n + (c - n) = omega arith in
    ap (take_update n) (
      ap₂ (λ x y. x ++ y) (path-ups c l) (sym tail)
      ∙ ups-append c (n - c) 0 u
      ∙ ap (λ k. ups k 0 u) size)
    ∙ take_update-ups n (c - n) 0 u

Above-insert :
    (k key : Bytes) (g : Ghost) (gs : List Ghost)
    → k ≺ g.key
    → Above k gs
    → Above k (lower key gs ++ g ∷ upper key gs)
Above-insert k key g [] lt above = (lt, tt)
Above-insert k key g (x ∷ gs) lt above = elim (Bool-cases (bytes_lt x.key key)) [
  | inl b ↦ rw b (above.0, Above-insert k key g gs lt above.1)
  | inr b ↦ rw b (lt, above)
]

-- A new key at its place keeps the order.
pub Sorted-insert :
    (key : Bytes) (g : Ghost) (gs : List Ghost)
    → g.key ≡ key
    → at_key key (upper key gs) ≡ none
    → Sorted gs
    → Sorted (lower key gs ++ g ∷ upper key gs)
Sorted-insert key g [] e absent s = (tt, tt)
Sorted-insert key g (x ∷ gs) e absent s = elim (Ordering-cases x.key key) [
  | inl lt ↦
      let absent' : at_key key (upper key gs) ≡ none = rw lt at absent in
      let below : x.key ≺ g.key = rw e lt in
      rw lt (Above-insert x.key key g gs below s.0, Sorted-insert key g gs e absent' s.1)
  | inr (inl eq) ↦ absurd (cc (rw (eq, eq) at absent))
  | inr (inr gt) ↦
      let before : g.key ≺ x.key = rw e (lex-gt x.key key gt) in
      let above : Above g.key (x ∷ gs) = (before, Above-chain g.key x.key gs before s.0) in
      rw gt (above, s)
]

-- The node that a level's search ends at is none of those behind.
pub last_tall-Avoids :
    (h : Heap) (i a : ℕ) (l r : List Ghost)
    → Sorted (l ++ r)
    → All (IsNode h) (l ++ r)
    → Avoids a (l ++ r)
    → Avoids (last_tall i a l) r
last_tall-Avoids h i a [] r s nodes avoids = avoids
last_tall-Avoids h i a (g ∷ l) r s nodes avoids =
    let later = Avoids-later h g (l ++ r) nodes.0 s.0 nodes.1 in
    elim (Bool-cases (ltb i g.height)) [
      | inl tall ↦ rw tall (last_tall-Avoids h i g.addr l r s.1 nodes.1 later)
      | inr short ↦ rw short (last_tall-Avoids h i a l r s.1 nodes.1 avoids.1)
    ]
