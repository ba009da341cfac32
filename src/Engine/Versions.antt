-- ===== src/Engine/Versions.antt =====
-- Lists of entries, a newer version's in front: the newest entry of a key is the first.
use cpp_kvstore.Common.{ℕ, zero, suc, ◌<◌, ◌≡◌, refl, sym, ap, ◌∙◌, arith, inl, inr, ◌⊎◌}
use cpp_kvstore.Common.{List, [], ◌∷◌, Option, none, some, length, All}
use cpp_kvstore.Common.Bytes.{Bytes}
use cpp_kvstore.Iterator.{IteratorEntry}
use cpp_kvstore.Iterator.Spec.{find_entry}
use cpp_kvstore.Iterator.Merging.Newest.{Newest, All-find_entry}
use cpp_kvstore.Iterator.Merging.Start.{rest_at}

-- Every entry of a list has a sequence number below the bound.
abbrev pub SequencesBelow : ℕ → List IteratorEntry → Type 0
SequencesBelow bound es = All (λ (e : IteratorEntry). e.sequence < bound) es

-- The entries of each list have one sequence number, and a higher one than those of later lists.
abbrev pub Versions : List (List IteratorEntry) → Type 0
Versions [] = Unit
Versions (l ∷ ls) =
    (n : ℕ) × All (λ (e : IteratorEntry). e.sequence ≡ n) l
    × All (λ (es : List IteratorEntry). SequencesBelow n es) ls
    × Versions ls

abbrev pub or_else : Option IteratorEntry → Option IteratorEntry → Option IteratorEntry
or_else none b = b
or_else (some e) b = some e

abbrev pub first_found : Bytes → List (List IteratorEntry) → Option IteratorEntry
first_found k [] = none
first_found k (l ∷ ls) = or_else (find_entry k l) (first_found k ls)

All-rest_at :
    (P : List IteratorEntry → Type 0) (ls : List (List IteratorEntry)) (i : ℕ)
    → i < length ls
    → All P ls
    → P (rest_at ls i)
All-rest_at P [] i lt all = absurd (omega arith)
All-rest_at P (l ∷ ls) zero lt all = all.0
All-rest_at P (l ∷ ls) (suc i) lt all = All-rest_at P ls i (omega arith) all.1

Newest-none :
    (k : Bytes) (l : List IteratorEntry) (ls : List (List IteratorEntry)) (o : Option IteratorEntry)
    → find_entry k l ≡ none
    → Newest (suc (length ls)) (λ i. find_entry k (rest_at (l ∷ ls) i)) o
    → Newest (length ls) (λ i. find_entry k (rest_at ls i)) o
Newest-none k l ls none e new = λ i lt. new (suc i) (omega arith)
Newest-none k l ls (some x) e ((zero, lt, at), most) = absurd (cc (e, at))
Newest-none k l ls (some x) e ((suc i, lt, at), most) =
    ((i, omega arith, at), λ j j_lt y h. most (suc j) (omega arith) y h)

entry_cases : (o : Option IteratorEntry) → (o ≡ none) ⊎ ((x : IteratorEntry) × (o ≡ some x))
entry_cases none = inl refl
entry_cases (some x) = inr (x, refl)

Newest-front :
    (k : Bytes) (l : List IteratorEntry) (ls : List (List IteratorEntry)) (x : IteratorEntry)
    (o : Option IteratorEntry)
    → Versions (l ∷ ls)
    → find_entry k l ≡ some x
    → Newest (suc (length ls)) (λ i. find_entry k (rest_at (l ∷ ls) i)) o
    → o ≡ some x
Newest-front k l ls x none versions e new = absurd (cc (e, new 0 (omega arith)))
Newest-front k l ls x (some y) versions e ((zero, lt, at), most) = sym at ∙ e
Newest-front k l ls x (some y) versions e ((suc i, lt, at), most) =
    let n = versions.0 in
    let first : x.sequence ≡ n =
      All-find_entry (λ (z : IteratorEntry). z.sequence ≡ n) k l x versions.1 e in
    let below : SequencesBelow n (rest_at ls i) =
      All-rest_at (SequencesBelow n) ls i (omega arith) versions.2 in
    let later : y.sequence < n =
      All-find_entry (λ (z : IteratorEntry). z.sequence < n) k (rest_at ls i) y below at in
    absurd (omega (arith, most 0 (omega arith) x e, first, later))

-- With a higher sequence number in front, the newest entry is the first.
pub Newest-first_found :
    (k : Bytes) (ls : List (List IteratorEntry)) (o : Option IteratorEntry)
    → Versions ls
    → Newest (length ls) (λ i. find_entry k (rest_at ls i)) o
    → o ≡ first_found k ls
Newest-first_found k [] none versions new = refl
Newest-first_found k [] (some x) versions ((i, lt, at), most) = absurd (omega arith)
Newest-first_found k (l ∷ ls) o versions new = elim (entry_cases (find_entry k l)) [
  | inl e ↦
      Newest-first_found k ls o versions.3 (Newest-none k l ls o e new)
      ∙ sym (ap (λ p. or_else p (first_found k ls)) e)
  | inr (x, e) ↦
      Newest-front k l ls x o versions e new ∙ sym (ap (λ p. or_else p (first_found k ls)) e)
]
