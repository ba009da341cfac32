-- ===== src/Iterator/Merging/Newest.antt =====
-- What the merge of ascending lists holds: each key once, in ascending order, with the entry of the
-- highest sequence number.
use cpp_kvstore.Common.{ℕ, ◌≤◌, ◌<◌, ◌≡◌, refl, sym, ◌∙◌, true, List, [], ◌∷◌, Option, none, some}
use cpp_kvstore.Common.{All, All-map, inl, inr, ◌⊎◌, Bool-cases}
use cpp_kvstore.Common.Bytes.{Bytes}
use cpp_kvstore.Common.Lex.{◌≺◌, bytes_eq, bytes_eq→eq, bytes_eq_refl, lex_refl}
use cpp_kvstore.Iterator.{IteratorEntry}
use cpp_kvstore.Iterator.Spec.{
  KeysAfter, KeysAfter-trans, Ascending, find_entry, drop_key, bytes_eq-after, drop_key-Ascending,
  find_entry-drop_key,
}
use cpp_kvstore.Iterator.Merging.Heap.{Precedes}
use cpp_kvstore.Iterator.Merging.Steps.{Rests}
use cpp_kvstore.Iterator.Merging.Runs.{FromKey, Least, Merges}

-- What n lookups give: the entry of one of them that has the highest sequence number, or nothing.
abbrev pub Newest : ℕ → (ℕ → Option IteratorEntry) → Option IteratorEntry → Type 0
Newest n f none = (i : ℕ) → i < n → f i ≡ none
Newest n f (some e) =
    ((i : ℕ) × (i < n) × (f i ≡ some e))
    × ((i : ℕ) → i < n → (e' : IteratorEntry) → f i ≡ some e' → e'.sequence ≤ e.sequence)

pub record Merged (n : ℕ) (rem : Rests) (es : List IteratorEntry) : Type 0 where
  pub ascending : Ascending es
  pub newest : (k : Bytes) → Newest n (λ i. find_entry k (rem i)) (find_entry k es)

-- Of a list from the key on, dropping the key leaves what is behind it.
pub KeysAfter-drop_key :
    (k : Bytes) (es : List IteratorEntry)
    → Ascending es
    → FromKey k es
    → KeysAfter k (drop_key k es)
KeysAfter-drop_key k [] up from = tt
KeysAfter-drop_key k (e ∷ es) up (inl lt, from) =
    rw (bytes_eq-after k e.key lt) (lt, KeysAfter-trans k e.key es lt up.0)
KeysAfter-drop_key k (e ∷ es) up (inr eq, from) =
    let same : bytes_eq e.key k ≡ true = rw (← eq) (bytes_eq_refl k) in rw same (rw eq up.0)

KeysAfter-dropped :
    (k key : Bytes) (es : List IteratorEntry) → KeysAfter k es → KeysAfter k (drop_key key es)
KeysAfter-dropped k key [] after = tt
KeysAfter-dropped k key (e ∷ es) after = elim (Bool-cases (bytes_eq e.key key)) [
  | inl same ↦ rw same after.1
  | inr other ↦ rw other after
]

KeysAfter-Merges :
    (n : ℕ) (k : Bytes) (rem : Rests) (es : List IteratorEntry)
    → Merges n rem es
    → ((i : ℕ) → i < n → KeysAfter k (rem i))
    → KeysAfter k es
KeysAfter-Merges n k rem [] m after = tt
KeysAfter-Merges n k rem (e ∷ es) m after =
    let (i, lt, xs, at) = (m.0).1 in
    let first : KeysAfter k (e ∷ xs) = rw at at (after i lt) in
    (
      first.0,
      KeysAfter-Merges n k (λ j. drop_key e.key (rem j)) es m.1
          (λ j j_lt. KeysAfter-dropped k e.key (rem j) (after j j_lt)),
    )

find_entry-key :
    (k : Bytes) (es : List IteratorEntry) (e : IteratorEntry)
    → find_entry k es ≡ some e
    → bytes_eq e.key k ≡ true
find_entry-key k [] e h = absurd (cc h)
find_entry-key k (x ∷ es) e h = elim (Bool-cases (bytes_eq x.key k)) [
  | inl same ↦ let f = rw same at h in let g : x ≡ e = cc f in rw (← g) same
  | inr other ↦ find_entry-key k es e (rw other at h)
]

pub All-find_entry :
    (P : IteratorEntry → Type 0) (k : Bytes) (es : List IteratorEntry) (e : IteratorEntry)
    → All P es
    → find_entry k es ≡ some e
    → P e
All-find_entry P k [] e all h = absurd (cc h)
All-find_entry P k (x ∷ es) e all h = elim (Bool-cases (bytes_eq x.key k)) [
  | inl same ↦ let f = rw same at h in let g : x ≡ e = cc f in rw (← g) all.0
  | inr other ↦ All-find_entry P k es e all.1 (rw other at h)
]

Precedes-sequence : (a b : IteratorEntry) → Precedes a b → a.key ≡ b.key → b.sequence ≤ a.sequence
Precedes-sequence a b (inl lt) eq = absurd (cc (rw (eq, lex_refl b.key) at lt))
Precedes-sequence a b (inr p) eq = p.1

Newest-same :
    (n : ℕ) (f g : ℕ → Option IteratorEntry) (o : Option IteratorEntry)
    → ((i : ℕ) → f i ≡ g i)
    → Newest n f o
    → Newest n g o
Newest-same n f g none same new = λ i lt. sym (same i) ∙ new i lt
Newest-same n f g (some e) same new =
    let (i, lt, at) = new.0 in
    ((i, lt, sym (same i) ∙ at), λ j j_lt e' h. new.1 j j_lt e' (same j ∙ h))

Newest-first :
    (n : ℕ) (k : Bytes) (rem : Rests) (e : IteratorEntry)
    → Least n e rem
    → bytes_eq e.key k ≡ true
    → Newest n (λ i. find_entry k (rem i)) (some e)
Newest-first n k rem e least same =
    let (i, lt, xs, at) = least.1 in
    let key = bytes_eq→eq e.key k same in
    (
      (i, lt, rw (at, same) refl),
      λ j j_lt e' h.
          Precedes-sequence e e'
            (All-find_entry (λ (x : IteratorEntry). Precedes e x) k (rem j) e' (least.0 j j_lt) h)
            (key ∙ sym (bytes_eq→eq e'.key k (find_entry-key k (rem j) e' h))),
    )

Newest-Merges :
    (n : ℕ) (k : Bytes) (rem : Rests) (es : List IteratorEntry)
    → Merges n rem es
    → Newest n (λ i. find_entry k (rem i)) (find_entry k es)
Newest-Merges n k rem [] m = λ i lt. rw (m i lt) refl
Newest-Merges n k rem (e ∷ es) m = elim (Bool-cases (bytes_eq e.key k)) [
  | inl same ↦ rw same (Newest-first n k rem e m.0 same)
  | inr other ↦ rw other (
      Newest-same n (λ i. find_entry k (drop_key e.key (rem i))) (λ i. find_entry k (rem i))
        (find_entry k es) (λ i. find_entry-drop_key k e.key (rem i) other)
        (Newest-Merges n k (λ i. drop_key e.key (rem i)) es m.1))
]

pub FromKey-Least :
    (n : ℕ) (e : IteratorEntry) (rem : Rests)
    → Least n e rem
    → (i : ℕ) → i < n
    → FromKey e.key (rem i)
FromKey-Least n e rem least i lt =
    All-map (λ (x : IteratorEntry). Precedes e x)
      (λ (x : IteratorEntry). (e.key ≺ x.key) ⊎ (e.key ≡ x.key)) (λ x p. from x p) (rem i)
      (least.0 i lt)
  where
    from : (x : IteratorEntry) → Precedes e x → (e.key ≺ x.key) ⊎ (e.key ≡ x.key)
    from x (inl p) = inl p
    from x (inr p) = inr p.0

Ascending-Merges :
    (n : ℕ) (rem : Rests) (es : List IteratorEntry)
    → Merges n rem es
    → ((i : ℕ) → i < n → Ascending (rem i))
    → Ascending es
Ascending-Merges n rem [] m up = tt
Ascending-Merges n rem (e ∷ es) m up =
    let dropped : Rests = λ i. drop_key e.key (rem i) in
    (
      KeysAfter-Merges n e.key dropped es m.1
          (λ i lt. KeysAfter-drop_key e.key (rem i) (up i lt) (FromKey-Least n e rem m.0 i lt)),
      Ascending-Merges n dropped es m.1 (λ i lt. drop_key-Ascending e.key (rem i) (up i lt)),
    )

pub Merges-Merged :
    (n : ℕ) (rem : Rests) (es : List IteratorEntry)
    → Merges n rem es
    → ((i : ℕ) → i < n → Ascending (rem i))
    → Merged n rem es
Merges-Merged n rem es m up = record {
  ascending = Ascending-Merges n rem es m up;
  newest = λ k. Newest-Merges n k rem es m;
}
