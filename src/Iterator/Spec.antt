-- ===== src/Iterator/Spec.antt =====
-- What an iterator owes: it shows the entries of a list, one after another.
use cpp_kvstore.Common.{◌≡◌, refl, true, false, List, [], ◌∷◌, Option, none, some}
use cpp_kvstore.Common.{if◌then◌else◌, All, done, inl, inr, Bool-cases}
use cpp_kvstore.Common.Bytes.{Bytes}
use cpp_kvstore.Common.Lex.{◌≺◌, ≺_trans, bytes_eq, lex-lt, bytes_eq→eq}
use cpp_kvstore.Iterator.{IteratorEntry, Iterator}

abbrev pub KeysAfter : Bytes → List IteratorEntry → Type 0
KeysAfter k es = All (λ (e : IteratorEntry). k ≺ e.key) es

-- Strictly ascending keys.
abbrev pub Ascending : List IteratorEntry → Type 0
Ascending [] = Unit
Ascending (e ∷ es) = KeysAfter e.key es × Ascending es

-- The first entry with the key.
abbrev pub find_entry : Bytes → List IteratorEntry → Option IteratorEntry
find_entry key [] = none
find_entry key (e ∷ es) = if bytes_eq e.key key then some e else find_entry key es

-- The list without an entry with the key at its front.
abbrev pub drop_key : Bytes → List IteratorEntry → List IteratorEntry
drop_key key [] = []
drop_key key (e ∷ es) = if bytes_eq e.key key then es else e ∷ es

-- From the state on, the iterator shows exactly these entries, and no step of it faults.
abbrev pub Yields : {S : Type 0} → Iterator S → S → List IteratorEntry → Type 0
Yields I s [] = I.valid s ≡ false
Yields {S = S} I s (e ∷ es) =
    (I.valid s ≡ true) × (I.entry s ≡ e) × (s' : S) × (I.next s ≡ done s') × Yields I s' es

pub KeysAfter-trans :
    (a b : Bytes) (es : List IteratorEntry) → a ≺ b → KeysAfter b es → KeysAfter a es
KeysAfter-trans a b [] lt after = tt
KeysAfter-trans a b (e ∷ es) lt after =
    (≺_trans a b e.key lt after.0, KeysAfter-trans a b es lt after.1)

pub bytes_eq-after : (a b : Bytes) → a ≺ b → bytes_eq b a ≡ false
bytes_eq-after a b lt = rw (lex-lt a b lt) refl

pub drop_key-after : (k : Bytes) (es : List IteratorEntry) → KeysAfter k es → drop_key k es ≡ es
drop_key-after k [] after = refl
drop_key-after k (e ∷ es) after = rw (bytes_eq-after k e.key after.0) refl

pub find_entry-after :
    (k : Bytes) (es : List IteratorEntry) → KeysAfter k es → find_entry k es ≡ none
find_entry-after k [] after = refl
find_entry-after k (e ∷ es) after =
    rw (bytes_eq-after k e.key after.0) (find_entry-after k es after.1)

pub drop_key-Ascending :
    (k : Bytes) (es : List IteratorEntry) → Ascending es → Ascending (drop_key k es)
drop_key-Ascending k [] up = tt
drop_key-Ascending k (e ∷ es) up = elim (Bool-cases (bytes_eq e.key k)) [
  | inl same ↦ rw same up.1
  | inr other ↦ rw other up
]

-- Another key is found as before.
pub find_entry-drop_key :
    (k key : Bytes) (es : List IteratorEntry)
    → bytes_eq key k ≡ false
    → find_entry k (drop_key key es) ≡ find_entry k es
find_entry-drop_key k key [] ne = refl
find_entry-drop_key k key (e ∷ es) ne = elim (Bool-cases (bytes_eq e.key key)) [
  | inl same ↦
      let keys = bytes_eq→eq e.key key same in
      let other : bytes_eq e.key k ≡ false = rw keys ne in rw (same, other) refl
  | inr other ↦ rw other refl
]
