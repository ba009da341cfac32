-- ===== src/SsTable/Table.antt =====
-- The abstract view of a table: its records in ascending order of their keys.
use cpp_kvstore.Common.{
  ℕ, ◌+◌, ◌≤◌, ◌<◌, ◌^◌, ◌≡◌, refl, sym, ap, ◌∙◌, arith, List, [], ◌∷◌, ◌++◌, Option, none, some,
}
use cpp_kvstore.Common.{if◌then◌else◌, ◌==◌, length, All, length-append, append_assoc, append-nil}
use cpp_kvstore.Common.Bytes.{Bytes}
use cpp_kvstore.Common.Lex.{◌≺◌, ≺_trans, bytes_eq, lex-lt}
use cpp_kvstore.SsTable.Format.{record_bytes, type_value, IndexEntry, Footer}
use cpp_kvstore.SsTable.Format.{index_bytes, footer_bytes, magic_number}
use cpp_kvstore.SsTable.Reader.{Hit}

pub record Entry : Type 0 where
  pub key : Bytes
  pub value : Bytes
  pub type_ : ℕ

-- The lengths and the type fit their fields in the file.
pub record Fits (e : Entry) : Type 0 where
  pub key_fits : length e.key < 2 ^ 32
  pub value_fits : length e.value < 2 ^ 32
  pub type_fits : e.type_ < 256

-- What a lookup that meets the record answers: a value is shown for kTypeValue only.
abbrev pub hit : Entry → Hit
hit e = record { value = if e.type_ == type_value then e.value else []; type_ = e.type_ }

-- The first record with the key.
abbrev pub find : Bytes → List Entry → Option Hit
find key [] = none
find key (e ∷ es) = if bytes_eq e.key key then some (hit e) else find key es

abbrev pub AllAfter : Bytes → List Entry → Type 0
AllAfter key es = All (λ e. key ≺ e.key) es

-- Strictly ascending keys.
abbrev pub Sorted : List Entry → Type 0
Sorted [] = Unit
Sorted (e ∷ es) = AllAfter e.key es × Sorted es

abbrev pub entry_bytes : Entry → Bytes
entry_bytes e = record_bytes e.key e.value e.type_

abbrev pub block_bytes : List Entry → Bytes
block_bytes [] = []
block_bytes (e ∷ es) = entry_bytes e ++ block_bytes es

pub block_bytes-append :
    (es fs : List Entry) → block_bytes (es ++ fs) ≡ block_bytes es ++ block_bytes fs
block_bytes-append [] fs = refl
block_bytes-append (e ∷ es) fs =
    ap (λ b. entry_bytes e ++ b) (block_bytes-append es fs)
    ∙ sym (append_assoc (entry_bytes e) (block_bytes es) (block_bytes fs))

pub AllAfter-trans : (a b : Bytes) (es : List Entry) → a ≺ b → AllAfter b es → AllAfter a es
AllAfter-trans a b [] h all = tt
AllAfter-trans a b (e ∷ es) h all = (≺_trans a b e.key h all.0, AllAfter-trans a b es h all.1)

pub find-none : (key : Bytes) (es : List Entry) → AllAfter key es → find key es ≡ none
find-none key [] h = refl
find-none key (e ∷ es) h = ground (arith, lex-lt key e.key h.0, find-none key es h.1)

-- A record takes at least its nine bytes of type and lengths.
pub length-entry_bytes : (e : Entry) → 9 ≤ length (entry_bytes e)
unfolding record_bytes
length-entry_bytes e = omega arith

-- A table in blocks: the records of each, in order.
abbrev pub flatten : List (List Entry) → List Entry
flatten [] = []
flatten (c ∷ cs) = c ++ flatten cs

abbrev pub blocks_bytes : List (List Entry) → Bytes
blocks_bytes [] = []
blocks_bytes (c ∷ cs) = block_bytes c ++ blocks_bytes cs

abbrev pub last_key : Bytes → List Entry → Bytes
last_key k [] = k
last_key k (e ∷ es) = last_key e.key es

abbrev pub IsNonempty : List Entry → Type 0
IsNonempty [] = ⊥
IsNonempty (e ∷ es) = Unit

-- The index of these blocks, the first of which begins at the offset.
abbrev pub index_of : ℕ → List (List Entry) → List IndexEntry
index_of offset [] = []
index_of offset (c ∷ cs) =
    record { max_key = last_key [] c; offset = offset; size = length (block_bytes c) }
    ∷ index_of (offset + length (block_bytes c)) cs

abbrev pub index_region : List IndexEntry → Bytes
index_region [] = []
index_region (e ∷ es) = index_bytes e ++ index_region es

-- The whole file.
abbrev pub footer_of : List (List Entry) → Footer
footer_of cs = record {
  index_offset = length (blocks_bytes cs);
  index_size = length (index_region (index_of 0 cs));
  magic = magic_number;
}

abbrev pub table_bytes : List (List Entry) → Bytes
table_bytes cs = blocks_bytes cs ++ (index_region (index_of 0 cs) ++ footer_bytes (footer_of cs))

pub flatten-snoc :
    (cs : List (List Entry)) (c : List Entry) → flatten (cs ++ c ∷ []) ≡ flatten cs ++ c
flatten-snoc [] c = append-nil c
flatten-snoc (d ∷ cs) c = ap (λ l. d ++ l) (flatten-snoc cs c) ∙ sym (append_assoc d (flatten cs) c)

pub blocks_bytes-snoc :
    (cs : List (List Entry)) (c : List Entry)
    → blocks_bytes (cs ++ c ∷ []) ≡ blocks_bytes cs ++ block_bytes c
blocks_bytes-snoc [] c = append-nil (block_bytes c)
blocks_bytes-snoc (d ∷ cs) c =
    ap (λ l. block_bytes d ++ l) (blocks_bytes-snoc cs c)
    ∙ sym (append_assoc (block_bytes d) (blocks_bytes cs) (block_bytes c))

pub blocks_bytes-flatten : (cs : List (List Entry)) → blocks_bytes cs ≡ block_bytes (flatten cs)
blocks_bytes-flatten [] = refl
blocks_bytes-flatten (c ∷ cs) =
    ap (λ l. block_bytes c ++ l) (blocks_bytes-flatten cs) ∙ sym (block_bytes-append c (flatten cs))

pub index_of-snoc :
    (offset : ℕ) (cs : List (List Entry)) (c : List Entry)
    → index_of offset (cs ++ c ∷ [])
      ≡ index_of offset cs
        ++ (record {
          max_key = last_key [] c;
          offset = offset + length (blocks_bytes cs);
          size = length (block_bytes c);
        }
            ∷ [])
index_of-snoc offset [] c = let e : offset + 0 ≡ offset = omega arith in rw e
index_of-snoc offset (d ∷ cs) c =
    let e : offset + length (block_bytes d ++ blocks_bytes cs)
        ≡ offset + length (block_bytes d) + length (blocks_bytes cs) =
      omega (arith, length-append (block_bytes d) (blocks_bytes cs)) in
    rw (e, index_of-snoc (offset + length (block_bytes d)) cs c)

pub last_key-snoc : (k : Bytes) (c : List Entry) (e : Entry) → last_key k (c ++ e ∷ []) ≡ e.key
last_key-snoc k [] e = refl
last_key-snoc k (d ∷ c) e = last_key-snoc d.key c e

-- Lookup in a table that is cut in two.
pub find-append_none :
    (key : Bytes) (es fs : List Entry) → find key es ≡ none → find key (es ++ fs) ≡ find key fs
find-append_none key [] fs h = refl
find-append_none key (e ∷ es) fs h = ground (arith, find-append_none key es fs)

pub find-append_back :
    (key : Bytes) (es fs : List Entry) → find key fs ≡ none → find key (es ++ fs) ≡ find key es
find-append_back key [] fs h = h
find-append_back key (e ∷ es) fs h = ground (arith, find-append_back key es fs h)

AllAfter-last : (k d : Bytes) (es : List Entry) → AllAfter k es → IsNonempty es → k ≺ last_key d es
AllAfter-last k d [] all ne = absurd ne
AllAfter-last k d (e ∷ []) all ne = all.0
AllAfter-last k d (e ∷ f ∷ es) all ne = AllAfter-last k e.key (f ∷ es) all.1 tt

-- Below the key if the last record is.
pub find-below :
    (key d : Bytes) (es : List Entry)
    → Sorted es
    → IsNonempty es
    → last_key d es ≺ key
    → find key es ≡ none
find-below key d [] s ne h = refl
find-below key d (e ∷ []) s ne h = rw h
find-below key d (e ∷ f ∷ es) s ne h =
    let before =
      ≺_trans e.key (last_key e.key (f ∷ es)) key (AllAfter-last e.key e.key (f ∷ es) s.0 tt) h in
    rw before (find-below key e.key (f ∷ es) s.1 tt h)

All-append {ℓ} :
    {A : Type 0} (P : A → Type ℓ) (xs ys : List A) → All P (xs ++ ys) → All P xs × All P ys
All-append P [] ys h = (tt, h)
All-append P (x ∷ xs) ys h = let (f, g) = All-append P xs ys h.1 in ((h.0, f), g)

pub Sorted-append : (es fs : List Entry) → Sorted (es ++ fs) → Sorted es × Sorted fs
Sorted-append [] fs h = (tt, h)
Sorted-append (e ∷ es) fs h =
    let (s, t) = Sorted-append es fs h.1 in
    let (before, after) = All-append (λ (f : Entry). e.key ≺ f.key) es fs h.0 in ((before, s), t)

-- The records behind a part are above its last.
pub AllAfter-last_key :
    (d : Bytes) (es fs : List Entry)
    → Sorted (es ++ fs)
    → IsNonempty es
    → AllAfter (last_key d es) fs
AllAfter-last_key d [] fs s ne = absurd ne
AllAfter-last_key d (e ∷ []) fs s ne = s.0
AllAfter-last_key d (e ∷ f ∷ es) fs s ne = AllAfter-last_key e.key (f ∷ es) fs s.1 tt

pub Fits-flatten : (cs : List (List Entry)) → All Fits (flatten cs) → All (All Fits) cs
Fits-flatten [] f = tt
Fits-flatten (c ∷ cs) f = let (g, h) = All-append Fits c (flatten cs) f in (g, Fits-flatten cs h)
