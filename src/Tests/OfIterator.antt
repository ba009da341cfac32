-- ===== src/Tests/OfIterator.antt =====
-- The merging iterator over lists of entries.
use cpp_kvstore.Common.{
  if◌then◌else◌, ℕ, zero, suc, ◌≡◌, refl, Bool, true, false, List, [], ◌∷◌, Option, none, some, Run,
  done, fault, stuck,
}
use cpp_kvstore.Common.Lex.{bytes_lt}
use cpp_kvstore.Common.Bytes.{Bytes}
use cpp_kvstore.Iterator.{IteratorEntry, Iterator, no_entry}
use cpp_kvstore.Iterator.Spec.{Ascending, Yields}
use cpp_kvstore.Iterator.Merging.{MergingIterator, merging_iterator, seek, merged_iterator}
use cpp_kvstore.Iterator.Merging.Newest.{Merged}
use cpp_kvstore.Iterator.Merging.Start.{rest_at, merging_iterator_lem, seek_lem}

-- The entries from the first one on whose key is not below the target.
abbrev not_below : Bytes → List IteratorEntry → List IteratorEntry
not_below target [] = []
not_below target (x ∷ xs) =
    let rest = not_below target xs in if bytes_lt x.key target then rest else x ∷ xs

-- The entries that are left, as an iterator.
abbrev list_iterator : Iterator (List IteratorEntry)
list_iterator = record {
  valid = λ l. elim l [ [] ↦ false | x ∷ xs ↦ true ];
  next = λ l. elim l [ [] ↦ done [] | x ∷ xs ↦ done xs ];
  entry = λ l. elim l [ [] ↦ no_entry | x ∷ xs ↦ x ];
  seek = λ l target. done (not_below target l);
}

abbrev version : ℕ → ℕ → IteratorEntry
version key sequence = record {
  key = key ∷ [];
  value = sequence ∷ [];
  type_ = 1;
  sequence = sequence;
}

abbrev newer : List IteratorEntry
newer = version 97 2 ∷ version 99 2 ∷ []

abbrev older : List IteratorEntry
older = version 97 1 ∷ version 98 1 ∷ []

abbrev children : List (List IteratorEntry)
children = older ∷ newer ∷ []

-- Three keys, the first of them from the newer child.
first_shown : Bool
unfolding merging_iterator cpp_kvstore.Iterator.Merging.find_min
    cpp_kvstore.Iterator.Merging.push_children cpp_kvstore.Iterator.Merging.pop_key
    cpp_kvstore.Iterator.Merging.advance cpp_kvstore.Iterator.Merging.pop_top
    cpp_kvstore.Iterator.Merging.push_child cpp_kvstore.Iterator.Merging.item_gt
first_shown = elim (merging_iterator list_iterator children) [
  | done m ↦ (elim m.current_entry.value [ [] ↦ false | b ∷ bs ↦ bytes_lt (1 ∷ []) (b ∷ []) ])
  | fault ↦ false
  | stuck ↦ false
]

first_version : first_shown ≡ true
unfolding first_shown cpp_kvstore.Common.Lex.lex
first_version = refl

newer-Yields : Yields list_iterator newer newer
newer-Yields = (refl, refl, version 99 2 ∷ [], refl, (refl, refl, [], refl, refl))

older-Yields : Yields list_iterator older older
older-Yields = (refl, refl, version 98 1 ∷ [], refl, (refl, refl, [], refl, refl))

older-Ascending : Ascending older
unfolding cpp_kvstore.Common.Lex.lex
older-Ascending = ((refl, tt), (tt, tt))

newer-Ascending : Ascending newer
unfolding cpp_kvstore.Common.Lex.lex
newer-Ascending = ((refl, tt), (tt, tt))

merging_iterator_lem_example :
    (m : MergingIterator (List IteratorEntry)) × (merging_iterator list_iterator children ≡ done m)
    × ((es : List IteratorEntry) × Yields (merged_iterator list_iterator) m es
        × Merged 2 (rest_at children) es)
merging_iterator_lem_example =
    merging_iterator_lem list_iterator children children
      (older-Yields, older-Ascending, (newer-Yields, newer-Ascending, tt))

abbrev sought : MergingIterator (List IteratorEntry)
sought = record { children = children; min_heap = []; valid = false; current_entry = no_entry }

abbrev older_sought : List IteratorEntry
older_sought = version 98 1 ∷ []

abbrev newer_sought : List IteratorEntry
newer_sought = version 99 2 ∷ []

older_sought-Yields : Yields list_iterator older_sought older_sought
older_sought-Yields = (refl, refl, [], refl, refl)

newer_sought-Yields : Yields list_iterator newer_sought newer_sought
newer_sought-Yields = (refl, refl, [], refl, refl)

-- From the key "b" on: one entry of either child.
seek_lem_example :
    (m' : MergingIterator (List IteratorEntry)) × (seek list_iterator sought (98 ∷ []) ≡ done m')
    × ((es : List IteratorEntry) × Yields (merged_iterator list_iterator) m' es
        × Merged 2 (rest_at (older_sought ∷ newer_sought ∷ [])) es)
unfolding cpp_kvstore.Common.Lex.lex
seek_lem_example = seek_lem list_iterator sought (98 ∷ []) (older_sought ∷ newer_sought ∷ []) (
  (older_sought, refl, older_sought-Yields),
  (tt, tt),
  ((newer_sought, refl, newer_sought-Yields), (tt, tt), tt),
)
