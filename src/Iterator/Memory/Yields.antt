-- ===== src/Iterator/Memory/Yields.antt =====
-- A SkipListIterator over a valid skip list shows its nodes.
use cpp_kvstore.Common.{ℕ, zero, suc, ◌+◌, ◌≤◌, ◌≡◌, refl, ap, arith, true}
use cpp_kvstore.Common.{
  List, [], ◌∷◌, ◌++◌, none, some, append_assoc, length-append, get_elem?-append_length,
}
use cpp_kvstore.Common.{ltb, length, All, All-append-right, done}
use cpp_kvstore.Common.Bytes.{Bytes}
use cpp_kvstore.SkipList.{SkipList, Heap, head}
use cpp_kvstore.SkipList.Rows.{Ghost, first_of, Links, Above, Sorted}
use cpp_kvstore.SkipList.Search.{IsNode, IsValid, lower, upper, lower-append-upper}
use cpp_kvstore.SkipList.Get.{row-IsNode}
use cpp_kvstore.SkipList.Seek.{find_greater_or_equal_lem}
use cpp_kvstore.SkipList.Clear.{Nexts, Nexts-Links}
use cpp_kvstore.Iterator.{IteratorEntry, no_entry}
use cpp_kvstore.Iterator.Spec.{KeysAfter, Ascending, Yields}
use cpp_kvstore.Iterator.Memory.{
  SkipListIterator, copy_from, skip_list_iterator, valid, next, entry, memory_iterator,
}

-- What the iterator shows of these nodes.
abbrev pub node_entries : ℕ → List Ghost → List IteratorEntry
node_entries sequence [] = []
node_entries sequence (g ∷ gs) =
    record { key = g.key; value = g.value.value; type_ = g.value.type_; sequence = sequence }
    ∷ node_entries sequence gs

KeysAfter-Above :
    (sequence : ℕ) (k : Bytes) (gs : List Ghost)
    → Above k gs
    → KeysAfter k (node_entries sequence gs)
KeysAfter-Above sequence k [] above = tt
KeysAfter-Above sequence k (g ∷ gs) above = (above.0, KeysAfter-Above sequence k gs above.1)

pub Ascending-Sorted :
    (sequence : ℕ) (gs : List Ghost) → Sorted gs → Ascending (node_entries sequence gs)
Ascending-Sorted sequence [] sorted = tt
Ascending-Sorted sequence (g ∷ gs) sorted =
    (KeysAfter-Above sequence g.key gs sorted.0, Ascending-Sorted sequence gs sorted.1)

-- Entries that were shown, and those that are left.
Yields-back :
    (sequence : ℕ) (front back : List IteratorEntry)
    → Yields memory_iterator
        (record { entries = front ++ back; index = length front; sequence = sequence })
        back
unfolding valid entry next
Yields-back sequence front [] = let size = length-append front [] in ground (arith, size)
Yields-back sequence front (e ∷ back) =
    let size = length-append front (e ∷ back) in
    let here : ltb (length front) (length (front ++ e ∷ back)) ≡ true = ground (arith, size) in
    let at = get_elem?-append_length front back e in
    let rest = Yields-back sequence (front ++ e ∷ []) back in
    let same = append_assoc front (e ∷ []) back in
    let last : length (front ++ e ∷ []) ≡ length front + 1 = length-append front (e ∷ []) in
    (
      here,
      ap (λ o. elim o as (λ x. IteratorEntry) [ none ↦ no_entry | some x ↦ x ]) at,
      record { entries = front ++ e ∷ back; index = length front + 1; sequence = sequence },
      rw here refl,
      rw (← same, ← last) rest,
    )

copy_from-entries :
    (fuel : ℕ) (h : Heap) (sequence : ℕ) (gs : List Ghost)
    → length gs ≤ fuel
    → Nexts h gs
    → All (IsNode h) gs
    → copy_from fuel h sequence (first_of gs) ≡ done (node_entries sequence gs)
unfolding copy_from
copy_from-entries fuel h sequence [] le nexts nodes = refl
copy_from-entries zero h sequence (g ∷ gs) le nexts nodes = absurd (omega arith)
copy_from-entries (suc fuel) h sequence (g ∷ gs) le nexts nodes =
    let n = nodes.0 in
    rw
      (
        n.loaded,
        nexts.0,
        copy_from-entries fuel h sequence gs (omega arith) nexts.1 nodes.1,
        n.key,
        n.value,
      )
      refl

Nexts-back : (h : Heap) (l r : List Ghost) → Nexts h (l ++ r) → Nexts h r
Nexts-back h [] r nexts = nexts
Nexts-back h (g ∷ l) r nexts = Nexts-back h l r nexts.1

-- The constructor on a valid skip list returns an iterator that shows the entries of all nodes from
-- the lower bound on, in ascending order of their keys.
pub skip_list_iterator_lem :
    (s : SkipList) (gs : List Ghost) (sequence : ℕ) (lower_bound : Bytes)
    → IsValid s gs
    → (it : SkipListIterator) × (skip_list_iterator (some s) sequence lower_bound ≡ done it)
      × Yields memory_iterator it (node_entries sequence (upper lower_bound gs))
unfolding skip_list_iterator
skip_list_iterator_lem s gs sequence lower_bound v =
    let us = upper lower_bound gs in
    let cut = lower-append-upper lower_bound gs in
    let links : Links s.heap 0 head gs =
      rw (row-IsNode s.heap gs v.nodes) at (v.levels 0 (omega (arith, v.some_level, v.within))) in
    let nexts : Nexts s.heap (lower lower_bound gs ++ us) =
      rw cut (Nexts-Links s.heap head gs links) in
    let nodes : All (IsNode s.heap) (lower lower_bound gs ++ us) = rw cut v.nodes in
    let few : length us ≤ s.node_count =
      omega (arith, v.count, ap length cut, length-append (lower lower_bound gs) us) in
    let copied =
      copy_from-entries s.node_count s.heap sequence us few
        (Nexts-back s.heap (lower lower_bound gs) us nexts)
        (All-append-right (IsNode s.heap) (lower lower_bound gs) us nodes) in
    (
      record { entries = node_entries sequence us; index = 0; sequence = sequence },
      rw (find_greater_or_equal_lem s gs lower_bound v, skip_list_iterator, copied) refl,
      Yields-back sequence [] (node_entries sequence us),
    )
