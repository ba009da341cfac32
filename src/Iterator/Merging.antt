-- ===== src/Iterator/Merging.antt =====
-- The class MergingIterator over children of any class of iterators. The priority queue is the list
-- of its items; of items that are equal to it the model takes the first.
pub mod Heap
pub mod Steps
pub mod Runs
pub mod Newest
pub mod Yields
pub mod Start
use cpp_kvstore.Common.{
  ℕ, zero, suc, ◌+◌, Bool, true, false, not, List, [], ◌∷◌, Option, none, some,
}
use cpp_kvstore.Common.{if◌then◌else◌, ltb, length, get_elem?, set, Run, done, fault, stuck, ◌>>=◌}
use cpp_kvstore.Common.Bytes.{Bytes}
use cpp_kvstore.Common.Lex.{bytes_lt, bytes_eq}
use cpp_kvstore.Iterator.{IteratorEntry, Iterator, no_entry}

pub record HeapItem : Type 0 where
  pub child_index : ℕ
  pub entry : IteratorEntry

-- operator>: by key, and the higher sequence number first.
unfoldable pub item_gt : HeapItem → HeapItem → Bool
item_gt a b =
    if bytes_eq a.entry.key b.entry.key
    then ltb a.entry.sequence b.entry.sequence
    else bytes_lt b.entry.key a.entry.key

-- top() and pop()
unfoldable pub pop_top : List HeapItem → Option (HeapItem × List HeapItem)
pop_top [] = none
pop_top (x ∷ xs) = elim (pop_top xs) [
  | none ↦ some (x, xs)
  | some (y, ys) ↦ if item_gt x y then some (y, x ∷ ys) else some (x, xs)
]

pub record MergingIterator (S : Type 0) : Type 0 where
  pub children : List S
  pub min_heap : List HeapItem
  pub valid : Bool
  pub current_entry : IteratorEntry

module _ {S : Type 0} (I : Iterator S) where
  -- Pushes the entry of the child, if it is valid.
  unfoldable pub push_child : ℕ → S → List HeapItem → List HeapItem
  push_child idx s items =
      if I.valid s then record { child_index = idx; entry = I.entry s } ∷ items else items

  -- children_[idx]->Next() and the push behind it.
  unfoldable pub advance : ℕ → List S → List HeapItem → Run (List S × List HeapItem)
  advance idx children items = elim (get_elem? children idx) [
    | none ↦ fault
    | some s ↦ I.next s >>= λ s'. done (set children idx s', push_child idx s' items)
  ]

  -- The loop that pops what has the key. It takes a round for each item that has it: an iterator
  -- in strictly ascending order shows a key once.
  unfoldable pub pop_key : ℕ → Bytes → List S → List HeapItem → Run (List S × List HeapItem)
  pop_key zero key children items = elim (pop_top items) [
    | none ↦ done (children, items)
    | some (top, items') ↦ if bytes_eq top.entry.key key then stuck else done (children, items)
  ]
  pop_key (suc fuel) key children items = elim (pop_top items) [
    | none ↦ done (children, items)
    | some (top, items') ↦ elim (bytes_eq top.entry.key key) [
      | false ↦ done (children, items)
      | true ↦ advance top.child_index children items' >>= λ p. pop_key fuel key p.0 p.1
    ]
  ]

  -- FindMin
  unfoldable pub find_min : MergingIterator S → Run (MergingIterator S)
  find_min m = elim (pop_top m.min_heap) [
    | none ↦ done (record m { valid = false })
    | some (top, items) ↦ advance top.child_index m.children items >>= λ p.
        pop_key (length m.children) top.entry.key p.0 p.1 >>= λ q.
        done (record { children = q.0; min_heap = q.1; valid = true; current_entry = top.entry })
  ]

  unfoldable pub next : MergingIterator S → Run (MergingIterator S)
  next m =
      let stop = record m { valid = false } in
      elim m.valid [
        | false ↦ done stop
        | true ↦ elim m.min_heap [
          | [] ↦ done stop
          | item ∷ items ↦
              pop_key (length m.children) m.current_entry.key m.children (item ∷ items) >>= λ p.
              find_min (record m { children = p.0; min_heap = p.1 })
        ]
      ]

  -- The loop of the constructor.
  unfoldable pub push_children : ℕ → List S → List HeapItem → List HeapItem
  push_children i [] items = items
  push_children i (s ∷ children) items = push_children (suc i) children (push_child i s items)

  -- MergingIterator(children), none of them null
  unfoldable pub merging_iterator : List S → Run (MergingIterator S)
  merging_iterator children = find_min (record {
    children = children;
    min_heap = push_children 0 children [];
    valid = false;
    current_entry = no_entry;
  })

  unfoldable pub seek_children : List S → Bytes → Run (List S)
  seek_children [] target = done []
  seek_children (s ∷ children) target =
      I.seek s target >>= λ s'. seek_children children target >>= λ rest. done (s' ∷ rest)

  -- The loop of Seek moves and pushes one child after another.
  unfoldable pub seek : MergingIterator S → Bytes → Run (MergingIterator S)
  seek m target = seek_children m.children target >>= λ children.
      find_min (record m { children = children; min_heap = push_children 0 children [] })

abbrev pub merged_iterator : {S : Type 0} → Iterator S → Iterator (MergingIterator S)
merged_iterator I = record {
  valid = λ m. m.valid;
  next = next I;
  entry = λ m. m.current_entry;
  seek = seek I;
}
