-- ===== src/Iterator/Memory.antt =====
-- The class SkipListIterator: a copy of the memory table's entries and a position in it.
pub mod Yields
use cpp_kvstore.Common.{ℕ, zero, suc, ◌+◌, ◌-◌, ◌^◌, Bool, List, [], ◌∷◌, Option, none, some}
use cpp_kvstore.Common.{if◌then◌else◌, ltb, length, get_elem?, Run, done, stuck, ◌>>=◌}
use cpp_kvstore.Common.Bytes.{Bytes}
use cpp_kvstore.Common.Lex.{bytes_lt}
use cpp_kvstore.SkipList.{SkipList, Heap, Pointer, load, forward_at, find_greater_or_equal}
use cpp_kvstore.Iterator.{IteratorEntry, Iterator, no_entry}

pub record SkipListIterator : Type 0 where
  pub entries : List IteratorEntry
  pub index : ℕ
  pub sequence : ℕ

-- SIZE_MAX
abbrev pub size_max : ℕ
size_max = 2 ^ 64 - 1

-- The loop of the constructor along level 0.
unfoldable pub copy_from : ℕ → Heap → ℕ → Pointer → Run (List IteratorEntry)
copy_from fuel h sequence none = done []
copy_from zero h sequence (some c) = stuck
copy_from (suc fuel) h sequence (some c) = load h c >>= λ n. forward_at h 0 c >>= λ p.
    copy_from fuel h sequence p >>= λ rest. done (
      record { key = n.key; value = n.value.value; type_ = n.value.type_; sequence = sequence }
      ∷ rest)

-- SkipListIterator(list, sequence, lower_bound); `none` is nullptr.
unfoldable pub skip_list_iterator : Option SkipList → ℕ → Bytes → Run SkipListIterator
skip_list_iterator none sequence lower_bound =
    done (record { entries = []; index = 0; sequence = sequence })
skip_list_iterator (some list) sequence lower_bound =
    find_greater_or_equal list lower_bound >>= λ p.
    copy_from list.node_count list.heap sequence p >>= λ entries.
    done (record { entries = entries; index = 0; sequence = sequence })

unfoldable pub valid : SkipListIterator → Bool
valid it = ltb it.index (length it.entries)

unfoldable pub next : SkipListIterator → SkipListIterator
next it = if valid it then record it { index = it.index + 1 } else it

-- Outside the entries it gives IteratorEntry{}.
unfoldable pub entry : SkipListIterator → IteratorEntry
entry it = elim (get_elem? it.entries it.index) [ none ↦ no_entry | some e ↦ e ]

-- std::lower_bound over entries in ascending order.
unfoldable pub lower_bound_index : List IteratorEntry → Bytes → ℕ
lower_bound_index [] target = 0
lower_bound_index (e ∷ es) target =
    let rest = lower_bound_index es target in if bytes_lt e.key target then suc rest else 0

unfoldable pub seek : SkipListIterator → Bytes → SkipListIterator
seek it target = record it { index = lower_bound_index it.entries target }

abbrev pub memory_iterator : Iterator SkipListIterator
memory_iterator = record {
  valid = valid;
  next = λ it. done (next it);
  entry = entry;
  seek = λ it target. done (seek it target);
}
