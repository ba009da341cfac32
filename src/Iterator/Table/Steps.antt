-- ===== src/Iterator/Table/Steps.antt =====
-- One step of the loops of SSTableIterator.
use cpp_kvstore.Common.{ℕ, suc, ◌+◌, ◌≡◌, refl, ap, true, false}
use cpp_kvstore.Common.{List, [], ◌∷◌}
use cpp_kvstore.Common.{leb, ltb, ◌==◌, length, done}
use cpp_kvstore.SsTable.Reader.{get_block_count}
use cpp_kvstore.SsTable.Table.{Entry, block_bytes, index_of}
use cpp_kvstore.Iterator.Table.{
  SsTableIterator, parse_at, skip_blocks, load_block, parse_next_entry, parse_blocks,
}

pub skip_here :
    (n : ℕ) (it : SsTableIterator)
    → ltb it.current_offset (length it.current_block_data) ≡ true
    → skip_blocks (suc n) it ≡ done (it, true)
unfolding skip_blocks
skip_here n it more = rw more refl

pub skip_next :
    (n : ℕ) (it : SsTableIterator)
    → ltb it.current_offset (length it.current_block_data) ≡ false
    → leb (get_block_count it.reader) (it.current_block_idx + 1) ≡ false
    → skip_blocks (suc n) it ≡ skip_blocks n (load_block it (it.current_block_idx + 1))
unfolding skip_blocks
skip_next n it over more = rw (over, more) refl

pub skip_end :
    (n : ℕ) (it : SsTableIterator)
    → ltb it.current_offset (length it.current_block_data) ≡ false
    → leb (get_block_count it.reader) (it.current_block_idx + 1) ≡ true
    → skip_blocks (suc n) it
      ≡ done (record it { current_block_idx = it.current_block_idx + 1; valid = false }, false)
unfolding skip_blocks
skip_end n it over last = rw (over, last) refl

pub parse_found :
    (it it1 it2 : SsTableIterator)
    → skip_blocks (suc (get_block_count it.reader)) it ≡ done (it1, true)
    → parse_at it1 ≡ done it2
    → parse_next_entry it ≡ done it2
unfolding parse_next_entry
parse_found it it1 it2 skip parse = rw (skip, parse_next_entry) parse

pub parse_over :
    (it it1 : SsTableIterator)
    → skip_blocks (suc (get_block_count it.reader)) it ≡ done (it1, false)
    → parse_next_entry it ≡ done it1
unfolding parse_next_entry
parse_over it it1 skip = rw skip refl

pub parse_blocks_found :
    (n : ℕ) (it it1 it2 : SsTableIterator)
    → ltb it.current_block_idx (get_block_count it.reader) ≡ true
    → load_block it it.current_block_idx ≡ it1
    → (length it1.current_block_data == 0) ≡ false
    → parse_next_entry it1 ≡ done it2
    → it2.valid ≡ true
    → parse_blocks (suc n) it ≡ done it2
unfolding parse_blocks
parse_blocks_found n it it1 it2 inside load some_data parse valid =
    rw (inside, load, some_data, parse, valid) (ap (λ v. done (record it2 { valid = v })) valid)

pub length-index_of :
    (offset : ℕ) (cs : List (List Entry)) → length (index_of offset cs) ≡ length cs
length-index_of offset [] = refl
length-index_of offset (c ∷ cs) = ap suc (length-index_of (offset + length (block_bytes c)) cs)
