-- ===== src/Iterator/Table.antt =====
-- The class SSTableIterator. Its reader is not null: a reader that failed to open is in no list of
-- tables. A block is what ReadDataBlock gives, and every read in it is behind a bound check.
pub mod Parse
pub mod Steps
pub mod Yields
use cpp_kvstore.Common.{ℕ, zero, suc, ◌+◌, Bool, true, false, List, [], ◌∷◌}
use cpp_kvstore.Common.{if◌then◌else◌, leb, ltb, ◌==◌, length, drop, Run, done, stuck, ◌>>=◌}
use cpp_kvstore.Common.Bytes.{Bytes, read_bytes}
use cpp_kvstore.Common.Lex.{bytes_lt}
use cpp_kvstore.SsTable.Format.{IndexEntry}
use cpp_kvstore.SsTable.Reader.{
  SsTableReader, read_lens, get_block_count, read_data_block, find_block_index,
}
use cpp_kvstore.Iterator.{IteratorEntry, Iterator, no_entry}

pub record SsTableIterator : Type 0 where
  pub reader : SsTableReader
  pub sequence : ℕ
  pub current_block_idx : ℕ
  pub current_offset : ℕ
  pub current_block_data : Bytes
  pub current_entry : IteratorEntry
  pub valid : Bool

-- Reads the block with this index.
unfoldable pub load_block : SsTableIterator → ℕ → SsTableIterator
load_block it idx = record it {
  current_block_idx = idx;
  current_block_data = read_data_block it.reader idx;
  current_offset = 0;
}

-- The loop of ParseNextEntry over blocks that are read to their end; it says whether there was one
-- with data.
unfoldable pub skip_blocks : ℕ → SsTableIterator → Run (SsTableIterator × Bool)
skip_blocks zero it = stuck
skip_blocks (suc fuel) it =
    let idx = it.current_block_idx + 1 in
    let rest = skip_blocks fuel (load_block it idx) in
    if ltb it.current_offset (length it.current_block_data)
    then done (it, true)
    else if leb (get_block_count it.reader) idx
    then done (record it { current_block_idx = idx; valid = false }, false)
    else rest

-- ParseNextEntry behind that loop.
unfoldable pub parse_at : SsTableIterator → Run SsTableIterator
parse_at it =
    let size = length it.current_block_data in
    if ltb size (it.current_offset + 9)
    then done (record it { valid = false })
    else (read_lens (drop it.current_offset it.current_block_data) >>= λ (type_byte, klen, vlen, p).
        if ltb size (it.current_offset + 9 + klen + vlen)
        then done (record it { valid = false })
        else (read_bytes klen p >>= λ k. read_bytes vlen k.1 >>= λ v. done (record it {
          current_entry = record {
            key = k.0;
            value = v.0;
            type_ = type_byte;
            sequence = it.sequence;
          };
          current_offset = it.current_offset + 9 + klen + vlen;
          valid = true;
        })))

unfoldable pub parse_next_entry : SsTableIterator → Run SsTableIterator
parse_next_entry it = skip_blocks (suc (get_block_count it.reader)) it >>= λ (it', more).
    elim more [ true ↦ parse_at it' | false ↦ done it' ]

-- The loop of ParseCurrentBlock.
unfoldable pub parse_blocks : ℕ → SsTableIterator → Run SsTableIterator
parse_blocks zero it = stuck
parse_blocks (suc fuel) it =
    let it1 = load_block it it.current_block_idx in
    let skip = parse_blocks fuel (record it1 { current_block_idx = it1.current_block_idx + 1 }) in
    let parse = parse_next_entry it1 >>= λ it2. elim it2.valid [
      | true ↦ done it2
      | false ↦ parse_blocks fuel (record it2 { current_block_idx = it2.current_block_idx + 1 })
    ] in
    if ltb it.current_block_idx (get_block_count it.reader)
    then if length it1.current_block_data == 0 then skip else parse
    else done it

unfoldable pub parse_current_block : SsTableIterator → Run SsTableIterator
parse_current_block it =
    parse_blocks (suc (get_block_count it.reader)) (record it { valid = false })

-- SSTableIterator(reader, sequence)
unfoldable pub sstable_iterator : SsTableReader → ℕ → Run SsTableIterator
sstable_iterator reader sequence =
    let it : SsTableIterator = record {
      reader = reader;
      sequence = sequence;
      current_block_idx = 0;
      current_offset = 0;
      current_block_data = [];
      current_entry = no_entry;
      valid = false;
    } in
    if ltb 0 (get_block_count reader) then parse_current_block it else done it

unfoldable pub next : SsTableIterator → Run SsTableIterator
next it = if it.valid then parse_next_entry it else done (record it { valid = false })

-- The loop of Seek: each round takes an entry of nine bytes at least.
unfoldable pub seek_loop : ℕ → SsTableIterator → Bytes → Run SsTableIterator
seek_loop zero it target = stuck
seek_loop (suc fuel) it target = parse_next_entry it >>= λ it'. elim it'.valid [
  | false ↦ done it'
  | true ↦ elim (bytes_lt it'.current_entry.key target) [
    | true ↦ seek_loop fuel it' target
    | false ↦ done it'
  ]
]

-- The bytes of all blocks bound the rounds.
abbrev pub blocks_size : List IndexEntry → ℕ
blocks_size [] = 0
blocks_size (e ∷ es) = e.size + blocks_size es

unfoldable pub seek : SsTableIterator → Bytes → Run SsTableIterator
seek it target =
    let count = get_block_count it.reader in
    let block_idx = find_block_index it.reader.index_entries target in
    if count == 0
    then done (record it { valid = false })
    else if leb count block_idx
    then done (record it { valid = false })
    else seek_loop (suc (blocks_size it.reader.index_entries))
        (record (load_block it block_idx) { valid = true }) target

abbrev pub table_iterator : Iterator SsTableIterator
table_iterator = record {
  valid = λ it. it.valid;
  next = next;
  entry = λ it. it.current_entry;
  seek = seek;
}
