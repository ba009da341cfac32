-- ===== src/SsTable/Reader/Block.antt =====
-- The search in a data block that the builder wrote.
use cpp_kvstore.Common.{ℕ, zero, suc, ◌≤◌, ◌<◌, ◌^◌, ◌%◌, ◌≡◌, refl, sym, ap, ◌∙◌, arith}
use cpp_kvstore.Common.{List, [], ◌∷◌, ◌++◌, none, some}
use cpp_kvstore.Common.{
  ◌==◌, length, take, All, length-append, append_assoc, Bool-cases, inl, inr, ==_iff,
}
use cpp_kvstore.Common.{done, take-append, drop-append, length-take, take_all, Ordering}
use cpp_kvstore.Common.Bytes.{Bytes, fixed, read_fixed-fixed}
use cpp_kvstore.Common.Lex.{lex, Ordering-cases, lex-gt}
use cpp_kvstore.Slice.{Slice, IsValid, view, to_string}
use cpp_kvstore.Slice.Laws.{operators_lem, read_bytes-take}
use cpp_kvstore.SsTable.Format.{record_bytes, stored_len, type_value}
use cpp_kvstore.SsTable.Reader.{
  Round, answer, next, search_record, found, read_lens, search_loop, search_in_data_block,
}
use cpp_kvstore.SsTable.Table.{Entry, Fits, hit, find, AllAfter-trans, Sorted, find-none}
use cpp_kvstore.SsTable.Table.{entry_bytes, block_bytes, length-entry_bytes}

abbrev pub stored : Entry → ℕ
stored e = stored_len e.value e.type_

-- The value as it stands in the file: none of it for a tombstone.
abbrev pub stored_value : Entry → Bytes
stored_value e = take (stored e) e.value

module _ (e : Entry) (f : Fits e) where
  pub stored-length : length (stored_value e) ≡ stored e
  unfolding stored_len
  stored-length = ground (arith, length-take (stored e) e.value)

  stored-lt : stored e < 256 ^ 4
  unfolding stored_len
  stored-lt = ground arith

  split_entry :
      (rest : Bytes)
      → entry_bytes e ++ rest
        ≡ fixed 1 e.type_
          ++ (fixed 4 (length e.key) ++ (fixed 4 (stored e) ++ (e.key ++ (stored_value e ++ rest))))
  unfolding record_bytes
  split_entry rest =
      let small : length e.key % 2 ^ 32 ≡ length e.key = omega arith in
      rw (small, append_assoc e.key (stored_value e) rest)

  pub read_lens-entry :
      (rest : Bytes)
      → read_lens (entry_bytes e ++ rest)
        ≡ done (e.type_, length e.key, stored e, e.key ++ (stored_value e ++ rest))
  unfolding read_lens
  read_lens-entry rest =
      let c3 : Bytes = e.key ++ (stored_value e ++ rest) in
      let c2 : Bytes = fixed 4 (stored e) ++ c3 in
      let c1 : Bytes = fixed 4 (length e.key) ++ c2 in
      let r1 = read_fixed-fixed 1 e.type_ c1 (omega arith) in
      let r2 = read_fixed-fixed 4 (length e.key) c2 (omega arith) in
      let r3 = read_fixed-fixed 4 (stored e) c3 (stored-lt) in rw (split_entry rest, r1, r2, r3)

  -- the two slices that the loop makes of a record
  abbrev key_slice : Bytes → Slice
  key_slice rest = record { mem = e.key ++ (stored_value e ++ rest); size = length e.key }

  abbrev val_slice : Bytes → Slice
  val_slice rest = record { mem = stored_value e ++ rest; size = stored e }

  key_slice-IsValid : (rest : Bytes) → IsValid (key_slice rest)
  key_slice-IsValid rest = omega (arith, length-append e.key (stored_value e ++ rest))

  view-key_slice : (rest : Bytes) → view (key_slice rest) ≡ e.key
  view-key_slice rest = take-append (length e.key) e.key (stored_value e ++ rest) refl

  stored_value-whole : e.type_ ≡ type_value → stored_value e ≡ e.value
  unfolding stored_len
  stored_value-whole h = rw h (take_all (length e.value % 2 ^ 32) e.value (omega arith))

  read-val_slice : (rest : Bytes) → to_string (val_slice rest) ≡ done (stored_value e)
  unfolding to_string
  read-val_slice rest = rw (
    read_bytes-take (stored e) (stored_value e ++ rest)
        (omega (arith, length-append (stored_value e) rest, stored-length)),
    take-append (stored e) (stored_value e) rest (sym stored-length),
  )

  found-val_slice : (rest : Bytes) → found e.type_ (val_slice rest) ≡ done (some (hit e))
  unfolding found
  found-val_slice rest = elim (Bool-cases (e.type_ == type_value)) [
    | inl t ↦
        let whole = stored_value-whole ((==_iff e.type_ type_value).0 t) in
        rw (t, read-val_slice rest, whole)
    | inr t ↦ rw t
  ]

abbrev pub round_of : Entry → Bytes → Ordering → Round
round_of e rest Ordering.eq = answer (some (hit e))
round_of e rest Ordering.gt = answer none
round_of e rest Ordering.lt = next rest

-- One round on a record: it answers at the key, ends behind it, and else goes on.
search_record-entry :
    (e : Entry) (rest : Bytes) (key : Slice)
    → Fits e
    → IsValid key
    → search_record (entry_bytes e ++ rest) key ≡ done (round_of e rest (lex e.key (view key)))
unfolding search_record
search_record-entry e rest key f v =
    let ops = operators_lem (key_slice e f rest) key (key_slice-IsValid e f rest) v in
    let behind = drop-append (length e.key) e.key (stored_value e ++ rest) refl in
    let whole = view-key_slice e f rest in
    elim (Ordering-cases e.key (view key)) [
      | inl lt ↦
          rw (read_lens-entry e f rest, ops.0, whole, lt, ops.4, whole, lt, behind)
            (rw (drop-append (stored e) (stored_value e) rest (sym (stored-length e f))))
      | inr (inl eq) ↦
          rw (read_lens-entry e f rest, ops.0, whole, eq, behind) (rw (found-val_slice e f rest))
      | inr (inr gt) ↦ rw (read_lens-entry e f rest, ops.0, whole, gt, ops.4, whole, gt)
    ]

search_loop_round :
    (n : ℕ) (s : Bytes) (key : Slice) (r : Round)
    → 0 < length s
    → search_record s key ≡ done r
    → search_loop (suc n) s key
      ≡ (elim r [ answer h ↦ done h | next rest ↦ search_loop n rest key ])
unfolding search_loop
search_loop_round n [] key r h e = absurd (omega arith)
search_loop_round n (b ∷ s) key r h e = rw e

-- On a sorted run of records the search finds what is there, and stops with nothing else.
search_loop-block_bytes :
    (n : ℕ) (es : List Entry) (key : Slice)
    → length (block_bytes es) ≤ n
    → All Fits es
    → Sorted es
    → IsValid key
    → search_loop n (block_bytes es) key ≡ done (find (view key) es)
search_loop-block_bytes n [] key h f s v = nothing n
  where
    nothing : (n : ℕ) → search_loop n [] key ≡ done none
    nothing n = unfold search_loop in refl
search_loop-block_bytes zero (e ∷ es) key h f s v =
    absurd (omega (arith, length-append (entry_bytes e) (block_bytes es), length-entry_bytes e))
search_loop-block_bytes (suc n) (e ∷ es) key h f s v =
    let sizes = length-append (entry_bytes e) (block_bytes es) in
    let long = length-entry_bytes e in
    let step =
      search_loop_round n (entry_bytes e ++ block_bytes es) key _ (omega arith)
        (search_record-entry e (block_bytes es) key f.0 v) in
    step ∙ elim (Ordering-cases e.key (view key)) [
      | inl lt ↦ rw lt (search_loop-block_bytes n es key (omega arith) f.1 s.1 v)
      | inr (inl eq) ↦ rw eq
      | inr (inr gt) ↦ rw gt (
          ap done (
            sym (
              find-none (view key) es
                (AllAfter-trans (view key) e.key es (lex-gt e.key (view key) gt) s.0))))
    ]

-- The search for a valid key in a block of records in strictly ascending order, each with a key and
-- a value below 2 ^ 32 bytes and a type below 256, finds the record with the key, or nothing.
pub search_in_data_block_lem :
    (es : List Entry) (key : Slice)
    → All Fits es
    → Sorted es
    → IsValid key
    → search_in_data_block (block_bytes es) key ≡ done (find (view key) es)
unfolding search_in_data_block
search_in_data_block_lem es key f s v =
    search_loop-block_bytes (length (block_bytes es)) es key (omega arith) f s v
