-- ===== src/Engine/Write.antt =====
-- put and erase of the engine, against what get answers.
use cpp_kvstore.Common.{◌≡◌, refl, sym, ap, ◌∙◌, Bool, true, false, Bool-cases, inl, inr}
use cpp_kvstore.Common.{List, [], Option, none, some, if◌then◌else◌, leb, ◌==◌, Run, done}
use cpp_kvstore.Common.Bytes.{Bytes}
use cpp_kvstore.Common.Lex.{bytes_eq}
use cpp_kvstore.Disk.{Disk}
use cpp_kvstore.SkipList.{SkipList, TableValue}
use cpp_kvstore.SkipList
use cpp_kvstore.SkipList.Rows.{Ghost, lookup}
use cpp_kvstore.SkipList.Search.{IsValid}
use cpp_kvstore.SkipList.Get.{get_lem}
use cpp_kvstore.SkipList.PutAny.{put_lem}
use cpp_kvstore.SsTable.Format.{type_value, type_deletion}
use cpp_kvstore.Wal.Record.{put_op, erase_op}
use cpp_kvstore.Wal.Logger.{append}
use cpp_kvstore.Engine.{KvEngine, put, erase, get, get_tables, flush_mem_table}

-- The answer of get where the memory table knows the key, and where it does not.
abbrev pub answer : Option TableValue → Run (Option Bytes) → Run (Option Bytes)
answer none rest = rest
answer (some v) rest = done (if v.type_ == type_deletion then none else some v.value)

module _ (e : KvEngine) where
  pub get-answer :
      (key : Bytes) (o : Option TableValue)
      → SkipList.get e.skiplist key ≡ done o
      → get e key ≡ answer o (get_tables e.sstables key)
  unfolding get
  get-answer key none at = rw (at, get) refl
  get-answer key (some v) at = rw (at, get) refl

-- Get answers for this key what is given, and for every other key what it answered before.
abbrev pub Answers : KvEngine → KvEngine → Bytes → Option Bytes → Type 0
Answers e e' key value = (k : Bytes) → get e' k ≡ (if bytes_eq key k then done value else get e k)

-- An engine whose memory table holds the entry for the key, and else what it held.
get_updated :
    (e e' : KvEngine) (gs : List Ghost) (key : Bytes) (v : TableValue)
    → IsValid e.skiplist gs
    → ((k : Bytes)
        → SkipList.get e'.skiplist k
          ≡ (if bytes_eq key k then done (some v) else SkipList.get e.skiplist k))
    → e'.sstables ≡ e.sstables
    → Answers e e' key (if v.type_ == type_deletion then none else some v.value)
get_updated e e' gs key v valid gets tables k = elim (Bool-cases (bytes_eq key k)) [
  | inl same ↦
      let at : SkipList.get e'.skiplist k ≡ done (some v) = gets k ∙ rw same refl in
      get-answer e' k (some v) at ∙ rw same refl
  | inr other ↦
      let before = get_lem e.skiplist gs valid k in
      let at : SkipList.get e'.skiplist k ≡ done (lookup k gs) = gets k ∙ rw other before in
      get-answer e' k (lookup k gs) at
      ∙ ap (λ t. answer (lookup k gs) (get_tables t k)) tables
      ∙ sym (get-answer e k (lookup k gs) before)
      ∙ rw other refl
]

module _ (d : Disk) (e : KvEngine) (gs : List Ghost) (valid : IsValid e.skiplist gs) (key : Bytes)
    (coins : List Bool) where
  pub put_done :
      (value : Bytes) (s' : SkipList)
      → SkipList.put e.skiplist key (record { type_ = type_value; value = value }) coins ≡ done s'
      → put d e key value coins ≡ (elim (leb e.max_mem_nodes (SkipList.size s')) [
        | true ↦ flush_mem_table (append d e.wal put_op key value).0 (record e { skiplist = s' })
        | false ↦ done ((append d e.wal put_op key value).0, record e { skiplist = s' })
      ])
  unfolding put
  put_done value s' run = rw (run, put) refl

  pub if_size :
      (value : Bytes) (s' : SkipList) (b : Bool)
      → (elim b as (λ x. Run (Disk × KvEngine)) [
        | true ↦ flush_mem_table (append d e.wal put_op key value).0 (record e { skiplist = s' })
        | false ↦ done ((append d e.wal put_op key value).0, record e { skiplist = s' })
      ])
        ≡ (if b
            then flush_mem_table (append d e.wal put_op key value).0 (record e { skiplist = s' })
            else done ((append d e.wal put_op key value).0, record e { skiplist = s' }))
  if_size value s' true = refl
  if_size value s' false = refl

  -- With a valid memory table put logs the operation and puts the pair; it then flushes exactly if
  -- the memory table has reached its limit. Before that flush the memory table is valid, and get
  -- gives the new value for the key and what it gave before for every other key.
  pub put-Answers :
      (value : Bytes)
      → (e' : KvEngine) × (gs' : List Ghost) × (put d e key value coins ≡ (
          if leb e.max_mem_nodes (SkipList.size e'.skiplist)
          then flush_mem_table (append d e.wal put_op key value).0 e'
          else done ((append d e.wal put_op key value).0, e')))
        × IsValid e'.skiplist gs'
        × Answers e e' key (some value)
  put-Answers value =
      let v : TableValue = record { type_ = type_value; value = value } in
      let (s', gs', run, valid', gets) = put_lem e.skiplist gs valid key v coins in
      let e' : KvEngine = record e { skiplist = s' } in
      (
        e',
        gs',
        put_done value s' run ∙ if_size value s' (leb e.max_mem_nodes (SkipList.size s')),
        valid',
        get_updated e e' gs key v valid gets refl,
      )

  -- erase logs the operation and returns: the memory table stays valid, get finds nothing for the
  -- key, whatever the tables hold of it, and gives what it gave before for every other key.
  pub erase-Answers :
      (e' : KvEngine) × (gs' : List Ghost) × (erase d e key coins
        ≡ done ((append d e.wal erase_op key []).0, e', true))
      × IsValid e'.skiplist gs'
      × Answers e e' key none
  unfolding erase
  erase-Answers =
      let (s', gs', run, valid', gets) =
        put_lem e.skiplist gs valid key (record { type_ = type_deletion; value = [] }) coins in
      let e' : KvEngine = record e { skiplist = s' } in
      (
        e',
        gs',
        rw (run, erase) refl,
        valid',
        get_updated e e' gs key (record { type_ = type_deletion; value = [] }) valid gets refl,
      )
