-- ===== src/Engine/Restart.antt =====
-- put and erase of the engine, against what RecoverAllWals rebuilds from the log behind them.
use cpp_kvstore.Common.{ℕ, ◌^◌, ◌<◌, ◌≡◌, refl, sym, ap, ◌∙◌, arith, Bool, true}
use cpp_kvstore.Common.{
  List, [], ◌∷◌, ◌++◌, Option, none, some, if◌then◌else◌, leb, length, Run, done,
}
use cpp_kvstore.Common.{All, append-nil}
use cpp_kvstore.Common.Bytes.{Bytes}
use cpp_kvstore.Common.Lex.{bytes_eq}
use cpp_kvstore.Disk.{Disk, create_file, file-create_file}
use cpp_kvstore.SkipList.{SkipList, TableValue, new_skip_list}
use cpp_kvstore.SkipList
use cpp_kvstore.SkipList.Rows.{Ghost}
use cpp_kvstore.SkipList.Search.{IsValid}
use cpp_kvstore.SkipList.Get.{get_lem}
use cpp_kvstore.SkipList.Fresh.{new_skip_list-IsValid}
use cpp_kvstore.SkipList.PutAny.{put_lem}
use cpp_kvstore.SsTable.Format.{type_value, type_deletion}
use cpp_kvstore.Wal.Record.{ParsedLogRecord, put_op, erase_op}
use cpp_kvstore.Wal.Recover.Rounds.{Fits}
use cpp_kvstore.Wal.Recover.RoundTrip.{log_bytes, log_bytes-append, recover-log_bytes}
use cpp_kvstore.Wal.Logger.{append, recover_wal, IsOpen, file-append, open_wal-closed, WalLogger}
use cpp_kvstore.Engine.{KvEngine, Coins, put, erase, flush_mem_table}
use cpp_kvstore.Engine.Scan.{replay, replay_wals}
use cpp_kvstore.Engine.Write.{put_done, if_size}
use cpp_kvstore.Engine.Replay.{after_record, after_records, after_some, replay_lem}

-- What a memory table answers for each key.
abbrev pub Memory : Type 0
Memory = Bytes → Run (Option TableValue)

-- The memory table is valid, and its log holds records that say what it answers.
pub record Logged (d : Disk) (e : KvEngine) : Type 0 where
  pub nodes : List Ghost
  pub records : List ParsedLogRecord
  pub valid : IsValid e.skiplist nodes
  pub opened : IsOpen e.wal
  pub content : d.file e.wal.path ≡ some (log_bytes records)
  pub fits : All Fits records
  pub answers : (k : Bytes) → SkipList.get e.skiplist k ≡ after_records records k (done none)

-- The replay of this log file into a new memory table ends, and the table answers as given.
abbrev pub Rebuilt : Disk → Bytes → ℕ → Coins → Memory → Type 0
Rebuilt d path max_level coins memory =
    (d' : Disk) × (s : SkipList) × (replay_wals d (new_skip_list max_level) (path ∷ []) coins
      ≡ done (d', s))
    × ((k : Bytes) → SkipList.get s k ≡ memory k)

-- The memory with another entry for the key.
abbrev pub with_entry : Bytes → TableValue → Memory → Memory
with_entry key v memory k = if bytes_eq key k then done (some v) else memory k

All-snoc :
    (rs : List ParsedLogRecord) (r : ParsedLogRecord)
    → All Fits rs
    → Fits r
    → All Fits (rs ++ r ∷ [])
All-snoc [] r f g = (g, tt)
All-snoc (x ∷ rs) r f g = (f.0, All-snoc rs r f.1 g)

after_records-append :
    (rs : List ParsedLogRecord) (r : ParsedLogRecord) (k : Bytes) (before : Run (Option TableValue))
    → after_records (rs ++ r ∷ []) k before ≡ after_record r k (after_records rs k before)
after_records-append [] r k before = refl
after_records-append (x ∷ rs) r k before = after_records-append rs r k (after_record x k before)

recover_wal-log_bytes :
    (d : Disk) (w : WalLogger) (rs : List ParsedLogRecord)
    → d.file w.path ≡ some (log_bytes rs)
    → All Fits rs
    → recover_wal d w ≡ done rs
unfolding recover_wal
recover_wal-log_bytes d w rs e f = rw (e, recover_wal) (recover-log_bytes rs f)

replay_wals-one :
    (d : Disk) (s s' : SkipList) (path : Bytes) (coins : Coins) (rs : List ParsedLogRecord)
    → d.file path ≡ some (log_bytes rs)
    → All Fits rs
    → replay s rs coins ≡ done s'
    → replay_wals d s (path ∷ []) coins ≡ done (create_file d path, s')
unfolding replay_wals
replay_wals-one d s s' path coins rs e f run =
    let w : WalLogger = record {
      path = path;
      stream = record { target = some path; good = true };
    } in
    let there : (create_file d path).file path ≡ some (log_bytes rs) =
      file-create_file d path ∙ ap (λ o. some (elim o [ none ↦ [] | some c ↦ c ])) e in
    rw (open_wal-closed, replay_wals, recover_wal-log_bytes (create_file d path) w rs there f, run)
      refl

-- The log rebuilds the memory table that it belongs to.
Logged-Rebuilt :
    (d : Disk) (e : KvEngine) (max_level : ℕ) (coins : Coins)
    → 0 < max_level
    → Logged d e
    → Rebuilt d e.wal.path max_level coins (SkipList.get e.skiplist)
Logged-Rebuilt d e max_level coins pos l =
    let new : SkipList = new_skip_list max_level in
    let new_valid = new_skip_list-IsValid max_level pos in
    let (s, gs, run, v, gets) = replay_lem new [] l.records coins new_valid in
    (
      create_file d e.wal.path,
      s,
      replay_wals-one d new s e.wal.path coins l.records l.content l.fits run,
      λ k. gets k ∙ ap (after_records l.records k) (get_lem new [] new_valid k) ∙ sym (l.answers k),
    )

-- A record that is logged as its entry is put.
Logged-append :
    (d : Disk) (e : KvEngine) (s' : SkipList) (gs' : List Ghost) (r : ParsedLogRecord)
    → Logged d e
    → Fits r
    → IsValid s' gs'
    → ((k : Bytes) → SkipList.get s' k ≡ after_record r k (SkipList.get e.skiplist k))
    → Logged (append d e.wal r.op r.key r.value).0 (record e { skiplist = s' })
Logged-append d e s' gs' r l f v gets = record {
  nodes = gs';
  records = l.records ++ r ∷ [];
  valid = v;
  opened = l.opened;
  content =
      file-append e.wal l.opened d r l.content
      ∙ ap some (
          ap (λ b. log_bytes l.records ++ b) (sym (append-nil _))
          ∙ sym (log_bytes-append l.records (r ∷ [])));
  fits = All-snoc l.records r l.fits f;
  answers = λ k.
      gets k
      ∙ ap (after_record r k) (l.answers k)
      ∙ sym (after_records-append l.records r k (done none));
}

module _ (d : Disk) (e : KvEngine) (l : Logged d e) (key : Bytes) (key_fits : length key < 2 ^ 32)
    (coins : List Bool) (max_level : ℕ) (restart : Coins) (pos : 0 < max_level) where
  -- If the memory table is valid and the log on which the stream stands open holds records within
  -- the limits of the format that say what the table answers, put of a key and a value below
  -- 2 ^ 32 bytes keeps it so up to the flush, which follows exactly if the table has reached its
  -- limit. The loop of RecoverAllWals over that log file then makes of a new memory table, of at
  -- least one level, one that has the value for the key, and for every other key what the old
  -- table had.
  pub put-Rebuilt :
      (value : Bytes)
      → length value < 2 ^ 32
      → (d1 : Disk) × (e' : KvEngine) × (put d e key value coins ≡ (
          if leb e.max_mem_nodes (SkipList.size e'.skiplist)
          then flush_mem_table d1 e'
          else done (d1, e')))
        × Logged d1 e'
        × Rebuilt d1 e.wal.path max_level restart (
            with_entry key (record { type_ = type_value; value = value }) (SkipList.get e.skiplist))
  put-Rebuilt value value_fits =
      let v : TableValue = record { type_ = type_value; value = value } in
      let r : ParsedLogRecord = record { op = put_op; key = key; value = value } in
      let (s', gs', run, valid', gets) = put_lem e.skiplist l.nodes l.valid key v coins in
      let e' : KvEngine = record e { skiplist = s' } in
      let d1 = (append d e.wal put_op key value).0 in
      let logged : Logged d1 e' =
        Logged-append d e s' gs' r l
          (record { key_fits = key_fits; value_fits = value_fits; op_fits = omega arith }) valid'
          (λ k. gets k ∙ sym (after_some r v k (SkipList.get e.skiplist k) refl)) in
      let (d', s, rebuilt, same) = Logged-Rebuilt d1 e' max_level restart pos logged in
      (
        d1,
        e',
        put_done d e l.nodes l.valid key coins value s' run
            ∙ if_size d e l.nodes l.valid key coins value s'
                (leb e.max_mem_nodes (SkipList.size s')),
        logged,
        (d', s, rebuilt, λ k. same k ∙ gets k),
      )

  -- Under the same conditions on the memory table, its log and the key, erase returns true and keeps
  -- them so. The loop of RecoverAllWals over that log file then makes of a new memory table, of at
  -- least one level, one that has a tombstone for the key, and for every other key what the old
  -- table had.
  pub erase-Rebuilt :
      (d1 : Disk) × (e' : KvEngine) × (erase d e key coins ≡ done (d1, e', true))
      × Logged d1 e'
      × Rebuilt d1 e.wal.path max_level restart
          (with_entry key (record { type_ = type_deletion; value = [] }) (SkipList.get e.skiplist))
  unfolding erase
  erase-Rebuilt =
      let v : TableValue = record { type_ = type_deletion; value = [] } in
      let r : ParsedLogRecord = record { op = erase_op; key = key; value = [] } in
      let (s', gs', run, valid', gets) = put_lem e.skiplist l.nodes l.valid key v coins in
      let e' : KvEngine = record e { skiplist = s' } in
      let d1 = (append d e.wal erase_op key []).0 in
      let logged : Logged d1 e' =
        Logged-append d e s' gs' r l
          (record { key_fits = key_fits; value_fits = omega arith; op_fits = omega arith }) valid'
          (λ k. gets k ∙ sym (after_some r v k (SkipList.get e.skiplist k) refl)) in
      let (d', s, rebuilt, same) = Logged-Rebuilt d1 e' max_level restart pos logged in
      (d1, e', rw (run, erase) refl, logged, (d', s, rebuilt, λ k. same k ∙ gets k))
