-- ===== src/Tests/OfRestart.antt =====
-- A memory table of two pairs with its log, before and after one more operation.
use cpp_kvstore.Common.{◌≡◌, ◌∙◌, refl, arith, Bool-cases, inl, inr, true, false}
use cpp_kvstore.Common.{List, [], ◌∷◌, none, some, if◌then◌else◌, leb, done}
use cpp_kvstore.Common.Bytes.{Bytes}
use cpp_kvstore.Common.Lex.{bytes_eq}
use cpp_kvstore.Disk.{Disk}
use cpp_kvstore.SkipList
use cpp_kvstore.SkipList.Get.{get_lem}
use cpp_kvstore.SsTable.Format.{type_value, type_deletion}
use cpp_kvstore.Wal.Record.{ParsedLogRecord, put_op}
use cpp_kvstore.Wal.Recover.RoundTrip.{log_bytes}
use cpp_kvstore.Engine.{KvEngine, put, erase, flush_mem_table}
use cpp_kvstore.Engine.Replay.{after_records}
use cpp_kvstore.Engine.Restart.{Logged, Rebuilt, with_entry, put-Rebuilt, erase-Rebuilt}
use cpp_kvstore.Tests.OfSkipList.{two_nodes, ghosts, two_nodes-IsValid}

abbrev logged_records : List ParsedLogRecord
logged_records =
    record { op = put_op; key = 98 ∷ []; value = 50 ∷ [] }
    ∷ record { op = put_op; key = 97 ∷ []; value = 49 ∷ [] }
    ∷ []

abbrev log_path : Bytes
log_path = 119 ∷ []

abbrev disk : Disk
disk = record { file = λ p. if bytes_eq p log_path then some (log_bytes logged_records) else none }

abbrev running : KvEngine
running = record {
  skiplist = two_nodes;
  current_wal_path = log_path;
  wal = record { path = log_path; stream = record { target = some log_path; good = true } };
  sstables = [];
  db_path = 100 ∷ [];
  max_mem_nodes = 10;
  sst_counter = 0;
}

running-answers :
    (k : Bytes) → SkipList.get two_nodes k ≡ after_records logged_records k (done none)
running-answers k =
    get_lem two_nodes ghosts two_nodes-IsValid k ∙ elim (Bool-cases (bytes_eq (97 ∷ []) k)) [
      | inl first ↦ rw first refl
      | inr other ↦ elim (Bool-cases (bytes_eq (98 ∷ []) k)) [
        | inl second ↦ rw (other, second) refl
        | inr neither ↦ rw (other, neither) refl
      ]
    ]

running-Logged : Logged disk running
unfolding cpp_kvstore.Common.Lex.lex
running-Logged = record {
  nodes = ghosts;
  records = logged_records;
  valid = two_nodes-IsValid;
  opened = refl;
  content = refl;
  fits = omega arith;
  answers = running-answers;
}

put-Rebuilt_example :
    (d1 : Disk) × (e' : KvEngine) × (put disk running (97 ∷ []) (51 ∷ []) (true ∷ [])
      ≡ (if leb 10 (SkipList.size e'.skiplist) then flush_mem_table d1 e' else done (d1, e')))
    × Logged d1 e'
    × Rebuilt d1 log_path 4
        (λ i. [])
        (with_entry
          (97 ∷ [])
          (record { type_ = type_value; value = 51 ∷ [] })
          (SkipList.get two_nodes))
put-Rebuilt_example =
    put-Rebuilt disk running running-Logged (97 ∷ []) (omega arith) (true ∷ []) 4 (λ i. [])
      (omega arith) (51 ∷ []) (omega arith)

erase-Rebuilt_example :
    (d1 : Disk) × (e' : KvEngine) × (erase disk running (98 ∷ []) [] ≡ done (d1, e', true))
    × Logged d1 e'
    × Rebuilt d1 log_path 4
        (λ i. [])
        (with_entry
          (98 ∷ [])
          (record { type_ = type_deletion; value = [] })
          (SkipList.get two_nodes))
erase-Rebuilt_example =
    erase-Rebuilt disk running running-Logged (98 ∷ []) (omega arith) [] 4 (λ i. []) (omega arith)
