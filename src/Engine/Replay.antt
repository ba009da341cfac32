-- ===== src/Engine/Replay.antt =====
-- The replay of log records against what the memory table answers.
use cpp_kvstore.Common.{◌≡◌, refl, sym, ap, ◌∙◌, true, false, Bool-cases, inl, inr}
use cpp_kvstore.Common.{List, [], ◌∷◌, Option, none, some, if◌then◌else◌, ◌==◌, Run, done}
use cpp_kvstore.Common.Bytes.{Bytes}
use cpp_kvstore.Common.Lex.{bytes_eq}
use cpp_kvstore.SkipList.{SkipList, TableValue}
use cpp_kvstore.SkipList
use cpp_kvstore.SkipList.Rows.{Ghost}
use cpp_kvstore.SkipList.Search.{IsValid}
use cpp_kvstore.SkipList.PutAny.{put_lem}
use cpp_kvstore.SsTable.Format.{type_value, type_deletion}
use cpp_kvstore.Wal.Record.{ParsedLogRecord, put_op, erase_op}
use cpp_kvstore.Engine.{Coins, later}
use cpp_kvstore.Engine.Scan.{replay}

-- What a record makes of its key: `none` for an operation that is neither.
abbrev pub written : ParsedLogRecord → Option TableValue
written r =
    if r.op == put_op
    then some (record { type_ = type_value; value = r.value })
    else if r.op == erase_op
    then some (record { type_ = type_deletion; value = [] })
    else none

abbrev pub after_record :
    ParsedLogRecord → Bytes → Run (Option TableValue) → Run (Option TableValue)
after_record r k before = elim (written r) [
  | none ↦ before
  | some v ↦ if bytes_eq r.key k then done (some v) else before
]

-- What the last record with the key says of it, and else what was there before.
abbrev pub after_records :
    List ParsedLogRecord → Bytes → Run (Option TableValue) → Run (Option TableValue)
after_records [] k before = before
after_records (r ∷ records) k before = after_records records k (after_record r k before)

pub after_some :
    (r : ParsedLogRecord) (v : TableValue) (k : Bytes) (before : Run (Option TableValue))
    → written r ≡ some v
    → after_record r k before ≡ (if bytes_eq r.key k then done (some v) else before)
after_some r v k before e = rw (e, after_record) refl

after_none :
    (r : ParsedLogRecord) (k : Bytes) (before : Run (Option TableValue))
    → written r ≡ none
    → after_record r k before ≡ before
after_none r k before e = rw (e, after_record) refl

replay_value :
    (s s' : SkipList) (r : ParsedLogRecord) (records : List ParsedLogRecord) (coins : Coins)
    → (r.op == put_op) ≡ true
    → SkipList.put s r.key (record { type_ = type_value; value = r.value }) (coins 0) ≡ done s'
    → replay s (r ∷ records) coins ≡ replay s' records (later 1 coins)
unfolding replay
replay_value s s' r records coins op run = rw (op, replay, run) refl

replay_tombstone :
    (s s' : SkipList) (r : ParsedLogRecord) (records : List ParsedLogRecord) (coins : Coins)
    → (r.op == put_op) ≡ false
    → (r.op == erase_op) ≡ true
    → SkipList.put s r.key (record { type_ = type_deletion; value = [] }) (coins 0) ≡ done s'
    → replay s (r ∷ records) coins ≡ replay s' records (later 1 coins)
unfolding replay
replay_tombstone s s' r records coins not_put op run = rw (not_put, replay, op, run) refl

replay_skip :
    (s : SkipList) (r : ParsedLogRecord) (records : List ParsedLogRecord) (coins : Coins)
    → (r.op == put_op) ≡ false
    → (r.op == erase_op) ≡ false
    → replay s (r ∷ records) coins ≡ replay s records (later 1 coins)
unfolding replay
replay_skip s r records coins not_put not_erase = rw (not_put, replay, not_erase) refl

abbrev Replays : SkipList → List ParsedLogRecord → Coins → Type 0
Replays s records coins =
    (s' : SkipList) × (gs' : List Ghost) × (replay s records coins ≡ done s')
    × IsValid s' gs'
    × ((k : Bytes) → SkipList.get s' k ≡ after_records records k (SkipList.get s k))

-- Replaying records into a valid memory table succeeds, whatever the records are, and leaves a valid
-- one: get gives, for every key, what the last put or erase record with the key says, and what it
-- gave before where there is none.
pub replay_lem :
    (s : SkipList) (gs : List Ghost) (records : List ParsedLogRecord) (coins : Coins)
    → IsValid s gs
    → (s' : SkipList) × (gs' : List Ghost) × (replay s records coins ≡ done s')
      × IsValid s' gs'
      × ((k : Bytes) → SkipList.get s' k ≡ after_records records k (SkipList.get s k))
unfolding replay
replay_lem s gs [] coins v = (s, gs, refl, v, λ k. refl)
replay_lem s gs (r ∷ records) coins v = elim (Bool-cases (r.op == put_op)) [
  | inl op ↦
      let (s1, gs1, run, v1, gets) =
        put_lem s gs v r.key (record { type_ = type_value; value = r.value }) (coins 0) in
      let (s2, gs2, rest, v2, gets2) = replay_lem s1 gs1 records (later 1 coins) v1 in
      (
        s2,
        gs2,
        replay_value s s1 r records coins op run ∙ rest,
        v2,
        λ k.
            gets2 k
            ∙ ap (after_records records k) (
                gets k
                ∙ sym (
                    after_some r (record { type_ = type_value; value = r.value }) k
                      (SkipList.get s k) (rw op refl))),
      )
  | inr not_put ↦ elim (Bool-cases (r.op == erase_op)) [
    | inl op ↦
        let (s1, gs1, run, v1, gets) =
          put_lem s gs v r.key (record { type_ = type_deletion; value = [] }) (coins 0) in
        let (s2, gs2, rest, v2, gets2) = replay_lem s1 gs1 records (later 1 coins) v1 in
        (
          s2,
          gs2,
          replay_tombstone s s1 r records coins not_put op run ∙ rest,
          v2,
          λ k.
              gets2 k
              ∙ ap (after_records records k) (
                  gets k
                  ∙ sym (
                      after_some r (record { type_ = type_deletion; value = [] }) k
                        (SkipList.get s k) (rw (not_put, op) refl))),
        )
    | inr not_erase ↦
        let (s2, gs2, rest, v2, gets2) = replay_lem s gs records (later 1 coins) v in
        (
          s2,
          gs2,
          replay_skip s r records coins not_put not_erase ∙ rest,
          v2,
          λ k.
              gets2 k
              ∙ ap (after_records records k)
                  (sym (after_none r k (SkipList.get s k) (rw (not_put, not_erase) refl))),
        )
  ]
]
