-- ===== src/Sharded/Writes.antt =====
-- get through the shards after a change of one shard.
use cpp_kvstore.Common.{
  ℕ, zero, suc, ◌-◌, ◌<◌, ◌≡◌, refl, sym, ap, ◌∙◌, arith, Bool, true, false, Bool-cases, inl, inr,
}
use cpp_kvstore.Common.{
  List, [], ◌∷◌, Option, none, some, if◌then◌else◌, leb, ◌==◌, length, get_elem?, set, Run, done,
  fault,
}
use cpp_kvstore.Common.Bytes.{Bytes}
use cpp_kvstore.Common.Lex.{bytes_eq, bytes_eq→eq}
use cpp_kvstore.Disk.{Disk}
use cpp_kvstore.SkipList.Rows.{Ghost}
use cpp_kvstore.SkipList.Search.{IsValid}
use cpp_kvstore.Iterator.Merging.Steps.{get_elem?-set, get_elem?-set_ne, length-set, same_or}
use cpp_kvstore.Engine.{KvEngine}
use cpp_kvstore.Engine
use cpp_kvstore.Engine.Write.{Answers, erase-Answers}
use cpp_kvstore.Sharded.{
  ShardedKvEngine, get_shard, shard_at, set_shard, get, erase, spatial_key_size, scan_ranges,
}
use cpp_kvstore.Sharded.Routing.{WellFormed, get_shard_lem, get_shard_long, get_shard_short}

-- The routing looks at how many shards there are, not at what they hold.
get_shard-set_shard :
    (s : ShardedKvEngine) (i : ℕ) (e : KvEngine) (key : Bytes)
    → get_shard (set_shard s i e) key ≡ get_shard s key
get_shard-set_shard s i e key = elim (Bool-cases (leb spatial_key_size (length key))) [
  | inl long ↦ get_shard_long (set_shard s i e) key long ∙ sym (get_shard_long s key long)
  | inr short ↦
      get_shard_short (set_shard s i e) key short
      ∙ ap
          (λ n. elim (scan_ranges s.ranges key) as (λ o. Run ℕ) [
            | some j ↦ done j
            | none ↦ if n == 0 then fault else done (n - 1)
          ])
          (length-set s.shards i e)
      ∙ sym (get_shard_short s key short)
]

shard_at-some :
    (s : ShardedKvEngine) (i : ℕ) (e : KvEngine)
    → get_elem? s.shards i ≡ some e
    → shard_at s i ≡ done e
unfolding shard_at
shard_at-some s i e at =
    ap (λ o. elim o as (λ x. Run KvEngine) [ none ↦ fault | some x ↦ done x ]) at

get-at :
    (s : ShardedKvEngine) (i : ℕ) (e : KvEngine) (k : Bytes)
    → get_shard s k ≡ done i
    → get_elem? s.shards i ≡ some e
    → get s k ≡ Engine.get e k
unfolding get
get-at s i e k route at = rw (route, get, shard_at-some s i e at) refl

erase-at :
    (d d' : Disk) (s : ShardedKvEngine) (i : ℕ) (e e' : KvEngine) (key : Bytes) (coins : List Bool)
    → get_shard s key ≡ done i
    → get_elem? s.shards i ≡ some e
    → Engine.erase d e key coins ≡ done (d', e', true)
    → erase d s key coins ≡ done (d', set_shard s i e', true)
unfolding erase
erase-at d d' s i e e' key coins route at run = rw (route, erase, shard_at-some s i e at, run) refl

get_elem?-some :
    (l : List KvEngine) (n : ℕ) → n < length l → (x : KvEngine) × (get_elem? l n ≡ some x)
get_elem?-some [] n n_lt = absurd (omega arith)
get_elem?-some (x ∷ l) zero n_lt = (x, refl)
get_elem?-some (x ∷ l) (suc n) n_lt = get_elem?-some l n (omega arith)

-- If one shard changes as an operation on the key does, so do all shards together.
set_shard-Answers :
    (s : ShardedKvEngine) (i : ℕ) (e e' : KvEngine) (key : Bytes) (value : Option Bytes)
    → WellFormed s
    → get_shard s key ≡ done i
    → i < length s.shards
    → get_elem? s.shards i ≡ some e
    → Answers e e' key value
    → (k : Bytes) → get (set_shard s i e') k ≡ (if bytes_eq key k then done value else get s k)
set_shard-Answers s i e e' key value w route lt at answers k =
    let (j, to_j, j_lt) = get_shard_lem s k w in
    let to_j' : get_shard (set_shard s i e') k ≡ done j = get_shard-set_shard s i e' k ∙ to_j in
    elim (same_or i j) [
      | inl (_, same) ↦
          let there : get_elem? s.shards j ≡ some e = rw same at in
          let there' : get_elem? (set s.shards i e') j ≡ some e' =
            rw same (get_elem?-set s.shards i e' lt) in
          get-at (set_shard s i e') j e' k to_j' there'
          ∙ answers k
          ∙ ap (λ r. if bytes_eq key k then done value else r) (sym (get-at s j e k to_j there))
      | inr (_, ne) ↦
          let other : bytes_eq key k ≡ false = elim (Bool-cases (bytes_eq key k)) [
            | inr f ↦ f
            | inl t ↦
                let eq : key ≡ k = bytes_eq→eq key k t in
                let two : done j ≡ done i = sym to_j ∙ ap (get_shard s) (sym eq) ∙ route in
                absurd (ne (cc two))
          ] in
          let there = get_elem?-some s.shards j j_lt in
          let there' : get_elem? (set s.shards i e') j ≡ some (there.0) =
            get_elem?-set_ne s.shards i j e' ne ∙ there.1 in
          get-at (set_shard s i e') j (there.0) k to_j' there'
          ∙ sym (get-at s j (there.0) k to_j (there.1))
          ∙ rw other refl
    ]

-- If every key has a shard, and the memory table of the key's shard is valid, erase through the
-- shards returns true: get through them finds nothing for the key then, and gives what it gave
-- before for every other key, of whatever shard.
pub erase-Answers_sharded :
    (d : Disk) (s : ShardedKvEngine) (key : Bytes) (coins : List Bool)
    → WellFormed s
    → ((i : ℕ) (e : KvEngine)
        → get_elem? s.shards i ≡ some e
        → (gs : List Ghost) × IsValid e.skiplist gs)
    → (d' : Disk) × (s' : ShardedKvEngine) × (erase d s key coins ≡ done (d', s', true))
      × ((k : Bytes) → get s' k ≡ (if bytes_eq key k then done none else get s k))
erase-Answers_sharded d s key coins w valid =
    let (i, route, lt) = get_shard_lem s key w in
    let (e, at) = get_elem?-some s.shards i lt in
    let (gs, v) = valid i e at in
    let (e', gs', run, v', answers) = erase-Answers d e gs v key coins in
    (
      _,
      set_shard s i e',
      erase-at d _ s i e e' key coins route at run,
      set_shard-Answers s i e e' key none w route lt at answers,
    )
