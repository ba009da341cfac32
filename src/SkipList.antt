-- ===== src/SkipList.antt =====
-- include/skip_list.h with the keys and values of the engine, std::string and the TableValue of
-- include/types.h. The nodes are on an explicit heap: a pointer is an address, nullptr is `none`,
-- and a read through a dangling pointer or past the end of `forward` is a fault.
pub mod Rows
pub mod Search
pub mod Get
pub mod Fresh
pub mod Seek
pub mod Frame
pub mod Link
pub mod Splice
pub mod Insert
pub mod Put
pub mod PutNew
pub mod PutOld
pub mod PutAny
pub mod Clear
use cpp_kvstore.Common.{
  ℕ, zero, suc, ◌+◌, ◌-◌, Bool, true, false, ◌&&◌, List, [], ◌∷◌, ◌++◌, Option, none, some,
}
use cpp_kvstore.Common.{
  if◌then◌else◌, ltb, ◌==◌, length, replicate, get_elem?, set, Run, done, fault, stuck, ◌>>=◌,
}
use cpp_kvstore.Common.Bytes.{Bytes}
use cpp_kvstore.Common.Lex.{bytes_lt, bytes_eq}

pub record TableValue : Type 0 where
  pub type_ : ℕ
  pub value : Bytes

abbrev pub Pointer : Type 0
Pointer = Option ℕ

pub record Node : Type 0 where
  pub key : Bytes
  pub value : TableValue
  pub forward : List Pointer

-- Addresses from `fresh` on have not been given out.
pub record Heap : Type 0 where
  pub node : ℕ → Option Node
  pub fresh : ℕ

-- The head node stands at address 0.
abbrev pub head : ℕ
head = 0

pub record SkipList : Type 0 where
  pub heap : Heap
  pub max_level : ℕ
  pub current_level : ℕ
  pub node_count : ℕ

unfoldable pub load : Heap → ℕ → Run Node
load h a = elim (h.node a) [ none ↦ fault | some n ↦ done n ]

-- p->forward[i]
unfoldable pub forward_at : Heap → ℕ → ℕ → Run Pointer
forward_at h i a = load h a >>= λ n. elim (get_elem? n.forward i) [ none ↦ fault | some p ↦ done p ]

unfoldable pub key_of : Heap → ℕ → Run Bytes
key_of h a = load h a >>= λ n. done n.key

unfoldable pub store : Heap → ℕ → Option Node → Heap
store h a n = record h { node = λ b. if b == a then n else h.node b }

-- p->forward[i] = q
unfoldable pub set_forward : Heap → ℕ → ℕ → Pointer → Run Heap
set_forward h i a q = load h a >>= λ n.
    if ltb i (length n.forward)
    then done (store h a (some (record n { forward = set n.forward i q })))
    else fault

-- SkipList(int max_lvl)
unfoldable pub new_skip_list : ℕ → SkipList
new_skip_list max_lvl = record {
  heap = record {
    node = λ a.
        if a == head
        then some (record {
          key = [];
          value = record { type_ = 1; value = [] };
          forward = replicate max_lvl none;
        })
        else none;
    fresh = 1;
  };
  max_level = max_lvl;
  current_level = 1;
  node_count = 0;
}

-- random_level: the list is what the tests `dis(gen) < 0.5` answer, and false from its end on.
unfoldable pub random_from : ℕ → List Bool → ℕ → ℕ
random_from max_level [] lvl = lvl
random_from max_level (coin ∷ coins) lvl =
    if coin && ltb lvl max_level then random_from max_level coins (lvl + 1) else lvl

unfoldable pub random_level : SkipList → List Bool → ℕ
random_level s coins = random_from s.max_level coins 1

-- The inner loop of put, get and erase: right along level i while the next key is below. It takes
-- a step for each node of the level at most.
unfoldable pub walk : ℕ → Heap → ℕ → Bytes → ℕ → Run ℕ
walk zero h i key curr = stuck
walk (suc fuel) h i key curr = forward_at h i curr >>= λ p. elim p [
  | none ↦ done curr
  | some c ↦
      key_of h c >>= λ k. elim (bytes_lt k key) [ true ↦ walk fuel h i key c | false ↦ done curr ]
]

-- The outer loop, over levels n - 1 down to 0: the entries of `update` that it sets, from level 0
-- up, and the last `curr`.
unfoldable pub descend : ℕ → Heap → ℕ → Bytes → ℕ → Run (List ℕ × ℕ)
descend fuel h zero key curr = done ([], curr)
descend fuel h (suc i) key curr = walk fuel h i key curr >>= λ next.
    descend fuel h i key next >>= λ p. done (p.0 ++ next ∷ [], p.1)

unfoldable pub search_path : SkipList → Bytes → Run (List ℕ × ℕ)
search_path s key = descend (suc s.node_count) s.heap s.current_level key head

-- `curr != nullptr && curr->key == key`: the node that stands there, if it has the key.
unfoldable pub matching : Heap → Bytes → Pointer → Run (Option (ℕ × Node))
matching h key none = done none
matching h key (some c) = load h c >>= λ n. done (if bytes_eq n.key key then some (c, n) else none)

-- get; `none` is the result false.
unfoldable pub get : SkipList → Bytes → Run (Option TableValue)
get s key = search_path s key >>= λ path. forward_at s.heap 0 path.1 >>= λ p.
    matching s.heap key p >>= λ m. done (elim m [ none ↦ none | some cn ↦ some (cn.1).value ])

-- The loop of put that splices the new node in at level i, for i from `i` on.
unfoldable pub link : Heap → ℕ → ℕ → List ℕ → Run Heap
link h new_node i [] = done h
link h new_node i (u ∷ update) = forward_at h i u >>= λ p. set_forward h i new_node p >>= λ h1.
    set_forward h1 i u (some new_node) >>= λ h2. link h2 new_node (suc i) update

unfoldable pub take_update : ℕ → List ℕ → Run (List ℕ)
take_update zero update = done []
take_update (suc n) [] = fault
take_update (suc n) (u ∷ update) = take_update n update >>= λ us. done (u ∷ us)

-- put behind the search, for a key that is not there.
unfoldable pub insert_node : SkipList → List ℕ → Bytes → TableValue → ℕ → Run SkipList
insert_node s update key value new_level =
    let update' = update ++ replicate (new_level - s.current_level) head in
    let new_node = s.heap.fresh in
    let n : Node = record { key = key; value = value; forward = replicate new_level none } in
    let h = record (store s.heap new_node (some n)) { fresh = suc new_node } in
    take_update new_level update' >>= λ us. link h new_node 0 us >>= λ h'. done (record s {
      heap = h';
      current_level = if ltb s.current_level new_level then new_level else s.current_level;
      node_count = suc s.node_count;
    })

unfoldable pub put : SkipList → Bytes → TableValue → List Bool → Run SkipList
put s key value coins = search_path s key >>= λ path. forward_at s.heap 0 path.1 >>= λ p.
    matching s.heap key p >>= λ m. elim m [
      | none ↦ insert_node s path.0 key value (random_level s coins)
      | some cn ↦
          done (record s { heap = store s.heap cn.0 (some (record (cn.1) { value = value })) })
    ]

-- The loop of erase over the levels of the node: where `update[i]` points to it, it is unlinked.
unfoldable pub unlink : Heap → ℕ → ℕ → List Pointer → List ℕ → Run Heap
unlink h curr i [] update = done h
unlink h curr i (p ∷ forward) [] = fault
unlink h curr i (p ∷ forward) (u ∷ update) = forward_at h i u >>= λ q.
    (elim q [ none ↦ done h | some c ↦ if c == curr then set_forward h i u p else done h ])
    >>= λ h'. unlink h' curr (suc i) forward update

-- `while (current_level > 1 && head->forward[current_level - 1] == nullptr) current_level--`
unfoldable pub trim_level : Heap → ℕ → Run ℕ
trim_level h zero = done zero
trim_level h (suc zero) = done 1
trim_level h (suc (suc l)) = forward_at h (suc l) head >>= λ p. elim p [
  | none ↦ trim_level h (suc l)
  | some c ↦ done (suc (suc l))
]

unfoldable pub erase : SkipList → Bytes → Run (SkipList × Bool)
erase s key = search_path s key >>= λ path. forward_at s.heap 0 path.1 >>= λ p.
    matching s.heap key p >>= λ m. elim m [
      | none ↦ done (s, false)
      | some cn ↦ unlink s.heap cn.0 0 (cn.1).forward path.0 >>= λ h.
          let h' = store h cn.0 none in
          trim_level h' s.current_level >>= λ level.
          done (record s { heap = h'; current_level = level; node_count = s.node_count - 1 }, true)
    ]

-- find_greater_or_equal: one loop that goes right or down; `level` is one more than the source's.
unfoldable pub seek_loop : ℕ → Heap → ℕ → Bytes → ℕ → Run ℕ
seek_loop fuel h zero key x = done x
seek_loop zero h (suc i) key x = stuck
seek_loop (suc fuel) h (suc i) key x = forward_at h i x >>= λ p. elim p [
  | none ↦ seek_loop fuel h i key x
  | some c ↦ key_of h c >>= λ k. elim (bytes_lt k key) [
    | true ↦ seek_loop fuel h (suc i) key c
    | false ↦ seek_loop fuel h i key x
  ]
]

unfoldable pub find_greater_or_equal : SkipList → Bytes → Run Pointer
find_greater_or_equal s key =
    seek_loop (s.node_count + s.current_level) s.heap s.current_level key head >>= λ x.
    forward_at s.heap 0 x

unfoldable pub size : SkipList → ℕ
size s = s.node_count

-- dump_all: along level 0.
unfoldable pub dump_from : ℕ → Heap → Pointer → Run (List (Bytes × TableValue))
dump_from fuel h none = done []
dump_from zero h (some c) = stuck
dump_from (suc fuel) h (some c) = load h c >>= λ n.
    forward_at h 0 c >>= λ p. dump_from fuel h p >>= λ rest. done ((n.key, n.value) ∷ rest)

unfoldable pub dump_all : SkipList → Run (List (Bytes × TableValue))
dump_all s = forward_at s.heap 0 head >>= λ p. dump_from s.node_count s.heap p

-- The loop of clear that deletes the nodes of level 0.
unfoldable pub delete_from : ℕ → Heap → Pointer → Run Heap
delete_from fuel h none = done h
delete_from zero h (some c) = stuck
delete_from (suc fuel) h (some c) = forward_at h 0 c >>= λ p. delete_from fuel (store h c none) p

unfoldable pub reset_head : Heap → ℕ → Run Heap
reset_head h zero = done h
reset_head h (suc i) = reset_head h i >>= λ h'. set_forward h' i head none

unfoldable pub clear : SkipList → Run SkipList
clear s = forward_at s.heap 0 head >>= λ p. delete_from s.node_count s.heap p >>= λ h.
    reset_head h s.max_level >>= λ h'.
    done (record s { heap = h'; current_level = 1; node_count = 0 })
