-- ===== src/Tests/OfSkipList.antt =====
-- include/skip_list.h on a small list.
use cpp_kvstore.Common.{
  ℕ, zero, suc, ◌≡◌, ◌<◌, ◌≤◌, refl, arith, List, [], ◌∷◌, true, none, some, done, ◌>>=◌,
}
use cpp_kvstore.SkipList.{
  TableValue, SkipList, head, new_skip_list, put, get, dump_all, dump_from, random_level,
  random_from,
}
use cpp_kvstore.SkipList.{
  search_path, descend, walk, load, forward_at, key_of, matching, insert_node, take_update, link,
  store, set_forward,
}
use cpp_kvstore.SkipList.Rows.{Ghost, row, Links, lookup}
use cpp_kvstore.SkipList.Search.{IsValid}
use cpp_kvstore.SkipList.Get.{get_lem, dump_all_lem, entries}
use cpp_kvstore.SkipList.Seek.{find_greater_or_equal_lem}
use cpp_kvstore.SkipList.{find_greater_or_equal}
use cpp_kvstore.SkipList.Rows.{first_of}
use cpp_kvstore.SkipList.Search.{upper}
use cpp_kvstore.SkipList.PutAny.{Puts, put_lem}
use cpp_kvstore.SkipList.Fresh.{new_skip_list-IsValid, random_level-bounds}
use cpp_kvstore.Common.Lex.{lex}

abbrev one : TableValue
one = record { type_ = 1; value = 49 ∷ [] }

abbrev two : TableValue
two = record { type_ = 1; value = 50 ∷ [] }

-- two nodes, of which the second is on both levels
abbrev pub two_nodes : SkipList
two_nodes = record {
  heap = record {
    node = λ a. elim a [
      | zero ↦ some (record {
        key = [];
        value = record { type_ = 1; value = [] };
        forward = some 2 ∷ some 1 ∷ [];
      })
      | suc b ↦ elim b [
        | zero ↦ some (record { key = 98 ∷ []; value = two; forward = none ∷ none ∷ [] })
        | suc c ↦ elim c [
          | zero ↦ some (record { key = 97 ∷ []; value = one; forward = some 1 ∷ [] })
          | suc d ↦ none
        ]
      ]
    ];
    fresh = 3;
  };
  max_level = 2;
  current_level = 2;
  node_count = 2;
}

abbrev pub ghosts : List Ghost
ghosts =
    record { addr = 2; key = 97 ∷ []; value = one; height = 1 }
    ∷ record { addr = 1; key = 98 ∷ []; value = two; height = 2 }
    ∷ []

two_nodes-levels : (i : ℕ) → i < 2 → Links two_nodes.heap i head (row i ghosts)
unfolding forward_at key_of load
two_nodes-levels zero lt = (refl, refl, (refl, refl, refl))
two_nodes-levels (suc zero) lt = (refl, refl, refl)
two_nodes-levels (suc (suc i)) lt = absurd (omega arith)

pub two_nodes-IsValid : IsValid two_nodes ghosts
unfolding load lex
two_nodes-IsValid = record {
  sorted = ((refl, tt), (tt, tt));
  levels = two_nodes-levels;
  nodes = (
    record {
      node = record { key = 97 ∷ []; value = one; forward = some 1 ∷ [] };
      loaded = refl;
      key = refl;
      value = refl;
      tall = refl;
      low = omega arith;
      allocated = omega arith;
      not_head = omega arith;
    },
    (
      record {
        node = record { key = 98 ∷ []; value = two; forward = none ∷ none ∷ [] };
        loaded = refl;
        key = refl;
        value = refl;
        tall = refl;
        low = omega arith;
        allocated = omega arith;
        not_head = omega arith;
      },
      tt,
    ),
  );
  heights = omega arith;
  some_level = omega arith;
  within = omega arith;
  count = refl;
  head_allocated = omega arith;
}

get_lem_example : get two_nodes (98 ∷ []) ≡ done (lookup (98 ∷ []) ghosts)
get_lem_example = get_lem two_nodes ghosts two_nodes-IsValid (98 ∷ [])

dump_all_lem_example : dump_all two_nodes ≡ done (entries ghosts)
dump_all_lem_example = dump_all_lem two_nodes ghosts two_nodes-IsValid

new_skip_list-IsValid_example : IsValid (new_skip_list 12) []
new_skip_list-IsValid_example = new_skip_list-IsValid 12 (omega arith)

random_level-bounds_example :
    (0 < random_level two_nodes (true ∷ true ∷ true ∷ []))
    × (random_level two_nodes (true ∷ true ∷ true ∷ []) ≤ 2)
random_level-bounds_example = random_level-bounds two_nodes (true ∷ true ∷ true ∷ []) (omega arith)

-- putting the same entries into a new list and reading them back
put-put-dump :
    (put (new_skip_list 2) (98 ∷ []) two (true ∷ []) >>= λ s.
    put s (97 ∷ []) one [] >>= λ t. dump_all t)
    ≡ done ((97 ∷ [], one) ∷ (98 ∷ [], two) ∷ [])
unfolding put dump_all search_path descend walk load forward_at key_of matching insert_node
    take_update link store set_forward random_level random_from new_skip_list dump_from lex
put-put-dump = refl

find_greater_or_equal_lem_example :
    find_greater_or_equal two_nodes (97 ∷ 0 ∷ []) ≡ done (first_of (upper (97 ∷ 0 ∷ []) ghosts))
find_greater_or_equal_lem_example =
    find_greater_or_equal_lem two_nodes ghosts (97 ∷ 0 ∷ []) two_nodes-IsValid

put_lem_example : Puts two_nodes (98 ∷ []) one (true ∷ [])
put_lem_example = put_lem two_nodes ghosts two_nodes-IsValid (98 ∷ []) one (true ∷ [])
