-- ===== src/Tests/OfSsTable.antt =====
-- src/sstable_builder.cpp and src/sstable_reader.cpp on concrete tables.
use cpp_kvstore.Common.{
  ◌≡◌, ◌<◌, ◌^◌, refl, arith, List, [], ◌∷◌, true, false, some, map, length, All, done,
}
use cpp_kvstore.Common.Lex.{lex}
use cpp_kvstore.Slice.{Slice}
use cpp_kvstore.SsTable.Format.{type_value, type_deletion, record_bytes, index_bytes, footer_bytes}
use cpp_kvstore.SsTable.Builder.{
  build, add, add_record, flush_block, finish, finish_table, write_index,
}
use cpp_kvstore.SsTable.Builder.{new_builder, add_all, write_index_entry, default_block_size}
use cpp_kvstore.SsTable.Builder.Finish.{record_of, build_lem}
use cpp_kvstore.SsTable.Reader.{open_content, search_in_data_block}
use cpp_kvstore.SsTable.Reader.Block.{search_in_data_block_lem}
use cpp_kvstore.SsTable.Reader.Get.{Serves, get-open_content-build}
use cpp_kvstore.SsTable.Table.{
  Entry, Fits, Sorted, block_bytes, table_bytes, flatten, hit, IsNonempty,
}

abbrev alive : Entry
alive = record { key = 97 ∷ []; value = 49 ∷ 50 ∷ []; type_ = type_value }

abbrev dead : Entry
dead = record { key = 98 ∷ []; value = []; type_ = type_deletion }

abbrev last_one : Entry
last_one = record { key = 98 ∷ 0 ∷ []; value = []; type_ = type_value }

abbrev three : List Entry
three = alive ∷ dead ∷ last_one ∷ []

three-Sorted : Sorted three
unfolding lex
three-Sorted = ((refl, (refl, tt)), ((refl, tt), (tt, tt)))

three-Fits : All Fits three
three-Fits = omega arith

three-small : length (block_bytes three) < 2 ^ 60
unfolding record_bytes
three-small = omega arith

abbrev key_b : Slice
key_b = record { mem = 98 ∷ []; size = 1 }

-- with a block size of 16 the three records take two blocks
build-three :
    (build 16 (map record_of three)).0.file
    ≡ table_bytes ((alive ∷ dead ∷ []) ∷ (last_one ∷ []) ∷ [])
unfolding build add add_record flush_block finish finish_table write_index write_index_entry
    new_builder add_all record_bytes index_bytes footer_bytes
build-three = refl

get-open_content-build_example :
    Serves (open_content [] (build 16 (map record_of three)).0.file 7) [] 7 three key_b
get-open_content-build_example =
    get-open_content-build 16 three [] 7 key_b tt three-Sorted three-Fits three-small (omega arith)

build_lem_example :
    (ds : List (List Entry)) × ((build default_block_size (map record_of three)).0.file
      ≡ table_bytes ds)
    × ((build default_block_size (map record_of three)).1 ≡ true)
    × (flatten ds ≡ three)
    × All IsNonempty ds
build_lem_example = build_lem default_block_size three tt three-small

-- With no record, Finish reports failure and leaves an empty file.
build-nil : ((build 16 []).0.file ≡ []) × ((build 16 []).1 ≡ false)
unfolding build add_all new_builder finish
build-nil = (refl, refl)

search_in_data_block_lem_example :
    search_in_data_block (block_bytes three) key_b ≡ done (some (hit dead))
unfolding lex
search_in_data_block_lem_example =
    search_in_data_block_lem three key_b three-Fits three-Sorted (omega arith)
