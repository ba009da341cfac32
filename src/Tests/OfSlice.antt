-- ===== src/Tests/OfSlice.antt =====
-- include/slice.h at concrete slices.
use cpp_kvstore.Common.{◌≡◌, refl, arith, [], ◌∷◌, ◌++◌, true, not, done, fault, ◌↔◌}
use cpp_kvstore.Common.{Ordering}
use cpp_kvstore.Common.Bytes.{Bytes}
use cpp_kvstore.Common.Lex.{lex, is_lt, is_eq, is_gt}
use cpp_kvstore.Slice.{
  Slice, compare, view, slice_eq, slice_ne, slice_lt, slice_le, slice_gt, slice_ge, IsValid,
}
use cpp_kvstore.Slice.{starts_with, remove_prefix}
use cpp_kvstore.Slice.Laws.{compare_lem, operators_lem, slice_eq_iff, starts_with_iff}
use cpp_kvstore.Slice.Laws.{remove_prefix_lem, WithoutPrefix}

-- "ab" inside a longer buffer, and "abc"
abbrev short_slice : Slice
short_slice = record { mem = 97 ∷ 98 ∷ 120 ∷ []; size = 2 }

abbrev long_slice : Slice
long_slice = record { mem = 97 ∷ 98 ∷ 99 ∷ []; size = 3 }

abbrev dangling : Slice
dangling = record { mem = 97 ∷ []; size = 3 }

compare-short_slice : compare short_slice long_slice ≡ done Ordering.lt
unfolding compare lex
compare-short_slice = refl

compare-dangling : compare dangling long_slice ≡ fault
unfolding compare
compare-dangling = refl

compare_lem_example : compare short_slice long_slice ≡ done (lex (97 ∷ 98 ∷ []) (97 ∷ 98 ∷ 99 ∷ []))
compare_lem_example = compare_lem short_slice long_slice (omega arith) (omega arith)

operators_lem_example :
    (slice_eq short_slice long_slice ≡ done (is_eq (lex (view short_slice) (view long_slice))))
    × (slice_ne short_slice long_slice
        ≡ done (not (is_eq (lex (view short_slice) (view long_slice)))))
    × (slice_lt short_slice long_slice ≡ done (is_lt (lex (view short_slice) (view long_slice))))
    × (slice_le short_slice long_slice
        ≡ done (not (is_gt (lex (view short_slice) (view long_slice)))))
    × (slice_gt short_slice long_slice ≡ done (is_gt (lex (view short_slice) (view long_slice))))
    × (slice_ge short_slice long_slice
        ≡ done (not (is_lt (lex (view short_slice) (view long_slice)))))
operators_lem_example = operators_lem short_slice long_slice (omega arith) (omega arith)

slice_eq_iff_example :
    (slice_eq short_slice long_slice ≡ done true) ↔ (view short_slice ≡ view long_slice)
slice_eq_iff_example = slice_eq_iff short_slice long_slice (omega arith) (omega arith)

starts_with_iff_example :
    (starts_with long_slice short_slice ≡ done true)
    ↔ ((rest : Bytes) × (view long_slice ≡ view short_slice ++ rest))
starts_with_iff_example = starts_with_iff long_slice short_slice (omega arith) (omega arith)

-- Two bytes of "abc" go; a fourth is not there.
remove_prefix_lem_example :
    WithoutPrefix long_slice 2 (remove_prefix long_slice 2) × ¬ IsValid (remove_prefix long_slice 4)
remove_prefix_lem_example = (
  (remove_prefix_lem long_slice 2 (omega arith) (omega arith) (omega arith)).0 (omega arith),
  (remove_prefix_lem long_slice 4 (omega arith) (omega arith) (omega arith)).1 (omega arith),
)
