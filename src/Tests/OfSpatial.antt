-- ===== src/Tests/OfSpatial.antt =====
-- include/spatial_key.h on concrete keys and ranges.
use cpp_kvstore.Spatial.Morton.{encode_grid, decode_grid, gather, split_by_2, spread, generate_grid}
use cpp_kvstore.Common.{ℕ, ◌≡◌, ◌↔◌, refl, arith, List, [], ◌∷◌, done}
use cpp_kvstore.Common.Lex.{lex}
use cpp_kvstore.Slice.{of_string}
use cpp_kvstore.Spatial.Key.{
  SpatialKey3D, to_bytes, from_slice, from_slice-to_bytes, lex-to_bytes, compare_keys,
}
use cpp_kvstore.Spatial.Ranges.{
  MortonRange, merge_ranges, merge_sorted, sort_ranges, insert_range, merge_loop, merge_ranges_lem,
  Covers, Apart,
}
use cpp_kvstore.Spatial.Key

abbrev early : SpatialKey3D
early = record { layer_type = 1; lod_level = 0; morton_code = 255; timestamp_us = 1000 }

abbrev late : SpatialKey3D
late = record { layer_type = 1; lod_level = 0; morton_code = 256; timestamp_us = 7 }

early-InRange : Key.InRange early
early-InRange = record {
  layer = omega arith;
  lod = omega arith;
  code = omega arith;
  time = omega arith;
}

late-InRange : Key.InRange late
late-InRange = record {
  layer = omega arith;
  lod = omega arith;
  code = omega arith;
  time = omega arith;
}

from_slice-to_bytes_example : from_slice (of_string (to_bytes early)) ≡ done early
from_slice-to_bytes_example = from_slice-to_bytes early early-InRange

lex-to_bytes_example : lex (to_bytes early) (to_bytes late) ≡ compare_keys early late
lex-to_bytes_example = lex-to_bytes early late early-InRange late-InRange

abbrev three_ranges : List MortonRange
three_ranges =
    record { start_code = 20; end_code = 30 }
    ∷ record { start_code = 1; end_code = 4 }
    ∷ record { start_code = 5; end_code = 9 }
    ∷ []

merge_ranges_lem_example :
    ((c : ℕ) → Covers (merge_ranges three_ranges) c ↔ Covers three_ranges c)
    × Apart 0 (merge_ranges three_ranges)
merge_ranges_lem_example = merge_ranges_lem three_ranges (omega arith)

merge-three_ranges :
    merge_ranges three_ranges
    ≡ record { start_code = 1; end_code = 9 } ∷ record { start_code = 20; end_code = 30 } ∷ []
unfolding merge_ranges merge_sorted sort_ranges insert_range merge_loop
merge-three_ranges = refl

-- Decode gives the first and the third coordinate in each other's place.
decode_swaps : decode_grid (encode_grid 1 2 3) ≡ (3, 2, 1)
unfolding decode_grid encode_grid gather split_by_2 spread
decode_swaps = refl

point_range : generate_grid 5 5 5 5 5 5 ≡ done (record { start_code = 455; end_code = 455 } ∷ [])
unfolding generate_grid cpp_kvstore.Spatial.Morton.generate_loop
    cpp_kvstore.Spatial.Morton.box_range encode_grid split_by_2 spread
    cpp_kvstore.Spatial.Ranges.merge_ranges cpp_kvstore.Spatial.Ranges.merge_sorted
    cpp_kvstore.Spatial.Ranges.sort_ranges cpp_kvstore.Spatial.Ranges.insert_range
    cpp_kvstore.Spatial.Ranges.merge_loop
point_range = refl
