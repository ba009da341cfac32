-- ===== src/Tests/OfVoxel.antt =====
-- include/voxel_value.h on concrete blocks.
use cpp_kvstore.Common.{◌≡◌, ◌%◌, ◌^◌, arith, length, take, List, [], ◌∷◌, true, done}
use cpp_kvstore.Slice.{Slice, of_string}
use cpp_kvstore.Voxel.{CompressedPoint3D, VoxelHeader, Parsed, serialize, parse, block_header}
use cpp_kvstore.Voxel.RoundTrip.{parse-serialize}
use cpp_kvstore.Voxel.Total.{parse_total, Agrees}

abbrev two_points : List CompressedPoint3D
two_points =
    record { delta_x = 1; delta_y = 65535; delta_z = 300; intensity = 9 }
    ∷ record { delta_x = 0; delta_y = 7; delta_z = 2; intensity = 255 }
    ∷ []

abbrev no_header : VoxelHeader
no_header = record {
  base_x_mm = 0;
  base_y_mm = 0;
  base_z_mm = 0;
  occupancy_prob = 0;
  quality_score = 0;
  point_count = 0;
}

parse-serialize_example :
    parse (of_string (serialize 1000 4294967295 70000 90 3 two_points)) no_header []
    ≡ done (record {
      ok = true;
      out_header = block_header 1000 4294967295 70000 90 3 two_points;
      out_points = take (length two_points % 2 ^ 16) two_points;
    })
parse-serialize_example =
    parse-serialize 1000 4294967295 70000 90 3 two_points [] no_header (omega arith) (omega arith)
      (omega arith) (omega arith) (omega arith) (omega arith)

-- seventeen bytes whose header counts one point
abbrev cut_block : Slice
cut_block = record {
  mem = 0 ∷ 0 ∷ 0 ∷ 0 ∷ 0 ∷ 0 ∷ 0 ∷ 0 ∷ 0 ∷ 0 ∷ 0 ∷ 0 ∷ 0 ∷ 0 ∷ 1 ∷ 0 ∷ 5 ∷ [];
  size = 17;
}

parse_total_example :
    (p : Parsed) × (parse cut_block no_header two_points ≡ done p)
    × Agrees p.ok cut_block two_points p
parse_total_example = parse_total cut_block no_header two_points (omega arith)
