-- ===== src/Voxel.antt =====
-- include/voxel_value.h: the packed header and points of a voxel block, Serialize and Parse.
-- A signed field is the bit pattern that its memory holds, so a number below 2 ^ 16 or 2 ^ 32.
pub mod RoundTrip
pub mod Total
use cpp_kvstore.Common.{ℕ, zero, suc, ◌+◌, ◌*◌, ◌%◌, ◌^◌, Bool, true, false, List, [], ◌∷◌, ◌++◌}
use cpp_kvstore.Common.{if◌then◌else◌, ltb, length, Run, done, fault, ◌>>=◌}
use cpp_kvstore.Common.Bytes.{Bytes, fixed, read_fixed}
use cpp_kvstore.Slice.{Slice}

pub record CompressedPoint3D : Type 0 where
  pub delta_x : ℕ
  pub delta_y : ℕ
  pub delta_z : ℕ
  pub intensity : ℕ

pub record VoxelHeader : Type 0 where
  pub base_x_mm : ℕ
  pub base_y_mm : ℕ
  pub base_z_mm : ℕ
  pub occupancy_prob : ℕ
  pub quality_score : ℕ
  pub point_count : ℕ

-- sizeof(CompressedPoint3D), sizeof(VoxelHeader)
abbrev pub point_size : ℕ
point_size = 7

abbrev pub header_size : ℕ
header_size = 16

-- The memory of the packed structs.
unfoldable pub point_bytes : CompressedPoint3D → Bytes
point_bytes p = fixed 2 p.delta_x ++ fixed 2 p.delta_y ++ fixed 2 p.delta_z ++ fixed 1 p.intensity

unfoldable pub header_bytes : VoxelHeader → Bytes
header_bytes h =
    fixed 4 h.base_x_mm
    ++ fixed 4 h.base_y_mm
    ++ fixed 4 h.base_z_mm
    ++ fixed 1 h.occupancy_prob
    ++ fixed 1 h.quality_score
    ++ fixed 2 h.point_count

unfoldable pub payload_bytes : List CompressedPoint3D → Bytes
payload_bytes [] = []
payload_bytes (p ∷ ps) = point_bytes p ++ payload_bytes ps

-- The header that Serialize fills in: the count is cast to uint16_t.
unfoldable pub block_header :
    (base_x_mm base_y_mm base_z_mm occupancy_prob quality_score : ℕ)
    → List CompressedPoint3D
    → VoxelHeader
block_header x y z occupancy quality points = record {
  base_x_mm = x;
  base_y_mm = y;
  base_z_mm = z;
  occupancy_prob = occupancy;
  quality_score = quality;
  point_count = length points % 2 ^ 16;
}

-- Serialize
unfoldable pub serialize :
    (base_x_mm base_y_mm base_z_mm occupancy_prob quality_score : ℕ)
    → List CompressedPoint3D
    → Bytes
serialize x y z occupancy quality points =
    header_bytes (block_header x y z occupancy quality points) ++ payload_bytes points

-- The memcpy into a struct, from a cursor that it moves.
unfoldable pub read_point : Bytes → Run (CompressedPoint3D × Bytes)
read_point m = read_fixed 2 m >>= λ x. read_fixed 2 x.1 >>= λ y. read_fixed 2 y.1 >>= λ z.
    read_fixed 1 z.1 >>= λ i.
    done (record { delta_x = x.0; delta_y = y.0; delta_z = z.0; intensity = i.0 }, i.1)

unfoldable pub read_points : ℕ → Bytes → Run (List CompressedPoint3D)
read_points zero m = done []
read_points (suc n) m = read_point m >>= λ p. read_points n p.1 >>= λ ps. done (p.0 ∷ ps)

unfoldable pub read_header : Bytes → Run (VoxelHeader × Bytes)
read_header m = read_fixed 4 m >>= λ x. read_fixed 4 x.1 >>= λ y. read_fixed 4 y.1 >>= λ z.
    read_fixed 1 z.1 >>= λ o. read_fixed 1 o.1 >>= λ q. read_fixed 2 q.1 >>= λ n. done (
      record {
        base_x_mm = x.0;
        base_y_mm = y.0;
        base_z_mm = z.0;
        occupancy_prob = o.0;
        quality_score = q.0;
        point_count = n.0;
      },
      n.1,
    )

-- What Parse returns, and what *out_header and *out_points hold then.
pub record Parsed : Type 0 where
  pub ok : Bool
  pub out_header : VoxelHeader
  pub out_points : List CompressedPoint3D

-- Parse
unfoldable pub parse : Slice → VoxelHeader → List CompressedPoint3D → Run Parsed
parse s out_header out_points =
    if ltb s.size header_size
    then done (record { ok = false; out_header = out_header; out_points = out_points })
    else (read_header s.mem >>= λ h.
        if ltb s.size (header_size + (h.0).point_count * point_size)
        then done (record { ok = false; out_header = h.0; out_points = out_points })
        else (read_points (h.0).point_count h.1 >>= λ ps.
            done (record { ok = true; out_header = h.0; out_points = ps })))
