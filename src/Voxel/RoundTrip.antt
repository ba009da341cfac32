-- ===== src/Voxel/RoundTrip.antt =====
-- Parse on what Serialize gives, and on any slice.
use cpp_kvstore.Common.{ℕ, zero, suc, ◌+◌, ◌*◌, ◌%◌, ◌^◌, ◌≤◌, ◌<◌, ◌≡◌, refl, arith}
use cpp_kvstore.Common.{true, false, List, [], ◌∷◌, ◌++◌}
use cpp_kvstore.Common.{ltb, length, length-append, take, All, done}
use cpp_kvstore.Common.Bytes.{Bytes, fixed, read_fixed-fixed}
use cpp_kvstore.Slice.{of_string}
use cpp_kvstore.Voxel.{CompressedPoint3D, VoxelHeader, point_size, header_size}
use cpp_kvstore.Voxel.{point_bytes, header_bytes, payload_bytes, block_header, serialize}
use cpp_kvstore.Voxel.{read_point, read_points, read_header, parse}

-- The fields are in the range of their types.
abbrev pub InRange : CompressedPoint3D → Type 0
InRange p =
    (p.delta_x < 2 ^ 16) × (p.delta_y < 2 ^ 16) × (p.delta_z < 2 ^ 16) × (p.intensity < 2 ^ 8)

length-point_bytes : (p : CompressedPoint3D) → length (point_bytes p) ≡ point_size
unfolding point_bytes
length-point_bytes p = refl

length-header_bytes : (h : VoxelHeader) → length (header_bytes h) ≡ header_size
unfolding header_bytes
length-header_bytes h = refl

length-payload_bytes :
    (ps : List CompressedPoint3D) → length (payload_bytes ps) ≡ length ps * point_size
unfolding payload_bytes
length-payload_bytes [] = omega arith
length-payload_bytes (p ∷ ps) = omega (
  arith,
  length-append (point_bytes p) (payload_bytes ps),
  length-point_bytes p,
  length-payload_bytes ps,
)

read_point-point_bytes :
    (p : CompressedPoint3D) (rest : Bytes)
    → InRange p
    → read_point (point_bytes p ++ rest) ≡ done (p, rest)
unfolding read_point point_bytes
read_point-point_bytes p rest (x, y, z, i) =
    rw
      (
        read_fixed-fixed 2 p.delta_x
            (fixed 2 p.delta_y ++ fixed 2 p.delta_z ++ fixed 1 p.intensity ++ rest) x,
        read_fixed-fixed 2 p.delta_y (fixed 2 p.delta_z ++ fixed 1 p.intensity ++ rest) y,
        read_fixed-fixed 2 p.delta_z (fixed 1 p.intensity ++ rest) z,
        read_fixed-fixed 1 p.intensity rest i,
      )
      refl

read_points-payload_bytes :
    (n : ℕ) (ps : List CompressedPoint3D)
    → n ≤ length ps
    → All InRange ps
    → read_points n (payload_bytes ps) ≡ done (take n ps)
unfolding read_points payload_bytes
read_points-payload_bytes zero ps le range = refl
read_points-payload_bytes (suc n) [] le range = absurd (omega arith)
read_points-payload_bytes (suc n) (p ∷ ps) le range =
    rw
      (
        read_point-point_bytes p (payload_bytes ps) range.0,
        read_points-payload_bytes n ps (omega arith) range.1,
      )
      refl

read_header-header_bytes :
    (h : VoxelHeader) (rest : Bytes)
    → h.base_x_mm < 2 ^ 32
    → h.base_y_mm < 2 ^ 32
    → h.base_z_mm < 2 ^ 32
    → h.occupancy_prob < 2 ^ 8
    → h.quality_score < 2 ^ 8
    → h.point_count < 2 ^ 16
    → read_header (header_bytes h ++ rest) ≡ done (h, rest)
unfolding read_header header_bytes
read_header-header_bytes h rest x y z o q n =
    let from_q = fixed 1 h.quality_score ++ fixed 2 h.point_count ++ rest in
    let from_z = fixed 4 h.base_z_mm ++ fixed 1 h.occupancy_prob ++ from_q in
    rw
      (
        read_fixed-fixed 4 h.base_x_mm (fixed 4 h.base_y_mm ++ from_z) x,
        read_fixed-fixed 4 h.base_y_mm from_z y,
        read_fixed-fixed 4 h.base_z_mm (fixed 1 h.occupancy_prob ++ from_q) z,
        read_fixed-fixed 1 h.occupancy_prob from_q o,
        read_fixed-fixed 1 h.quality_score (fixed 2 h.point_count ++ rest) q,
        read_fixed-fixed 2 h.point_count rest n,
      )
      refl

-- A header and its points are there: Parse takes as many points as the header counts.
parse_lem :
    (h : VoxelHeader) (ps out_points : List CompressedPoint3D) (out_header : VoxelHeader)
    → h.base_x_mm < 2 ^ 32
    → h.base_y_mm < 2 ^ 32
    → h.base_z_mm < 2 ^ 32
    → h.occupancy_prob < 2 ^ 8
    → h.quality_score < 2 ^ 8
    → h.point_count < 2 ^ 16
    → h.point_count ≤ length ps
    → All InRange ps
    → parse (of_string (header_bytes h ++ payload_bytes ps)) out_header out_points
      ≡ done (record { ok = true; out_header = h; out_points = take h.point_count ps })
unfolding parse of_string
parse_lem h ps out_points out_header x y z o q n le range =
    let size : length (header_bytes h ++ payload_bytes ps) ≡ header_size + length ps * point_size =
      omega (
        arith,
        length-append (header_bytes h) (payload_bytes ps),
        length-header_bytes h,
        length-payload_bytes ps,
      ) in
    let has_header : ltb (length (header_bytes h ++ payload_bytes ps)) header_size ≡ false =
      ground (arith, size) in
    let has_points : ltb (length (header_bytes h ++ payload_bytes ps))
          (header_size + h.point_count * point_size)
        ≡ false =
      ground (arith, size) in
    rw
      (
        has_header,
        read_header-header_bytes h (payload_bytes ps) x y z o q n,
        has_points,
        read_points-payload_bytes h.point_count ps le range,
      )
      refl

-- Parse gives back what Serialize was given, up to the count that a uint16_t holds.
pub parse-serialize :
    (x y z occupancy quality : ℕ) (points out_points : List CompressedPoint3D)
    (out_header : VoxelHeader)
    → x < 2 ^ 32
    → y < 2 ^ 32
    → z < 2 ^ 32
    → occupancy < 2 ^ 8
    → quality < 2 ^ 8
    → All InRange points
    → parse (of_string (serialize x y z occupancy quality points)) out_header out_points
      ≡ done (record {
        ok = true;
        out_header = block_header x y z occupancy quality points;
        out_points = take (length points % 2 ^ 16) points;
      })
unfolding serialize block_header
parse-serialize x y z occupancy quality points out_points out_header hx hy hz ho hq range =
    parse_lem (block_header x y z occupancy quality points) points out_points out_header hx hy hz ho
      hq (omega arith) (omega arith) range
