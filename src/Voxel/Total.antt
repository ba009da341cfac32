-- ===== src/Voxel/Total.antt =====
-- Parse stays inside its slice, whatever bytes it holds.
use cpp_kvstore.Common.{ℕ, zero, suc, ◌+◌, ◌*◌, ◌≤◌, ◌≡◌, refl, arith}
use cpp_kvstore.Common.{Bool, true, false, List, [], ◌∷◌, inl, inr, Bool-cases}
use cpp_kvstore.Common.{ltb, length, Run, done}
use cpp_kvstore.Common.Bytes.{Bytes, read_bytes, read_fixed, fixed_value}
use cpp_kvstore.Slice.{Slice, IsValid}
use cpp_kvstore.Voxel.{CompressedPoint3D, VoxelHeader, Parsed, point_size, header_size}
use cpp_kvstore.Voxel.{read_point, read_points, read_header, parse}

-- A read gave something, and moved the cursor by `w` bytes.
abbrev Moves {ℓ} : {A : Type ℓ} → ℕ → Bytes → Run (A × Bytes) → Type ℓ
Moves {A = A} w m r = (a : A) × (rest : Bytes) × (r ≡ done (a, rest)) × (w + length rest ≡ length m)

read_bytes-Moves : (w : ℕ) (m : Bytes) → w ≤ length m → Moves w m (read_bytes w m)
read_bytes-Moves zero m le = ([], m, refl, omega arith)
read_bytes-Moves (suc w) [] le = absurd (omega arith)
read_bytes-Moves (suc w) (b ∷ m) le =
    let (bs, rest, e, moved) = read_bytes-Moves w m (omega arith) in
    (b ∷ bs, rest, rw e refl, omega (arith, moved))

read_fixed-Moves : (w : ℕ) (m : Bytes) → w ≤ length m → Moves w m (read_fixed w m)
unfolding read_fixed
read_fixed-Moves w m le =
    let (bs, rest, e, moved) = read_bytes-Moves w m le in (fixed_value bs, rest, rw e refl, moved)

read_point-Moves : (m : Bytes) → point_size ≤ length m → Moves point_size m (read_point m)
unfolding read_point
read_point-Moves m le =
    let (x, m1, e1, l1) = read_fixed-Moves 2 m (omega arith) in
    let (y, m2, e2, l2) = read_fixed-Moves 2 m1 (omega arith) in
    let (z, m3, e3, l3) = read_fixed-Moves 2 m2 (omega arith) in
    let (i, m4, e4, l4) = read_fixed-Moves 1 m3 (omega arith) in
    let p : CompressedPoint3D = record { delta_x = x; delta_y = y; delta_z = z; intensity = i } in
    (p, m4, rw (e1, e2, e3, e4) refl, omega arith)

read_header-Moves : (m : Bytes) → header_size ≤ length m → Moves header_size m (read_header m)
unfolding read_header
read_header-Moves m le =
    let (x, m1, e1, l1) = read_fixed-Moves 4 m (omega arith) in
    let (y, m2, e2, l2) = read_fixed-Moves 4 m1 (omega arith) in
    let (z, m3, e3, l3) = read_fixed-Moves 4 m2 (omega arith) in
    let (o, m4, e4, l4) = read_fixed-Moves 1 m3 (omega arith) in
    let (q, m5, e5, l5) = read_fixed-Moves 1 m4 (omega arith) in
    let (n, m6, e6, l6) = read_fixed-Moves 2 m5 (omega arith) in
    let h : VoxelHeader = record {
      base_x_mm = x;
      base_y_mm = y;
      base_z_mm = z;
      occupancy_prob = o;
      quality_score = q;
      point_count = n;
    } in
    (h, m6, rw (e1, e2, e3, e4, e5, e6) refl, omega arith)

read_points_total :
    (n : ℕ) (m : Bytes)
    → n * point_size ≤ length m
    → (ps : List CompressedPoint3D) × (read_points n m ≡ done ps) × (length ps ≡ n)
unfolding read_points
read_points_total zero m le = ([], refl, refl)
read_points_total (suc n) m le =
    let (p, rest, e, moved) = read_point-Moves m (omega arith) in
    let (ps, f, len) = read_points_total n rest (omega arith) in
    (p ∷ ps, rw (e, f) refl, omega arith)

-- What holds when Parse returns true, and what when it returns false.
abbrev pub Agrees : Bool → Slice → List CompressedPoint3D → Parsed → Type 0
Agrees true s out_points p =
    (length p.out_points ≡ p.out_header.point_count)
    × (header_size + p.out_header.point_count * point_size ≤ s.size)
Agrees false s out_points p = p.out_points ≡ out_points

-- Parse returns on every valid slice, with as many points as the header counts where it succeeds,
-- and with the points untouched where it fails.
pub parse_total :
    (s : Slice) (out_header : VoxelHeader) (out_points : List CompressedPoint3D)
    → IsValid s
    → (p : Parsed) × (parse s out_header out_points ≡ done p) × Agrees p.ok s out_points p
unfolding parse
parse_total s out_header out_points v = elim (Bool-cases (ltb s.size header_size)) [
  | inl short ↦
      (record { ok = false; out_header = out_header; out_points = out_points }, rw short refl, refl)
  | inr long ↦
      let (h, rest, e, moved) = read_header-Moves s.mem (ground (arith, v)) in
      elim (Bool-cases (ltb s.size (header_size + h.point_count * point_size))) [
        | inl torn ↦ (
          record { ok = false; out_header = h; out_points = out_points },
          rw (long, e, torn) refl,
          refl,
        )
        | inr whole ↦
            let (ps, f, len) = read_points_total h.point_count rest (ground (arith, v)) in
            let p : Parsed = record { ok = true; out_header = h; out_points = ps } in
            let inside : header_size + h.point_count * point_size ≤ s.size = ground arith in
            let agrees : Agrees true s out_points p = (len, inside) in
            (p, rw (long, e, whole, f) refl, agrees)
      ]
]
