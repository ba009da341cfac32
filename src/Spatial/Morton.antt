-- ===== src/Spatial/Morton.antt =====
-- Morton3D and GenerateRanges of include/spatial_key.h. `to_grid` stands for the conversion of a
-- coordinate, (x + 100000.0) / resolution rounded and cast to uint64_t, and `of_grid` for the one
-- back: arithmetic on doubles is an argument here.
use Prim.Native.Nat.{bit_and, bit_or}
use cpp_kvstore.Common.{
  ℕ, zero, suc, ◌+◌, ◌-◌, ◌*◌, ◌/◌, ◌%◌, ◌^◌, Bool, true, false, ◌&&◌, ◌||◌, List, [], ◌∷◌,
}
use cpp_kvstore.Common.{if◌then◌else◌, ltb, ◌==◌, Run, done, stuck, ◌>>=◌}
use cpp_kvstore.Spatial.Ranges.{MortonRange, merge_ranges}

-- a << n of uint64_t
abbrev shift_left : ℕ → ℕ → ℕ
shift_left a n = (a * 2 ^ n) % 2 ^ 64

-- (a | (a << n)) & mask
unfoldable pub spread : ℕ → ℕ → ℕ → ℕ
spread n mask a = bit_and (bit_or a (shift_left a n)) mask

unfoldable pub split_by_2 : ℕ → ℕ
split_by_2 a = spread 2 0x1249249249249249 (
    spread 4 0x10c30c30c30c30c3 (
      spread 8 0x100f00f00f00f00f
        (spread 16 0x1f0000ff0000ff (spread 32 0x1f00000000ffff (bit_and a 0x1fffff)))))

-- The code of a grid point.
unfoldable pub encode_grid : ℕ → ℕ → ℕ → ℕ
encode_grid ix iy iz =
    bit_or (bit_or (shift_left (split_by_2 ix) 2) (shift_left (split_by_2 iy) 1)) (split_by_2 iz)

-- Encode
unfoldable pub encode : {D : Type 0} → (D → ℕ) → D → D → D → ℕ
encode to_grid x y z = encode_grid (to_grid x) (to_grid y) (to_grid z)

-- The loop of Decode over the last `left` of its 21 rounds, for the bits at 3 * i + from.
unfoldable pub gather : ℕ → ℕ → ℕ → ℕ → ℕ
gather code from zero acc = acc
gather code from (suc left) acc =
    let i = 21 - suc left in
    gather code from left (bit_or acc ((bit_and (code / 2 ^ (3 * i + from)) 1 * 2 ^ i) % 2 ^ 32))

unfoldable pub decode_grid : ℕ → ℕ × ℕ × ℕ
decode_grid code = (gather code 0 21 0, gather code 1 21 0, gather code 2 21 0)

-- Decode
unfoldable pub decode : {D : Type 0} → (ℕ → D) → ℕ → D × D × D
decode of_grid code = let (ix, iy, iz) = decode_grid code in (of_grid ix, of_grid iy, of_grid iz)

pub record BoxNode : Type 0 where
  pub x1 : ℕ
  pub y1 : ℕ
  pub z1 : ℕ
  pub x2 : ℕ
  pub y2 : ℕ
  pub z2 : ℕ

abbrev box : ℕ → ℕ → ℕ → ℕ → ℕ → ℕ → BoxNode
box x1 y1 z1 x2 y2 z2 = record { x1 = x1; y1 = y1; z1 = z1; x2 = x2; y2 = y2; z2 = z2 }

abbrev push_if : Bool → BoxNode → List BoxNode → List BoxNode
push_if b node stack = if b then node ∷ stack else stack

-- The eight parts, pushed one after another.
unfoldable pub push_parts : BoxNode → List BoxNode → List BoxNode
push_parts n stack =
    let mx = n.x1 + (n.x2 - n.x1) / 2 in
    let my = n.y1 + (n.y2 - n.y1) / 2 in
    let mz = n.z1 + (n.z2 - n.z1) / 2 in
    let bx = ltb mx n.x2 in
    let by = ltb my n.y2 in
    let bz = ltb mz n.z2 in
    push_if (bx && by && bz) (box (mx + 1) (my + 1) (mz + 1) n.x2 n.y2 n.z2) (
      push_if (by && bz) (box n.x1 (my + 1) (mz + 1) mx n.y2 n.z2) (
        push_if (bx && bz) (box (mx + 1) n.y1 (mz + 1) n.x2 my n.z2) (
          push_if bz (box n.x1 n.y1 (mz + 1) mx my n.z2) (
            push_if (bx && by) (box (mx + 1) (my + 1) n.z1 n.x2 n.y2 mz) (
              push_if by (box n.x1 (my + 1) n.z1 mx n.y2 mz) (
                push_if bx (box (mx + 1) n.y1 n.z1 n.x2 my mz)
                  (box n.x1 n.y1 n.z1 mx my mz ∷ stack)))))))

abbrev is_empty_box : BoxNode → Bool
is_empty_box n = ltb n.x2 n.x1 || ltb n.y2 n.y1 || ltb n.z2 n.z1

-- The product of the extents is taken modulo 2 ^ 64.
abbrev is_small_box : BoxNode → Bool
is_small_box n =
    let dx = n.x2 - n.x1 in
    let dy = n.y2 - n.y1 in
    let dz = n.z2 - n.z1 in ltb ((dx * dy * dz) % 2 ^ 64) 64 || (dx == 0 && dy == 0 && dz == 0)

unfoldable pub box_range : BoxNode → MortonRange
box_range n = record {
  start_code = encode_grid n.x1 n.y1 n.z1;
  end_code = encode_grid n.x2 n.y2 n.z2;
}

-- The loop over the stack; the ranges are in the order in which they are pushed.
unfoldable pub generate_loop : ℕ → List BoxNode → Run (List MortonRange)
generate_loop fuel [] = done []
generate_loop zero (n ∷ stack) = stuck
generate_loop (suc fuel) (n ∷ stack) = elim (is_empty_box n) [
  | true ↦ generate_loop fuel stack
  | false ↦ elim (is_small_box n) [
    | true ↦ generate_loop fuel stack >>= λ ranges. done (box_range n ∷ ranges)
    | false ↦ generate_loop fuel (push_parts n stack)
  ]
]

-- std::swap where the bounds are in the wrong order.
abbrev swap_low : ℕ → ℕ → ℕ
swap_low a b = if ltb b a then b else a

abbrev swap_high : ℕ → ℕ → ℕ
swap_high a b = if ltb b a then a else b

-- A box that is parted gives two at least, none of them empty: the points bound the rounds.
unfoldable pub generate_grid : ℕ → ℕ → ℕ → ℕ → ℕ → ℕ → Run (List MortonRange)
generate_grid ax ay az bx by bz =
    let n =
      box (swap_low ax bx) (swap_low ay by) (swap_low az bz) (swap_high ax bx) (swap_high ay by)
        (swap_high az bz) in
    let points = (n.x2 - n.x1 + 1) * (n.y2 - n.y1 + 1) * (n.z2 - n.z1 + 1) in
    generate_loop (2 * points) (n ∷ []) >>= λ ranges. done (merge_ranges ranges)

-- GenerateRanges
unfoldable pub generate_ranges :
    {D : Type 0} → (D → ℕ) → D → D → D → D → D → D → Run (List MortonRange)
generate_ranges to_grid x_min y_min z_min x_max y_max z_max =
    generate_grid (to_grid x_min) (to_grid y_min) (to_grid z_min) (to_grid x_max) (to_grid y_max)
      (to_grid z_max)
