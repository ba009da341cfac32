-- ===== src/Wal/Crc/Bounds.antt =====
-- The CRC stays a uint32_t.
use Prim.Native.Nat.{bit_and, bit_xor}
use cpp_kvstore.Common.{ℕ, zero, suc, ◌-◌, ◌%◌, ◌^◌, ◌<◌, arith, [], ◌∷◌}
use cpp_kvstore.Common.Bits.{bit_xor-lt, bit_and-le_left, bit_and-le_right}
use cpp_kvstore.Common.Bytes.{Bytes}
use cpp_kvstore.Wal.Crc.{crc_round, crc_rounds, crc32_table, compute_crc32}

crc_round-lt : (crc : ℕ) → crc < 2 ^ 32 → crc_round crc < 2 ^ 32
unfolding crc_round
crc_round-lt crc h =
    bit_xor-lt 32 _ _ (omega arith)
      (omega (arith, bit_and-le_left 0xEDB88320 ((2 ^ 32 - bit_and crc 1) % 2 ^ 32)))

crc_rounds-lt : (j crc : ℕ) → crc < 2 ^ 32 → crc_rounds j crc < 2 ^ 32
unfolding crc_rounds
crc_rounds-lt zero crc h = h
crc_rounds-lt (suc j) crc h = crc_rounds-lt j (crc_round crc) (crc_round-lt crc h)

crc32_table-lt : (a : ℕ) → crc32_table (bit_and a 0xFF) < 2 ^ 32
unfolding crc32_table
crc32_table-lt a = crc_rounds-lt 8 _ (omega (arith, bit_and-le_right a 0xFF))

pub compute_crc32-lt : (bytes : Bytes) (crc : ℕ) → crc < 2 ^ 32 → compute_crc32 bytes crc < 2 ^ 32
unfolding compute_crc32
compute_crc32-lt [] crc h = h
compute_crc32-lt (b ∷ bytes) crc h =
    compute_crc32-lt bytes _ (bit_xor-lt 32 _ _ (omega arith) (crc32_table-lt (bit_xor crc b)))
