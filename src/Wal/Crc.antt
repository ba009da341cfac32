-- ===== src/Wal/Crc.antt =====
-- The CRC32 of src/wal_logger.cpp. A uint32_t is a number below 2 ^ 32.
pub mod Bounds
use Prim.Native.Nat.{bit_and, bit_xor}
use cpp_kvstore.Common.{ℕ, zero, suc, ◌+◌, ◌-◌, ◌/◌, ◌%◌, ◌^◌, ◌≡◌, refl, List, [], ◌∷◌, ◌++◌, ap}
use cpp_kvstore.Common.Bytes.{Bytes}

-- One round of the inner loop of `init_crc32`; `-(crc & 1)` wraps to 0 or to 2 ^ 32 - 1.
unfoldable pub crc_round : ℕ → ℕ
crc_round crc = bit_xor (crc / 2) (bit_and 0xEDB88320 ((2 ^ 32 - bit_and crc 1) % 2 ^ 32))

unfoldable pub crc_rounds : ℕ → ℕ → ℕ
crc_rounds zero crc = crc
crc_rounds (suc j) crc = crc_rounds j (crc_round crc)

-- `crc32_table[i]`, as `init_crc32` leaves it.
unfoldable pub crc32_table : ℕ → ℕ
unfolding crc_rounds crc_round
crc32_table i = crc_rounds 8 i

unfoldable pub compute_crc32 : Bytes → ℕ → ℕ
compute_crc32 [] crc = crc
compute_crc32 (b ∷ rest) crc =
    compute_crc32 rest (bit_xor (crc / 2 ^ 8) (crc32_table (bit_and (bit_xor crc b) 0xFF)))

-- Feeding a buffer in parts is feeding it whole, as `CalculateChecksum` relies on.
pub compute_crc32-append :
    (a b : Bytes) (crc : ℕ) → compute_crc32 (a ++ b) crc ≡ compute_crc32 b (compute_crc32 a crc)
unfolding compute_crc32
compute_crc32-append [] b crc = refl
compute_crc32-append (x ∷ a) b crc = compute_crc32-append a b _

-- The standard check value: CRC32 of "123456789".
crc_check :
    bit_xor
      (compute_crc32 (0x31 ∷ 0x32 ∷ 0x33 ∷ 0x34 ∷ 0x35 ∷ 0x36 ∷ 0x37 ∷ 0x38 ∷ 0x39 ∷ []) 0xFFFFFFFF)
      0xFFFFFFFF
    ≡ 0xCBF43926
unfolding compute_crc32 crc32_table
crc_check = refl
