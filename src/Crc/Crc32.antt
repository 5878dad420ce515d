-- ===== src/Crc/Crc32.antt =====
-- DroneDevice/Include/DroneDevice/Crc32.hpp: a CRC-32, bit by bit, low bit first.
use i2c.Prelude.{
  ℕ, zero, suc, ◌/◌, List, [], ◌∷◌, bit_and, bit_xor, u8, u32, not32, nonzero, if◌then◌else◌,
}

-- The checksum after one bit of the value.
unfoldable pub round : ℕ → ℕ → ℕ
round checksum value =
    if nonzero (bit_and (bit_xor checksum value) 0x01)
    then u32 (bit_xor (checksum / 2) 0xEDB88320)
    else u32 (checksum / 2)

-- The loop over the bits, by the bits left.
unfoldable pub rounds : ℕ → ℕ → ℕ → ℕ
rounds zero checksum value = checksum
rounds (suc bits) checksum value = rounds bits (round checksum value) (u8 (value / 2))

-- The loop over the buffer, between the two complements.
unfoldable pub update_bytes : ℕ → List ℕ → ℕ
update_bytes checksum [] = checksum
update_bytes checksum (value ∷ buffer) = update_bytes (rounds 8 checksum value) buffer

unfoldable pub update : ℕ → List ℕ → ℕ
unfolding update_bytes
update checksum buffer = not32 (update_bytes (not32 checksum) buffer)
