-- ===== src/Crc/Crc8.antt =====
-- DroneDevice/Include/DroneDevice/Crc8.hpp: a CRC-8, bit by bit, low bit first.
use i2c.Prelude.{
  ℕ, zero, suc, ◌/◌, List, [], ◌∷◌, bit_and, bit_or, bit_xor, u8, nonzero, if◌then◌else◌,
}

-- The checksum after one bit of the value.
unfoldable pub round : ℕ → ℕ → ℕ
round checksum value =
    if nonzero (bit_and (bit_xor checksum value) 0x01)
    then u8 (bit_or (bit_xor checksum 0x18 / 2) 0x80)
    else u8 (checksum / 2)

-- The loop over the bits, by the bits left.
unfoldable pub rounds : ℕ → ℕ → ℕ → ℕ
rounds zero checksum value = checksum
rounds (suc bits) checksum value = rounds bits (round checksum value) (u8 (value / 2))

-- The loop over the buffer.
unfoldable pub update : ℕ → List ℕ → ℕ
update checksum [] = checksum
update checksum (value ∷ buffer) = update (rounds 8 checksum value) buffer
