-- ===== src/Crc/Crc16.antt =====
-- DroneDevice/Include/DroneDevice/Crc16.hpp: a CRC-16, bit by bit, high bit first.
use i2c.Prelude.{
  ℕ, zero, suc, ◌*◌, ◌^◌, List, [], ◌∷◌, bit_and, bit_xor, u16, nonzero, if◌then◌else◌,
}

-- The checksum after one bit.
unfoldable pub round : ℕ → ℕ
round checksum =
    u16 (if nonzero (bit_and checksum 0x8000) then bit_xor (checksum * 2) 0x1021 else checksum * 2)

-- The loop over the bits, by the bits left.
unfoldable pub rounds : ℕ → ℕ → ℕ
rounds zero checksum = checksum
rounds (suc bits) checksum = rounds bits (round checksum)

-- The loop over the buffer.
unfoldable pub update : ℕ → List ℕ → ℕ
update checksum [] = checksum
update checksum (byte ∷ buffer) = update (rounds 8 (u16 (bit_xor checksum (byte * 2 ^ 8)))) buffer
