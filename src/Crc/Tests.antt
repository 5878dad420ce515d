-- ===== src/Crc/Tests.antt =====
-- The check values of the checksums, and runs of the theorems on short messages.
use i2c.Prelude.{ℕ, ◌≡◌, refl, List, [], ◌∷◌, arith}
use i2c.Crc.Crc8
use i2c.Crc.Crc16
use i2c.Crc.Crc32
use i2c.Crc.FastCrc8
use i2c.Crc.FastCrc32
use i2c.Crc.Equal32.{FastCrc32-eq-Crc32}
use i2c.Crc.Detect.{update-append}

-- "123456789"
abbrev digits : List ℕ
digits = 0x31 ∷ 0x32 ∷ 0x33 ∷ 0x34 ∷ 0x35 ∷ 0x36 ∷ 0x37 ∷ 0x38 ∷ 0x39 ∷ []

Crc8_check : Crc8.update 0 digits ≡ 0xA1
unfolding Crc8.update Crc8.rounds Crc8.round
Crc8_check = refl

Crc16_check : Crc16.update 0xFFFF digits ≡ 0x29B1
unfolding Crc16.update Crc16.rounds Crc16.round
Crc16_check = refl

Crc32_check : Crc32.update 0 digits ≡ 0xCBF43926
unfolding Crc32.update Crc32.update_bytes Crc32.rounds Crc32.round
Crc32_check = refl

FastCrc32-eq-Crc32_example : FastCrc32.update 0 digits ≡ Crc32.update 0 digits
FastCrc32-eq-Crc32_example = FastCrc32-eq-Crc32 0 digits (omega arith)

update-append_example :
    FastCrc8.update 0 (1 ∷ 2 ∷ 3 ∷ []) ≡ FastCrc8.update (FastCrc8.update 0 (1 ∷ [])) (2 ∷ 3 ∷ [])
update-append_example = update-append 0 (1 ∷ []) (2 ∷ 3 ∷ [])
