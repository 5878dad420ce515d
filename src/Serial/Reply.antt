-- ===== src/Serial/Reply.antt =====
-- PayloadProtocol/SerialHandler.hpp: short responses. A response is framed in a buffer on the stack
-- and written to the interface; what is written is the result, `none` is a write outside of the buffer.
pub mod Sent
use i2c.Prelude.{ℕ, Option, some, List, [], ◌∷◌, take, nonzero, if◌then◌else◌, ◌>>=◌, u8}
use i2c.Core.{Result}
use i2c.Serial.Parser.{create}

-- `convertCommandResult`, with the codes of `PayloadProtocol::Result`
unfoldable pub convert_command_result : Result → ℕ
convert_command_result Result.success = 0x00
convert_command_result Result.field_not_found = 0x06
convert_command_result Result.field_type_mismatch = 0x07
convert_command_result Result.field_range_error = 0x07
convert_command_result Result.field_error = 0x03
convert_command_result Result.field_timeout = 0x03
convert_command_result Result.field_read_only = 0x05
convert_command_result Result.file_not_found = 0x09
convert_command_result Result.file_error = 0x09
convert_command_result Result.field_unavailable = 0x09
convert_command_result Result.command_unsupported = 0x02
convert_command_result Result.command_queued = 0x08
convert_command_result _ = 0x04

-- `Header`: `number`, `address` and `keyword`, packed.
abbrev pub header : ℕ → ℕ → ℕ → List ℕ
header number address keyword = number ∷ address ∷ keyword ∷ []

-- `makeDefaultHeader`
unfoldable pub make_default_header : ℕ → ℕ → List ℕ
make_default_header device number = header number (u8 device) 0x00

module _ (crc : ℕ → List ℕ → ℕ) where
  -- `memory` is the buffer of `kBufferLength` bytes before it is written.
  unfoldable pub send_message : List ℕ → List ℕ → Option (List ℕ)
  send_message memory response =
      create crc memory (some response) >>= λ r. some (if nonzero r.0 then take r.0 r.1 else [])

  unfoldable pub send_result : List ℕ → ℕ → ℕ → Result → Option (List ℕ)
  send_result memory number device error =
      send_message memory (header number (u8 device) (convert_command_result error))
