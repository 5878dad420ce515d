-- ===== src/Serial/Packet.antt =====
-- PayloadProtocol/SerialPacket.hpp: the commands, the lengths of the messages, and how a request is
-- read from the parser's buffer.
use i2c.Prelude.{
  ℕ, ◌+◌, ◌-◌, ◌&&◌, ◌||◌, Option, none, some, List, length, get_elem?, take, drop, ltb, leb, ◌==◌,
  if◌then◌else◌, ◌>>=◌,
}
use i2c.Core.{field_max_size, file_max_chunk_length, from_bytes}
use i2c.Hub.{
  Request, field_request_info, field_read, field_write, file_request_info, file_read, file_write,
}

-- `kMaxFieldLength` and `kMaxNameLength`
abbrev pub max_field_length : ℕ
max_field_length = 24

abbrev pub max_name_length : ℕ
max_name_length = 80

-- `Command`
pub data Command : Type 0 where
  get_device_info set_value get_value get_field_info : Command
  get_file_info write_file_chunk read_file_chunk unknown : Command

-- `static_cast<Command>(keyword)`, as far as `process` tells the commands apart.
unfoldable pub command : ℕ → Command
command keyword =
    if keyword == 0x01
    then Command.get_device_info
    else if keyword == 0x03
    then Command.set_value
    else if keyword == 0x04
    then Command.get_value
    else if keyword == 0x05
    then Command.get_field_info
    else if keyword == 0x07
    then Command.get_file_info
    else if keyword == 0x08
    then Command.write_file_chunk
    else if keyword == 0x09
    then Command.read_file_chunk
    else Command.unknown

-- `sizeof(Header)`, and `sizeof` of the requests, without their data where they have some
abbrev pub header_size : ℕ
header_size = 3

abbrev pub field_write_min : ℕ
field_write_min = header_size + 2

abbrev pub field_write_max : ℕ
field_write_max = header_size + 2 + field_max_size

abbrev pub field_read_size : ℕ
field_read_size = header_size + 1

abbrev pub file_info_size : ℕ
file_info_size = header_size + 2

abbrev pub file_write_base : ℕ
file_write_base = header_size + 1 + 4

abbrev pub file_read_size : ℕ
file_read_size = header_size + 1 + 4 + 1

-- A `uint32_t` at an offset of the buffer; `none` is a read behind its end.
unfoldable pub word_at : List ℕ → ℕ → Option ℕ
word_at buffer i =
    if leb (i + 4) (length buffer) then some (from_bytes (take 4 (drop i buffer))) else none

-- What a message asks for.
pub data Query : Type 0 where
  info : Query
  device : Request → Query

-- The cases of `process`, on the parser's buffer and the message's length: the call that is made, if
-- there is one. The outer `none` is an access outside of an array, also by the copy of a chunk. A field's value is passed as a
-- pointer, so what the device reads there may lie behind the message.
unfoldable pub query : Command → List ℕ → ℕ → Option (Option Query)
query Command.get_device_info buffer n = some (some info)
query Command.set_value buffer n =
    if ltb field_write_min n && leb n field_write_max
    then (do
      field ← get_elem? buffer 3
      some (some (device (field_write field (drop field_write_min buffer)))))
    else some none
query Command.get_value buffer n =
    if n == field_read_size
    then (do field ← get_elem? buffer 3; some (some (device (field_read field))))
    else some none
query Command.get_field_info buffer n =
    if n == field_read_size
    then (do field ← get_elem? buffer 3; some (some (device (field_request_info field))))
    else some none
query Command.get_file_info buffer n =
    if n == file_info_size
    then (do
      file ← get_elem? buffer 3
      flags ← get_elem? buffer 4
      some (some (device (file_request_info file flags))))
    else some none
query Command.write_file_chunk buffer n =
    if leb file_write_base n
    then if ltb file_max_chunk_length (n - file_write_base) || ltb (length buffer) n
      then none
      else (do
        file ← get_elem? buffer 3
        offset ← word_at buffer 4
        some (
            some (
              device (
                file_write file offset
                  (take (n - file_write_base) (drop file_write_base buffer))))))
    else some none
query Command.read_file_chunk buffer n =
    if n == file_read_size
    then (do
      file ← get_elem? buffer 3
      offset ← word_at buffer 4
      m ← get_elem? buffer 8
      some (some (device (file_read file offset m))))
    else some none
query Command.unknown buffer n = some none
