-- ===== src/Serial/Handler.antt =====
-- PayloadProtocol/SerialHandler.hpp: the handling of messages and of the devices' answers. A request
-- keeps a descriptor of the pool from `process` to the answer; what is written to the interface is kept
-- as a list, oldest first. `none` is a failed assertion or an access outside of an array.
pub mod Requests
pub mod Reach
pub mod Answers
mod Tests
use i2c.Prelude.{
  ℕ, ◌+◌, ◌*◌, Bool, true, false, Option, none, some, List, [], ◌∷◌, ◌++◌, length, get_elem?, set,
  take, min, ltb, if◌then◌else◌, ◌>>=◌, u8, u16,
}
use i2c.Core.{
  FieldType, field_type_number, size_of_field_type, field_max_size, file_max_chunk_length, to_bytes,
  FieldInfo, FileInfo, Result, is_success, is_component_not_found,
}
use i2c.Device.{
  Event, on_field_info_received, on_field_info_request_error, on_field_received, on_field_updated,
  on_field_request_error, on_file_info_received, on_file_info_request_error, on_file_read_end,
  on_file_write_end,
}
use i2c.Pool.{RequestPool, alloc, free}
use i2c.Serial.Packet.{Query, query, command, max_field_length, max_name_length}
use i2c.Serial.Reply.{convert_command_result, header, make_default_header, send_message}

-- RefCounter.hpp and DeviceRequestDescriptor.hpp: `destination`, `refs` and `number`
pub record Descriptor : Type 0 where
  pub destination : ℕ
  pub refs : ℕ
  pub number : ℕ

unfoldable pub descriptor : ℕ → ℕ → Descriptor
descriptor number destination = record { destination = destination; refs = 0; number = number }

-- `kMaxPendingRequests`
abbrev pub max_pending_requests : ℕ
max_pending_requests = 8

-- `pool`, and what was written to `interface`
pub record Handler : Type 0 where
  pub pool : RequestPool Descriptor
  pub written : List (List ℕ)

-- A call of `handler`, with the token and the address.
pub record Call : Type 0 where
  pub token : ℕ
  pub address : ℕ
  pub asked : Query

-- The end of `process`: the call is made, or the descriptor goes back.
unfoldable pub finish : ℕ → ℕ → Option Query → Handler → Option (Handler × Option Call)
finish token address (some asked) h =
    some (h, some (record { token = token; address = address; asked = asked }))
finish token address none h = do
  pool ← free max_pending_requests (λ d. d.refs) token h.pool
  some (record h { pool = pool }, none)

-- `process` after the allocation.
unfoldable pub process_with : Option ℕ → List ℕ → ℕ → ℕ → Handler → Option (Handler × Option Call)
process_with none buffer n address h = some (h, none)
process_with (some token) buffer n address h = do
  keyword ← get_elem? buffer 2
  asked ← query (command keyword) buffer n
  finish token address asked h

unfoldable pub process : List ℕ → ℕ → Handler → Option (Handler × Option Call)
process buffer n h = do
  number ← get_elem? buffer 0
  address ← get_elem? buffer 1
  (token, pool) ← alloc max_pending_requests (descriptor number address) h.pool
  process_with token buffer n address (record h { pool = pool })

-- `sendResult` or nothing, as the error callbacks do.
abbrev pub error_response : Result → Descriptor → Option (List ℕ)
error_response error d =
    if is_component_not_found error
    then none
    else some (header d.number (u8 d.destination) (convert_command_result error))

-- The response that a callback builds; the inner `none` is no response, the outer `none` is an access
-- outside of the response or of the data.
unfoldable pub response : Event → Descriptor → Option (Option (List ℕ))
response (on_field_info_received i value) d =
    if ltb max_field_length (length i.name)
    then none
    else some (
        some (
          make_default_header d.destination d.number
          ++ (field_type_number i.field_type ∷ u8 (length i.name) ∷ i.name)))
response (on_field_info_request_error field error) d = some (error_response error d)
response (on_field_received field value t dimension) d =
    let n = size_of_field_type t * dimension in
    if ltb field_max_size n
    then none
    else if ltb (length value) n
    then none
    else some
        (some (make_default_header d.destination d.number ++ (field_type_number t ∷ take n value)))
response (on_field_updated field) d = some (some (make_default_header d.destination d.number))
response (on_field_request_error field error) d = some (error_response error d)
response (on_file_info_received i) d = some (
    some (
      make_default_header d.destination d.number
      ++ (u8 i.flags ∷ to_bytes 4 i.size ++ to_bytes 4 i.checksum)))
response (on_file_info_request_error file error) d = some (error_response error d)
response (on_file_read_end file offset bytes result) d =
    if is_success result
    then if ltb file_max_chunk_length (length bytes)
      then none
      else some (some (make_default_header d.destination d.number ++ bytes))
    else some (error_response result d)
response (on_file_write_end file offset result) d = some (error_response result d)

-- What `onDeviceInfoCallback` asks a device for.
pub record DeviceInfo : Type 0 where
  pub hw_major : ℕ
  pub hw_minor : ℕ
  pub sw_revision : ℕ
  pub field_count : ℕ
  pub hash : List ℕ
  pub name : List ℕ

unfoldable pub info_response : DeviceInfo → Descriptor → List ℕ
info_response i d =
    let n = min (length i.name) max_name_length in
    make_default_header d.destination d.number
    ++ (u8 i.hw_major ∷ u8 i.hw_minor ∷ to_bytes 2 (u16 i.sw_revision)
        ++ (u8 i.field_count ∷ take 4 i.hash ++ (u8 n ∷ take n i.name)))

-- `stack` is the memory of the buffer in `sendMessage`.
module _ (crc : ℕ → List ℕ → ℕ) (stack : List ℕ) where
  -- What `sendMessage` adds to what is written: nothing if `create` refuses the response.
  unfoldable pub append_sent : List (List ℕ) → List ℕ → List (List ℕ)
  append_sent written [] = written
  append_sent written (b ∷ bytes) = written ++ (b ∷ bytes) ∷ []

  unfoldable pub write_response : Option (List ℕ) → Handler → Option Handler
  write_response none h = some h
  write_response (some reply) h = do
    sent ← send_message crc stack reply
    some (record h { written = append_sent h.written sent })

  -- `sendMessage` and `pool.free` at the end of each callback.
  unfoldable pub answer : ℕ → Option (List ℕ) → Handler → Option Handler
  answer token reply h = do
    h' ← write_response reply h
    pool ← free max_pending_requests (λ d. d.refs) token h'.pool
    some (record h' { pool = pool })

  -- A callback of the observer.
  unfoldable pub on_event : ℕ → Event → Handler → Option Handler
  on_event token event h = do
    request ← get_elem? h.pool.pool token
    reply ← response event request
    answer token reply h

  -- The callback that `process` passes to `deviceRequestInfo`; the hub has set the token's fields.
  unfoldable pub on_device_info : ℕ → ℕ → ℕ → DeviceInfo → Handler → Option Handler
  on_device_info token destination refs i h = do
    request ← get_elem? h.pool.pool token
    answer token
        (some (info_response i (record request { destination = destination; refs = refs })))
        (record h {
          pool = record h.pool {
            pool =
                set h.pool.pool token (record request { destination = destination; refs = refs });
          };
        })
