-- ===== src/Can/Proxy/Answer.antt =====
-- PlazCan/CanProxy.hpp and PlazCanPacket.hpp: the device's answers to requests for values and files. The
-- request is none when no descriptor was found, and `none` outside is an access outside of an array.
use i2c.Prelude.{
  ℕ, ◌+◌, ◌-◌, false, ◌||◌, ◌&&◌, not, Option, none, some, List, [], ◌∷◌, length, get_elem?, take,
  ltb, leb, ◌==◌, if◌then◌else◌, ◌>>=◌,
}
use i2c.Core.{
  FieldType, Result, is_success, size_of_field_type, field_max_size, file_max_chunk_length,
  FileInfo,
}
use i2c.Device.{
  on_field_received, on_field_updated, on_field_request_error, on_file_info_received,
  on_file_info_request_error, on_file_read_end, on_file_write_end,
}
use i2c.Can.Transfer.{RxTransfer, result_of, decode_integer_field, decode_blob_field, uninitialized}
use i2c.Can.Proxy.State.{
  Environment, field_id, file_id, file_position, ProxyRequestDescriptor, CanProxy, Effect, notify,
  tell,
}

module _ (e : Environment) where
  -- The member `result` of each response, which is its first byte.
  unfoldable pub response_result : List ℕ → Result
  response_result payload = result_of (decode_integer_field e.scalar payload 1 false 0)

  -- The value of a field from a response.
  unfoldable pub received_value : List ℕ → FieldType → Option (List ℕ)
  received_value payload t =
      decode_blob_field e.scalar payload 1 (size_of_field_type t)
        (uninitialized e.memory field_max_size)

  -- What an observer that is not null gets to know of a value.
  unfoldable pub tell_value : Option ℕ → ℕ → ℕ → List ℕ → CanProxy → Option (List Effect)
  tell_value none token id payload p = some []
  tell_value (some observer) token id payload p =
      if is_success (response_result payload)
      then (do
        t ← get_elem? p.info.types id
        value ← received_value payload t
        some (notify observer token (on_field_received id value t 1) ∷ []))
      else some (notify observer token (on_field_request_error id (response_result payload)) ∷ [])

  unfoldable pub process_field_read_response :
      RxTransfer → Option ProxyRequestDescriptor → CanProxy → Option (List Effect)
  process_field_read_response t none p = some []
  process_field_read_response t (some d) p = field_id d.context >>= λ id.
      if leb p.info.fields id
      then some []
      else if ltb (length t.payload) 1 || ltb (1 + field_max_size) (length t.payload)
      then some (tell d.observer d.token (on_field_request_error id Result.command_error))
      else tell_value d.observer d.token id t.payload p

  unfoldable pub process_field_write_response :
      RxTransfer → Option ProxyRequestDescriptor → CanProxy → Option (List Effect)
  process_field_write_response t none p = some []
  process_field_write_response t (some d) p = field_id d.context >>= λ id.
      if leb p.info.fields id
      then some []
      else if not (length t.payload == 1)
      then some (tell d.observer d.token (on_field_request_error id Result.command_error))
      else some (
          tell d.observer d.token (
            if is_success (response_result t.payload)
            then on_field_updated id
            else on_field_request_error id (response_result t.payload)))

  -- `FileInfo` from a `GetFileInfoResponse`.
  unfoldable pub received_file_info : ℕ → List ℕ → FileInfo
  received_file_info id payload = record {
    index = id;
    flags = decode_integer_field e.scalar payload 1 false 1;
    size = decode_integer_field e.scalar payload 4 false 2;
    checksum = decode_integer_field e.scalar payload 4 false 6;
  }

  unfoldable pub process_get_file_info_response :
      RxTransfer → Option ProxyRequestDescriptor → CanProxy → Option (List Effect)
  process_get_file_info_response t none p = some []
  process_get_file_info_response t (some d) p = file_id d.context >>= λ id.
      if not (length t.payload == 10) && not (length t.payload == 1)
      then some (tell d.observer d.token (on_file_info_request_error id Result.command_error))
      else some (
          tell d.observer d.token (
            if is_success (response_result t.payload)
            then on_file_info_received (received_file_info id t.payload)
            else on_file_info_request_error id (response_result t.payload)))

  -- What an observer that is not null gets to know of a part of a file.
  unfoldable pub tell_chunk : Option ℕ → ℕ → ℕ → ℕ → List ℕ → Option (List Effect)
  tell_chunk none token id position payload = some []
  tell_chunk (some observer) token id position payload =
      if is_success (response_result payload)
      then (decode_blob_field e.scalar payload 1 (length payload - 1)
            (uninitialized e.memory file_max_chunk_length)
          >>= λ chunk. some (
              notify observer token
                (on_file_read_end id position (take (length payload - 1) chunk) Result.success)
              ∷ []))
      else some
          (notify observer token (on_file_read_end id position [] (response_result payload)) ∷ [])

  unfoldable pub process_file_read_response :
      RxTransfer → Option ProxyRequestDescriptor → CanProxy → Option (List Effect)
  process_file_read_response t none p = some []
  process_file_read_response t (some d) p = do
    id ← file_id d.context
    position ← file_position d.context
    if ltb (length t.payload) 1 || ltb (1 + file_max_chunk_length) (length t.payload)
        then some (tell d.observer d.token (on_file_read_end id position [] Result.command_error))
        else tell_chunk d.observer d.token id position t.payload

  unfoldable pub process_file_write_response :
      RxTransfer → Option ProxyRequestDescriptor → CanProxy → Option (List Effect)
  process_file_write_response t none p = some []
  process_file_write_response t (some d) p = do
    id ← file_id d.context
    position ← file_position d.context
    if not (length t.payload == 1)
        then some (tell d.observer d.token (on_file_write_end id position Result.command_error))
        else some
            (tell d.observer d.token (on_file_write_end id position (response_result t.payload)))
