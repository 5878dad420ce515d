-- ===== src/Can/Proxy/Client.antt =====
-- PlazCan/CanProxy.hpp: the requests that a client makes of a proxy.
use i2c.Prelude.{
  ℕ, ◌-◌, Option, none, some, List, [], ◌∷◌, ◌++◌, length, get_elem?, ltb, if◌then◌else◌, ◌>>=◌, u8,
}
use i2c.Core.{Result, size_of_field_type, to_bytes, file_max_chunk_length}
use i2c.Device.{
  Event, on_field_info_request_error, on_field_request_error, on_file_info_request_error,
  on_file_read_end, on_file_write_end,
}
use i2c.Device.Field.{load}
use i2c.Can.Transfer.{Service}
use i2c.Can.Proxy.State.{
  Environment, Context, CanProxy, Effect, feature_request_info, feature_read, feature_write, tell,
  enqueue, make_request, transmit,
}

-- `FieldWriteRequest` with the value of a field.
unfoldable pub field_write_payload : ℕ → List ℕ → CanProxy → Option (List ℕ)
field_write_payload field value p = do
  t ← get_elem? p.info.types field
  bytes ← load (size_of_field_type t) value
  some (u8 field ∷ bytes)

-- `FileWriteRequest` with the bytes of the buffer.
unfoldable pub file_write_payload : ℕ → ℕ → List ℕ → Option (List ℕ)
file_write_payload file offset bytes =
    if ltb file_max_chunk_length (length bytes)
    then none
    else some (u8 file ∷ to_bytes 4 offset ++ bytes)

module _ (e : Environment) where
  -- What the request functions do with the master: a request is queued and sent, or its error is told.
  -- The payload is `none` where making it reads or writes outside of an array.
  unfoldable pub submit :
      ℕ
      → Option ℕ
      → ℕ
      → Service
      → Context
      → Option (List ℕ)
      → (Result → Event)
      → CanProxy
      → Option (CanProxy × List Effect)
  submit now observer token service context payload failed p =
      if p.master
      then (enqueue e (make_request e now observer token service context p) p >>= λ r.
          if r.0
          then (payload >>= λ bytes. some (transmit e service bytes r.1))
          else some (r.1, tell observer token (failed Result.queue_error)))
      else some (p, tell observer token (failed Result.command_error))

  unfoldable pub field_request_info :
      ℕ → ℕ → Option ℕ → ℕ → CanProxy → Option (CanProxy × List Effect)
  field_request_info now field observer token p =
      if ltb field p.info.fields
      then submit now observer token Service.get_field_info (Context.field field)
          (some (u8 field ∷ [])) (on_field_info_request_error field) p
      else if p.feature
      then some (p, feature_request_info (u8 (field - p.info.fields)) observer token ∷ [])
      else some (p, tell observer token (on_field_info_request_error field Result.field_not_found))

  unfoldable pub field_read : ℕ → ℕ → Option ℕ → ℕ → CanProxy → Option (CanProxy × List Effect)
  field_read now field observer token p =
      if ltb field p.info.fields
      then submit now observer token Service.field_read (Context.field field) (some (u8 field ∷ []))
          (on_field_request_error field) p
      else if p.feature
      then some (p, feature_read (u8 (field - p.info.fields)) observer token ∷ [])
      else some (p, tell observer token (on_field_request_error field Result.field_not_found))

  unfoldable pub field_write :
      ℕ → ℕ → List ℕ → Option ℕ → ℕ → CanProxy → Option (CanProxy × List Effect)
  field_write now field value observer token p =
      if ltb field p.info.fields
      then submit now observer token Service.field_write (Context.field field)
          (field_write_payload field value p) (on_field_request_error field) p
      else if p.feature
      then some (p, feature_write (u8 (field - p.info.fields)) value observer token ∷ [])
      else some (p, tell observer token (on_field_request_error field Result.field_not_found))

  unfoldable pub file_request_info :
      ℕ → ℕ → ℕ → Option ℕ → ℕ → CanProxy → Option (CanProxy × List Effect)
  file_request_info now file flags observer token p =
      submit now observer token Service.get_file_info (Context.file file 0)
        (some (u8 file ∷ u8 flags ∷ [])) (on_file_info_request_error file) p

  unfoldable pub file_read :
      ℕ → ℕ → ℕ → ℕ → Option ℕ → ℕ → CanProxy → Option (CanProxy × List Effect)
  file_read now file offset size observer token p =
      submit now observer token Service.file_read (Context.file file offset)
        (some (u8 file ∷ to_bytes 4 offset ++ u8 size ∷ []))
        (λ result. on_file_read_end file offset [] result) p

  unfoldable pub file_write :
      ℕ → ℕ → ℕ → List ℕ → Option ℕ → ℕ → CanProxy → Option (CanProxy × List Effect)
  file_write now file offset bytes observer token p =
      submit now observer token Service.file_write (Context.file file offset)
        (file_write_payload file offset bytes) (on_file_write_end file offset) p
