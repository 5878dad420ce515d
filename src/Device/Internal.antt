-- ===== src/Device/Internal.antt =====
-- InternalDevice/InternalDevice.hpp and FieldList.hpp: a device with fields and files of its own. Each
-- request ends in one call of the observer at most; `none` outside is an access outside of an array.
pub mod Fields
pub mod Files
pub mod Index
pub mod Update
pub mod Transfer
use i2c.Prelude.{
  ℕ, zero, suc, ◌+◌, Bool, true, false, ◌&&◌, not, Option, none, some, List, [], ◌∷◌, length,
  get_elem?, set, take, ltb, ◌==◌, bit_and, nonzero, if◌then◌else◌, ◌>>=◌, u8,
}
use i2c.Core.{
  FieldInfo, FileInfo, Result, is_success, field_reserved_id, file_max_chunk_length,
  file_req_checksum,
}
use i2c.Device.{
  Event, on_field_info_received, on_field_info_request_error, on_field_received, on_field_updated,
  on_field_request_error, on_file_info_received, on_file_info_request_error, on_file_read_end,
  on_file_write_end,
}
use i2c.Device.Field.{AbstractField}
use i2c.Hub.{
  Request, field_request_info, field_read, field_write, file_request_info, file_read, file_write,
}

-- InternalDevice/AbstractFile.hpp: the operations of a file that a device calls, over the file's state.
pub record AbstractFile {ℓ} (G : Type ℓ) : Type ℓ where
  pub get_checksum : G → ℕ
  pub get_flags : G → ℕ
  pub get_size : G → ℕ
  pub read_chunk : G → ℕ → List ℕ → ℕ → Option (Bool × List ℕ)
  pub write_chunk : G → ℕ → List ℕ → Option (Bool × G)
  pub restart_write : G → Bool × G
  pub finalize_write : G → ℕ → Bool × G

-- The state of a device: the fields of its `FieldList`, and its files.
pub record Internal {ℓ κ} (F : Type ℓ) (G : Type κ) : Type (ℓ ⊔ κ) where
  pub fields : List F
  pub files : List G

-- `FieldList::get`: the place of the field, `none` for the null pointer.
unfoldable pub get_impl {ℓ} : {F : Type ℓ} → ℕ → List F → ℕ → Option ℕ
get_impl n [] field = none
get_impl n (f ∷ fields) field = if field == n then some n else get_impl (n + 1) fields field

-- `strcmp` on strings without their terminators.
unfoldable pub same_string : List ℕ → List ℕ → Bool
same_string [] [] = true
same_string [] (b ∷ bs) = false
same_string (a ∷ as') [] = false
same_string (a ∷ as') (b ∷ bs) = a == b && same_string as' bs

-- The calls of the observer that a search by name ends in.
pub data IndexEvent : Type 0 where
  on_field_index_received : ℕ → IndexEvent
  on_field_index_request_error : Result → IndexEvent

module _ {ℓ κ} {F : Type ℓ} {G : Type κ} (field_of : AbstractField F)
    (file_of : AbstractFile G) where
  -- The loop of `getFieldIndex`, whose index is a `uint8_t`; `none` if the rounds do not suffice.
  unfoldable pub find_index : ℕ → ℕ → List ℕ → List F → Option ℕ
  find_index zero i name fields = none
  find_index (suc rounds) i name fields =
      let found = get_elem? fields i >>= λ f.
      let later = find_index rounds (u8 (i + 1)) name fields in
      if same_string (field_of.name f) name then some i else later in
      if ltb i (length fields) then found else some field_reserved_id

  -- `fieldRequestIndex`; the outer `none` is a search that the rounds do not suffice for.
  unfoldable pub index_event : ℕ → IndexEvent
  index_event index =
      if index == field_reserved_id
      then on_field_index_request_error Result.field_not_found
      else on_field_index_received index

  unfoldable pub request_field_index : Bool → ℕ → List ℕ → Internal F G → Option (Option IndexEvent)
  request_field_index false rounds name d = some none
  request_field_index true rounds name d =
      find_index rounds 0 name d.fields >>= λ index. some (some (index_event index))

  -- The information that `fieldRequestInfo` collects.
  abbrev pub info_of : ℕ → F → FieldInfo
  info_of field f = record {
    index = field;
    dimension = field_of.dimension f;
    flags = field_of.flags f;
    scale = field_of.scale f;
    field_type = field_of.field_type f;
    name = field_of.name f;
    unit = field_of.unit f;
    min = field_of.min f;
    max = field_of.max f;
  }

  -- The calls that a found field leads to.
  unfoldable pub info_event : ℕ → F → Result × List ℕ → Event
  info_event field f (result, value) =
      if is_success result
      then on_field_info_received (info_of field f) value
      else on_field_info_request_error field result

  unfoldable pub read_event : ℕ → F → Result × List ℕ → Event
  read_event field f (result, value) =
      if is_success result
      then on_field_received field value (field_of.field_type f) (field_of.dimension f)
      else on_field_request_error field result

  unfoldable pub write_event : ℕ → Result → Event
  write_event field result =
      if is_success result then on_field_updated field else on_field_request_error field result

  -- `field_at` is what the pointer of `getField` leads to, if it is not null.
  unfoldable pub field_at : Internal F G → ℕ → Option F
  field_at d field = get_impl 0 d.fields field >>= get_elem? d.fields

  unfoldable pub info_with : ℕ → Option F → Event
  info_with field none = on_field_info_request_error field Result.field_not_found
  info_with field (some f) = info_event field f (field_of.read f)

  unfoldable pub read_with : ℕ → Option F → Event
  read_with field none = on_field_request_error field Result.field_not_found
  read_with field (some f) = read_event field f (field_of.read f)

  unfoldable pub write_with : ℕ → List ℕ → Option F → Internal F G → Option (Internal F G × Result)
  write_with field input none d = some (d, Result.field_not_found)
  write_with field input (some f) d =
      field_of.write f input >>= λ r. some (record d { fields = set d.fields field r.0 }, r.1)

  -- A call of the observer, if it is not null.
  abbrev pub observe : Bool → Event → Option Event
  observe observed event = if observed then some event else none

  unfoldable pub request_field_info : Bool → ℕ → Internal F G → Option Event
  request_field_info observed field d = observe observed (info_with field (field_at d field))

  unfoldable pub read_field : Bool → ℕ → Internal F G → Option Event
  read_field observed field d = observe observed (read_with field (field_at d field))

  unfoldable pub write_field :
      Bool → ℕ → List ℕ → Internal F G → Option (Internal F G × Option Event)
  write_field observed field input d = write_with field input (field_at d field) d >>= λ r.
      some (r.0, observe observed (write_event field r.1))

  -- `getFile` gives the place of the file with this number.
  unfoldable pub file_info_with : ℕ → ℕ → Option G → Event
  file_info_with file flags none = on_file_info_request_error file Result.file_not_found
  file_info_with file flags (some g) = on_file_info_received (record {
    index = file;
    flags = file_of.get_flags g;
    size = file_of.get_size g;
    checksum = if nonzero (bit_and flags file_req_checksum) then file_of.get_checksum g else 0;
  })

  unfoldable pub request_file_info : Bool → ℕ → ℕ → Internal F G → Option Event
  request_file_info observed file flags d =
      observe observed (file_info_with file flags (get_elem? d.files file))

  -- The buffer of `fileRead` holds what the stack held, until a chunk is read to it.
  abbrev chunk_event : ℕ → ℕ → ℕ → Bool × List ℕ → Event
  chunk_event file offset n (true, buffer) =
      on_file_read_end file offset (take n buffer) Result.success
  chunk_event file offset n (false, buffer) =
      on_file_read_end file offset [] Result.file_position_error

  unfoldable pub file_read_with : List ℕ → ℕ → ℕ → ℕ → Option G → Option Event
  file_read_with stack file offset n none =
      some (on_file_read_end file offset [] Result.file_not_found)
  file_read_with stack file offset n (some g) =
      if ltb file_max_chunk_length n
      then some (on_file_read_end file offset [] Result.file_error)
      else (file_of.read_chunk g offset stack n >>= λ r. some (chunk_event file offset n r))

  unfoldable pub read_file : Bool → List ℕ → ℕ → ℕ → ℕ → Internal F G → Option (Option Event)
  read_file observed stack file offset n d =
      file_read_with stack file offset n (get_elem? d.files file) >>= λ event.
      some (observe observed event)

  -- The call of the file that a write comes to: a chunk of length 0 begins or ends an upload.
  unfoldable pub write_call : G → ℕ → List ℕ → Option (Bool × G)
  write_call g offset [] =
      some (if offset == 0 then file_of.restart_write g else file_of.finalize_write g offset)
  write_call g offset (b ∷ chunk) = file_of.write_chunk g offset (b ∷ chunk)

  unfoldable pub file_write_with :
      ℕ → ℕ → List ℕ → Option G → Internal F G → Option (Internal F G × Result)
  file_write_with file offset chunk none d = some (d, Result.file_not_found)
  file_write_with file offset chunk (some g) d = write_call g offset chunk >>= λ r.
      some (
        record d { files = set d.files file r.1 },
        if r.0 then Result.success else Result.file_error,
      )

  unfoldable pub write_file :
      Bool → ℕ → ℕ → List ℕ → Internal F G → Option (Internal F G × Option Event)
  write_file observed file offset chunk d =
      file_write_with file offset chunk (get_elem? d.files file) d >>= λ r.
      some (r.0, observe observed (on_file_write_end file offset r.1))

  -- A request, by its function.
  unfoldable pub serve : List ℕ → Request → Internal F G → Option (Internal F G × Option Event)
  serve stack (field_request_info field) d = some (d, request_field_info true field d)
  serve stack (field_read field) d = some (d, read_field true field d)
  serve stack (field_write field buffer) d = write_field true field buffer d
  serve stack (file_request_info file flags) d = some (d, request_file_info true file flags d)
  serve stack (file_read file offset n) d =
      read_file true stack file offset n d >>= λ event. some (d, event)
  serve stack (file_write file offset chunk) d = write_file true file offset chunk d
