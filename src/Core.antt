-- ===== src/Core.antt =====
-- DroneDevice/Include/DroneDevice/CoreTypes.hpp, FieldInfo.hpp and FileInfo.hpp: the types that the
-- devices and the protocols share. A little-endian number in memory is the list of its bytes.
pub mod Sizes
mod Tests
use i2c.Prelude.{
  ℕ, zero, suc, ◌+◌, ◌*◌, ◌/◌, ◌%◌, Bool, true, false, ◌&&◌, List, [], ◌∷◌, get_or, ltb, leb,
  if◌then◌else◌,
}

-- `kFieldReadable`, `kFieldWritable`, `kFieldImportant`
abbrev pub field_readable : ℕ
field_readable = 0x01

abbrev pub field_writable : ℕ
field_writable = 0x02

abbrev pub field_important : ℕ
field_important = 0x04

-- `kFieldMaxSize`, `kFieldReservedId`
abbrev pub field_max_size : ℕ
field_max_size = 8

abbrev pub field_reserved_id : ℕ
field_reserved_id = 255

-- `kFileMaxChunkLength`, `kFileReqChecksum`
abbrev pub file_max_chunk_length : ℕ
file_max_chunk_length = 240

abbrev pub file_req_checksum : ℕ
file_req_checksum = 0x02

-- `FieldType`; `undefined` stands for every number from `UNDEFINED` on.
pub data FieldType : Type 0 where
  bool char int8 int16 int32 int64 : FieldType
  uint8 uint16 uint32 uint64 float double undefined : FieldType

-- The number of the enumerator.
abbrev pub field_type_number : FieldType → ℕ
field_type_number FieldType.bool = 0
field_type_number FieldType.char = 1
field_type_number FieldType.int8 = 2
field_type_number FieldType.int16 = 3
field_type_number FieldType.int32 = 4
field_type_number FieldType.int64 = 5
field_type_number FieldType.uint8 = 6
field_type_number FieldType.uint16 = 7
field_type_number FieldType.uint32 = 8
field_type_number FieldType.uint64 = 9
field_type_number FieldType.float = 10
field_type_number FieldType.double = 11
field_type_number FieldType.undefined = 12

-- The array of `sizeOfFieldType`, and its lookup.
abbrev pub sizes : List ℕ
sizes = 1 ∷ 1 ∷ 1 ∷ 2 ∷ 4 ∷ 8 ∷ 1 ∷ 2 ∷ 4 ∷ 8 ∷ 4 ∷ 8 ∷ []

unfoldable pub size_of_field_type : FieldType → ℕ
size_of_field_type t =
    if ltb (field_type_number t) (field_type_number FieldType.undefined)
    then get_or sizes (field_type_number t) 0
    else 0

-- `isFloatType`, `isIntegerType`, `isSignedType`, `isUnsignedType`: tests of the number.
unfoldable pub is_integer_type : FieldType → Bool
is_integer_type t =
    leb (field_type_number FieldType.int8) (field_type_number t)
    && leb (field_type_number t) (field_type_number FieldType.uint64)

unfoldable pub is_signed_type : FieldType → Bool
is_signed_type t =
    leb (field_type_number FieldType.int8) (field_type_number t)
    && leb (field_type_number t) (field_type_number FieldType.int64)

unfoldable pub is_unsigned_type : FieldType → Bool
is_unsigned_type t =
    leb (field_type_number FieldType.uint8) (field_type_number t)
    && leb (field_type_number t) (field_type_number FieldType.uint64)

-- `Device::Result`; `other` is a number that no enumerator has.
pub data Result : Type 0 where
  success component_not_found field_not_found field_type_mismatch field_range_error : Result
  field_error field_read_only file_not_found file_error field_unavailable field_timeout : Result
  file_access_error file_position_error file_timeout queue_error command_unsupported : Result
  command_queued command_error file_incorrect file_outdated signature_error : Result
  other : ℕ → Result

-- `result == Result::SUCCESS` and `result == Result::COMPONENT_NOT_FOUND`
abbrev pub is_success : Result → Bool
is_success Result.success = true
is_success _ = false

abbrev pub is_component_not_found : Result → Bool
is_component_not_found Result.component_not_found = true
is_component_not_found _ = false

-- `FieldInfo`; a string is the list of its characters without the terminator, and what `min` and
-- `max` point to is the list of its bytes.
pub record FieldInfo : Type 0 where
  pub index : ℕ
  pub dimension : ℕ
  pub flags : ℕ
  pub scale : ℕ
  pub field_type : FieldType
  pub name : List ℕ
  pub unit : List ℕ
  pub min : List ℕ
  pub max : List ℕ

-- `FileInfo`
pub record FileInfo : Type 0 where
  pub index : ℕ
  pub flags : ℕ
  pub size : ℕ
  pub checksum : ℕ

-- The bytes of a number of `n` bytes in memory, and the number of a list of bytes.
abbrev pub to_bytes : ℕ → ℕ → List ℕ
to_bytes zero v = []
to_bytes (suc n) v = v % 256 ∷ to_bytes n (v / 256)

abbrev pub from_bytes : List ℕ → ℕ
from_bytes [] = 0
from_bytes (b ∷ bytes) = b + 256 * from_bytes bytes
