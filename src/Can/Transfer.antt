-- ===== src/Can/Transfer.antt =====
-- PlazCan/UavCanPacket.hpp and CanHelpers.hpp: the types of the transfers, and the values in a received
-- one. libcanard reassembles a transfer; what its `canardDecodeScalar` stores for a bit offset, a number
-- of bits and a sign is a parameter, `none` where it stores nothing.
pub mod Bytes
use i2c.Prelude.{
  ℕ, zero, suc, ◌+◌, ◌-◌, ◌*◌, ◌%◌, Bool, true, false, Option, none, some, List, [], ◌∷◌, length,
  get_or, u32, add_size, ◌>>=◌,
}
use i2c.Core.{FieldType, Result}
use i2c.Memory.{store}
use i2c.Can.Hashes.{TransferType}

-- The members of `CanardRxTransfer` that are used; `payload_len` is the length of the payload.
pub record RxTransfer : Type 0 where
  pub data_type_id : ℕ
  pub transfer_type : TransferType
  pub transfer_id : ℕ
  pub source_node_id : ℕ
  pub destination_node_id : ℕ
  pub payload : List ℕ

-- `DataType::Message` and `DataType::Service`, with the numbers of the enumerators.
pub data Message : Type 0 where
  plaz_allocation allocation global_time_sync node_status composite_field_values : Message

unfoldable pub message_number : Message → ℕ
message_number Message.plaz_allocation = 0
message_number Message.allocation = 1
message_number Message.global_time_sync = 4
message_number Message.node_status = 341
message_number Message.composite_field_values = 20000

pub data Service : Type 0 where
  get_node_info get_transport_stats restart_node param_get_set get_fields_summary : Service
  get_field_info field_read field_write get_file_info file_read file_write : Service

unfoldable pub service_number : Service → ℕ
service_number Service.get_node_info = 1
service_number Service.get_transport_stats = 4
service_number Service.restart_node = 5
service_number Service.param_get_set = 11
service_number Service.get_fields_summary = 200
service_number Service.get_field_info = 201
service_number Service.field_read = 202
service_number Service.field_write = 203
service_number Service.get_file_info = 204
service_number Service.file_read = 205
service_number Service.file_write = 206

-- The enumerators of `FieldType` and `Result` in the order of their numbers, and the casts of a byte.
abbrev field_types : List FieldType
field_types =
    FieldType.bool ∷ FieldType.char ∷ FieldType.int8 ∷ FieldType.int16 ∷ FieldType.int32
    ∷ FieldType.int64 ∷ FieldType.uint8 ∷ FieldType.uint16 ∷ FieldType.uint32 ∷ FieldType.uint64
    ∷ FieldType.float ∷ FieldType.double ∷ []

unfoldable pub field_type_of : ℕ → FieldType
field_type_of n = get_or field_types n FieldType.undefined

abbrev results : List Result
results =
    Result.success ∷ Result.component_not_found ∷ Result.field_not_found
    ∷ Result.field_type_mismatch ∷ Result.field_range_error ∷ Result.field_error
    ∷ Result.field_read_only ∷ Result.file_not_found ∷ Result.file_error ∷ Result.field_unavailable
    ∷ Result.field_timeout ∷ Result.file_access_error ∷ Result.file_position_error
    ∷ Result.file_timeout ∷ Result.queue_error ∷ Result.command_unsupported ∷ Result.command_queued
    ∷ Result.command_error ∷ Result.file_incorrect ∷ Result.file_outdated ∷ Result.signature_error
    ∷ []

unfoldable pub result_of : ℕ → Result
result_of n = get_or results n (Result.other n)

-- `canardDecodeScalar`: payload, bit offset, number of bits, sign.
abbrev pub DecodeScalar : Type 0
DecodeScalar = List ℕ → ℕ → ℕ → Bool → Option ℕ

-- A variable, and a byte of a buffer, after a call of `canardDecodeScalar`; `none` is a write outside of
-- the buffer.
abbrev pub stored : Option ℕ → ℕ → ℕ
stored none before = before
stored (some value) before = value

abbrev pub put_byte : Option ℕ → ℕ → List ℕ → Option (List ℕ)
put_byte none position buffer = some buffer
put_byte (some value) position buffer = store buffer position value

-- `decodeIntegerField` of `width` bytes at an offset in bytes; the buffer is 0 before.
unfoldable pub decode_integer_field : DecodeScalar → List ℕ → ℕ → Bool → ℕ → ℕ
decode_integer_field scalar payload width signed offset =
    stored (scalar payload (u32 (8 * offset)) (8 * width) signed) 0

-- The loop of `decodeBlobField` for bytes.
unfoldable pub decode_bytes : DecodeScalar → List ℕ → ℕ → ℕ → ℕ → List ℕ → Option (List ℕ)
decode_bytes scalar payload zero i position buffer = some buffer
decode_bytes scalar payload (suc count) i position buffer =
    put_byte (scalar payload (u32 (8 * i)) 8 false) position buffer
    >>= decode_bytes scalar payload count (i + 1) (position + 1)

-- `decodeBlobField`: the end of the range is computed in a `size_t`.
unfoldable pub decode_blob_field : DecodeScalar → List ℕ → ℕ → ℕ → List ℕ → Option (List ℕ)
decode_blob_field scalar payload offset length buffer =
    decode_bytes scalar payload (add_size offset length - offset) offset 0 buffer

-- The memory of an array of `n` bytes that is not initialised.
abbrev pub uninitialized : (ℕ → ℕ) → ℕ → List ℕ
uninitialized memory zero = []
uninitialized memory (suc n) = memory n ∷ uninitialized memory n
