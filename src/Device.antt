-- ===== src/Device.antt =====
-- DroneDevice/Include/DroneDevice: devices. DeviceObserver.hpp is here: a call of the observer is a
-- value.
pub mod Field
pub mod Internal
mod Tests
use i2c.Prelude.{ℕ, List}
use i2c.Core.{FieldType, FieldInfo, FileInfo, Result}

-- The calls of `DeviceObserver`, with their arguments but the token; data that is passed with its
-- length is a list.
pub data Event : Type 0 where
  on_field_info_received : FieldInfo → List ℕ → Event
  on_field_info_request_error : ℕ → Result → Event
  on_field_received : ℕ → List ℕ → FieldType → ℕ → Event
  on_field_updated : ℕ → Event
  on_field_request_error : ℕ → Result → Event
  on_file_info_received : FileInfo → Event
  on_file_info_request_error : ℕ → Result → Event
  on_file_read_end : ℕ → ℕ → List ℕ → Result → Event
  on_file_write_end : ℕ → ℕ → Result → Event
