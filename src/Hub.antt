-- ===== src/Hub.antt =====
-- DroneDevice/Include/DroneDevice/StaticDeviceHub.hpp: requests are routed to the device with the
-- address asked for. The tuple of devices is a list; the iterator's index is the place in it.
pub mod Routing
mod Tests
use i2c.Prelude.{
  ℕ, suc, ◌+◌, Bool, true, false, ◌&&◌, ◌||◌, not, List, [], ◌∷◌, ◌==◌, u8, if◌then◌else◌,
}
use i2c.Core.{Result}
use i2c.Device.{
  Event, on_field_info_request_error, on_field_request_error, on_file_info_request_error,
  on_file_read_end, on_file_write_end,
}

-- CoreTypes.hpp: `kDeviceReservedId`
abbrev pub device_reserved_id : ℕ
device_reserved_id = 255

-- Address.hpp: a device with its address
pub record Entry {ℓ} (A : Type ℓ) : Type ℓ where
  pub address : ℕ
  pub node : A

-- The requests to a device, with their arguments; a buffer is the list of its bytes.
pub data Request : Type 0 where
  field_request_info : ℕ → Request
  field_read : ℕ → Request
  field_write : ℕ → List ℕ → Request
  file_request_info : ℕ → ℕ → Request
  file_read : ℕ → ℕ → ℕ → Request
  file_write : ℕ → ℕ → List ℕ → Request

-- The functions of the iterator behind the last device.
unfoldable pub not_found : Request → Event
not_found (field_request_info field) = on_field_info_request_error field Result.component_not_found
not_found (field_read field) = on_field_request_error field Result.component_not_found
not_found (field_write field buffer) = on_field_request_error field Result.component_not_found
not_found (file_request_info file flags) =
    on_file_info_request_error file Result.component_not_found
not_found (file_read file offset n) = on_file_read_end file offset [] Result.component_not_found
not_found (file_write file offset buffer) = on_file_write_end file offset Result.component_not_found

-- What a request comes to: a call of a device, a call of the observer, or nothing.
pub data Outcome {ℓ} (A : Type ℓ) : Type ℓ where
  forwarded : A → Request → Outcome A
  reported : Event → Outcome A
  ignored : Outcome A

-- A call of the callback of `deviceRequestInfo`: the device, and `destination` and `refs` of the token
-- at that time.
pub record InfoCall {ℓ} (A : Type ℓ) : Type ℓ where
  pub node : A
  pub destination : ℕ
  pub refs : ℕ

module _ {ℓ} {A : Type ℓ} where
  -- `fieldRequestInfo`, `fieldRead`, `fieldWrite`, `fileRequestInfo`, `fileRead` and `fileWrite`;
  -- `observed` is whether the observer is not null.
  unfoldable pub route : Bool → List (Entry A) → ℕ → Request → Outcome A
  route observed [] device request = if observed then reported (not_found request) else ignored
  route observed (entry ∷ entries) device request =
      if device == entry.address
      then forwarded entry.node request
      else route observed entries device request

  -- `deviceRequestInfoImpl` from the index `n` on, with a callback and a token.
  unfoldable pub request_info_from : ℕ → List (Entry A) → ℕ → List (InfoCall A)
  request_info_from n [] device = []
  request_info_from n (entry ∷ entries) device =
      let later =
        if device == device_reserved_id then request_info_from (n + 1) entries device else [] in
      let called : InfoCall A = record {
        node = entry.node;
        destination = entry.address;
        refs = u8 n;
      } in
      if (device == device_reserved_id || device == entry.address)
        && not (entry.address == device_reserved_id)
      then called ∷ later
      else later

  unfoldable pub device_request_info : List (Entry A) → ℕ → List (InfoCall A)
  device_request_info entries device = request_info_from 0 entries device
