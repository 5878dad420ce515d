-- ===== src/Serial/Exchange.antt =====
-- PayloadProtocol/SerialHandler.hpp over StaticDeviceHub.hpp and InternalDevice/InternalDevice.hpp: a
-- message with all that it leads to. The devices answer before their function returns.
pub mod Value
mod Tests
use i2c.Prelude.{ℕ, Bool, true, false, Option, none, some, List, [], ◌∷◌, get_elem?, set, ◌>>=◌}
use i2c.Device.{Event}
use i2c.Device.Field.{AbstractField}
use i2c.Device.Internal.{AbstractFile, Internal, serve}
use i2c.Hub.{
  Entry, Request, Outcome, forwarded, reported, ignored, InfoCall, route, device_request_info,
}
use i2c.Serial.Packet.{Query}
use i2c.Serial.Handler.{Handler, Call, DeviceInfo, process, on_event, on_device_info}

-- The devices of the hub, which its entries name by their places; `chunk` is the memory of the buffer in
-- `fileRead`, and `about` is what a device tells of itself.
module _ {F G : Type 0} (field_of : AbstractField F) (file_of : AbstractFile G)
    (crc : ℕ → List ℕ → ℕ) (stack chunk : List ℕ) (about : ℕ → DeviceInfo) where
  -- The event that a device's function ends in, and the device behind it.
  unfoldable pub observed_by :
      ℕ
      → ℕ
      → Internal F G × Option Event
      → List (Internal F G)
      → Handler
      → Option (List (Internal F G) × Handler)
  observed_by token place (d, none) devices h = some (set devices place d, h)
  observed_by token place (d, some event) devices h =
      on_event crc stack token event h >>= λ h'. some (set devices place d, h')

  unfoldable pub deliver :
      ℕ → Outcome ℕ → List (Internal F G) → Handler → Option (List (Internal F G) × Handler)
  deliver token (forwarded place request) devices h = get_elem? devices place >>= λ d.
      serve field_of file_of chunk request d >>= λ r. observed_by token place r devices h
  deliver token (reported event) devices h =
      on_event crc stack token event h >>= λ h'. some (devices, h')
  deliver token ignored devices h = some (devices, h)

  -- The calls of `onDeviceInfoCallback`.
  unfoldable pub inform : ℕ → List (InfoCall ℕ) → Handler → Option Handler
  inform token [] h = some h
  inform token (call ∷ calls) h =
      on_device_info crc stack token call.destination call.refs (about call.node) h >>= λ h'.
      inform token calls h'

  -- The call of the hub, with the token and the address.
  unfoldable pub call_hub :
      ℕ
      → ℕ
      → Query
      → List (Entry ℕ)
      → List (Internal F G)
      → Handler
      → Option (List (Internal F G) × Handler)
  call_hub token address Query.info entries devices h =
      inform token (device_request_info entries address) h >>= λ h'. some (devices, h')
  call_hub token address (Query.device request) entries devices h =
      deliver token (route true entries address request) devices h

  unfoldable pub carry_out :
      Option Call
      → List (Entry ℕ)
      → List (Internal F G)
      → Handler
      → Option (List (Internal F G) × Handler)
  carry_out none entries devices h = some (devices, h)
  carry_out (some call) entries devices h =
      call_hub call.token call.address call.asked entries devices h

  -- A message of `n` bytes at the start of the parser's buffer.
  unfoldable pub exchange :
      List ℕ
      → ℕ
      → List (Entry ℕ)
      → List (Internal F G)
      → Handler
      → Option (List (Internal F G) × Handler)
  exchange buffer n entries devices h =
      process buffer n h >>= λ r. carry_out r.1 entries devices r.0
