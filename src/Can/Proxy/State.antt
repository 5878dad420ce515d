-- ===== src/Can/Proxy/State.antt =====
-- PlazCan/CanProxy.hpp and ProxyRequestDescriptor.hpp: the state of a proxy, its requests and its calls.
use i2c.Prelude.{
  ℕ, ◌+◌, ◌^◌, ◌-◌, Bool, true, false, not, ◌&&◌, Option, none, some, List, [], ◌∷◌, ◌==◌, ◌>>=◌,
}
use i2c.Core.{FieldType}
use i2c.Device.{Event}
use i2c.Pool.{RequestPool, alloc}
use i2c.Linked.{LinkedList, push_back}
use i2c.Can.Transfer.{RxTransfer, DecodeScalar, Service, service_number}
use i2c.Can.Nodes.{address_unallocated}

-- The template's parameters, the number that the master leaves behind a request with a number,
-- `canardDecodeScalar`, and the memory of uninitialised arrays. Times are in microseconds.
pub record Environment : Type 0 where
  pub max_request_count : ℕ
  pub request_timeout : ℕ
  pub offline_timeout : ℕ
  pub advance : ℕ → ℕ
  pub scalar : DecodeScalar
  pub memory : ℕ → ℕ

-- `microseconds::max()` and `kMaxRetries`
abbrev pub time_max : ℕ
time_max = 2 ^ 63 - 1

abbrev pub max_retries : ℕ
max_retries = 8

-- The union of `ProxyRequestDescriptor`, as its constructors fill it; a reader gets `none` from the
-- other alternative.
pub data Context : Type 0 where
  field : ℕ → Context
  file : ℕ → ℕ → Context

unfoldable pub field_id : Context → Option ℕ
field_id (Context.field id) = some id
field_id (Context.file id position) = none

unfoldable pub file_id : Context → Option ℕ
file_id (Context.field id) = none
file_id (Context.file id position) = some id

unfoldable pub file_position : Context → Option ℕ
file_position (Context.field id) = none
file_position (Context.file id position) = some position

-- `ProxyRequestDescriptor`; none is the observer that is null.
pub record ProxyRequestDescriptor : Type 0 where
  pub destination : ℕ
  pub refs : ℕ
  pub observer : Option ℕ
  pub token : ℕ
  pub deadline : ℕ
  pub service : ℕ
  pub number : ℕ
  pub context : Context

-- `Status`, with the numbers of its mode and its health
pub record Status : Type 0 where
  pub mode : ℕ
  pub health : ℕ
  pub flags : ℕ

-- `Mode::OFFLINE`
abbrev pub mode_offline : ℕ
mode_offline = 7

-- `Device::Version`; its member `hash` is not used.
pub record Version : Type 0 where
  pub hw_major : ℕ
  pub hw_minor : ℕ
  pub sw_major : ℕ
  pub sw_minor : ℕ
  pub sw_revision : ℕ

-- `Info`
pub record Info : Type 0 where
  pub uid : List ℕ
  pub version : Version
  pub status : Status
  pub timestamp : ℕ
  pub uptime : ℕ
  pub name : List ℕ
  pub types : List FieldType
  pub address : ℕ
  pub fields : ℕ

-- `CanProxy::State`
pub data State : Type 0 where
  request_node_info request_fields idle error : State

-- `Numbers`
pub record Numbers : Type 0 where
  pub get_node_info : ℕ
  pub get_field_info : ℕ
  pub field_read : ℕ
  pub field_write : ℕ
  pub get_file_info : ℕ
  pub file_read : ℕ
  pub file_write : ℕ
  pub restart_node : ℕ

-- The number of the requests of a type; the other types have none.
unfoldable pub number_of : Service → Numbers → ℕ
number_of Service.get_node_info n = n.get_node_info
number_of Service.get_field_info n = n.get_field_info
number_of Service.field_read n = n.field_read
number_of Service.field_write n = n.field_write
number_of Service.get_file_info n = n.get_file_info
number_of Service.file_read n = n.file_read
number_of Service.file_write n = n.file_write
number_of Service.restart_node n = n.restart_node
number_of _ n = 0

unfoldable pub set_number : Service → ℕ → Numbers → Numbers
set_number Service.get_node_info value n = record n { get_node_info = value }
set_number Service.get_field_info value n = record n { get_field_info = value }
set_number Service.field_read value n = record n { field_read = value }
set_number Service.field_write value n = record n { field_write = value }
set_number Service.get_file_info value n = record n { get_file_info = value }
set_number Service.file_read value n = record n { file_read = value }
set_number Service.file_write value n = record n { file_write = value }
set_number Service.restart_node value n = record n { restart_node = value }
set_number _ value n = n

-- `CanProxy`; `master` and `feature` tell whether the pointers are not null.
pub record CanProxy : Type 0 where
  pub master : Bool
  pub feature : Bool
  pub next_request_time : ℕ
  pub retries : ℕ
  pub info : Info
  pub state : State
  pub numbers : Numbers
  pub pool : RequestPool ProxyRequestDescriptor
  pub requests : LinkedList ℕ

-- The calls that a proxy makes: `sendCanServiceRequest` of the master with the address, the type, the
-- transfer's number and the payload, its `onDeviceReady`, a call of an observer with its token, and
-- those of the feature.
pub data Effect : Type 0 where
  send_request : ℕ → Service → ℕ → List ℕ → Effect
  device_ready : Effect
  notify : ℕ → ℕ → Event → Effect
  feature_request_info : ℕ → Option ℕ → ℕ → Effect
  feature_read : ℕ → Option ℕ → ℕ → Effect
  feature_write : ℕ → List ℕ → Option ℕ → ℕ → Effect
  feature_message : RxTransfer → Effect
  feature_node_status : Status → ℕ → Effect
  feature_scheduled_field : ℕ → FieldType → ℕ → List ℕ → Bool → Bool → Effect

-- The call of an observer that is not null.
abbrev pub tell : Option ℕ → ℕ → Event → List Effect
tell none token event = []
tell (some observer) token event = notify observer token event ∷ []

-- `isReady`, `isUninitialized` and `isValid`
abbrev pub is_idle : State → Bool
is_idle State.idle = true
is_idle _ = false

abbrev pub is_requesting : State → Bool
is_requesting State.request_node_info = true
is_requesting State.request_fields = true
is_requesting _ = false

unfoldable pub is_ready : CanProxy → Bool
is_ready p = is_idle p.state

unfoldable pub is_valid : CanProxy → Bool
is_valid p = not (p.info.address == address_unallocated)

unfoldable pub is_uninitialized : CanProxy → Bool
is_uninitialized p = not (p.info.address == address_unallocated) && is_requesting p.state

module _ (e : Environment) where
  -- `alloc`, and `pushBack` of the descriptor if there is one: tells whether there is.
  unfoldable pub enqueue : ProxyRequestDescriptor → CanProxy → Option (Bool × CanProxy)
  enqueue d p = alloc e.max_request_count d p.pool >>= λ r. elim r.0 [
    | none ↦ some (false, p)
    | some i ↦ push_back i p.requests >>= λ requests.
        some (true, record p { pool = r.1; requests = requests })
  ]

  -- The descriptor of a request of the proxy's device.
  unfoldable pub make_request :
      ℕ → Option ℕ → ℕ → Service → Context → CanProxy → ProxyRequestDescriptor
  make_request now observer token service context p = record {
    destination = p.info.address;
    refs = 0;
    observer = observer;
    token = token;
    deadline = now + e.request_timeout;
    service = service_number service;
    number = number_of service p.numbers;
    context = context;
  }

  -- The master's `sendCanServiceRequest` to the proxy's device.
  unfoldable pub transmit : Service → List ℕ → CanProxy → CanProxy × List Effect
  transmit service payload p = (
    record p { numbers = set_number service (e.advance (number_of service p.numbers)) p.numbers },
    send_request p.info.address service (number_of service p.numbers) payload ∷ [],
  )
