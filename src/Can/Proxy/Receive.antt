-- ===== src/Can/Proxy/Receive.antt =====
-- PlazCan/CanProxy.hpp: transfers from the device. `none` is a failed assertion, an access outside of an
-- array, or too few rounds.
use i2c.Prelude.{
  ℕ, zero, suc, ◌+◌, Bool, true, false, ◌&&◌, ◌||◌, Option, none, some, List, [], ◌∷◌, ◌++◌, length,
  get_elem?, ltb, ◌==◌, if◌then◌else◌, ◌>>=◌, u8,
}
use i2c.Core.{to_bytes}
use i2c.Pool.{free}
use i2c.Linked.{erase}
use i2c.Can.Hashes.{TransferType}
use i2c.Can.Transfer.{RxTransfer, Message, message_number, Service, service_number}
use i2c.Can.Proxy.State.{
  Environment, max_retries, ProxyRequestDescriptor, State, CanProxy, Effect, device_ready,
  feature_message, is_valid, transmit,
}
use i2c.Can.Proxy.Answer.{
  process_field_read_response, process_field_write_response, process_get_file_info_response,
  process_file_read_response, process_file_write_response,
}
use i2c.Can.Proxy.Info.{
  process_node_status, process_get_node_info_response, send_get_field_info,
  process_get_field_info_response, process_composite_field_values,
}

-- An answer of a type and a number belongs to a request.
unfoldable pub answers : ℕ → ℕ → ProxyRequestDescriptor → Bool
answers type_id transfer_id d = (d.service == type_id) && (d.number == transfer_id)

-- The loop of `findRequestDescriptor`; `none` outside if the rounds do not suffice.
unfoldable pub find_request_from : ℕ → ℕ → ℕ → CanProxy → Option ℕ → Option (Option ℕ)
find_request_from zero type_id transfer_id p place = none
find_request_from (suc rounds) type_id transfer_id p none = some none
find_request_from (suc rounds) type_id transfer_id p (some place) =
    get_elem? p.requests.values place >>= λ i. get_elem? p.pool.pool i >>= λ d.
    let later =
      get_elem? p.requests.links place >>= find_request_from rounds type_id transfer_id p in
    if answers type_id transfer_id d then some (some i) else later

unfoldable pub find_request_descriptor : ℕ → ℕ → CanProxy → Option (Option ℕ)
find_request_descriptor type_id transfer_id p =
    find_request_from (length p.requests.values + 1) type_id transfer_id p p.requests.first

-- The descriptor that a pointer points to, if it is not null.
unfoldable pub descriptor_at : Option ℕ → CanProxy → Option (Option ProxyRequestDescriptor)
descriptor_at none p = some none
descriptor_at (some i) p = get_elem? p.pool.pool i >>= λ d. some (some d)

abbrev pub is_request_node_info : State → Bool
is_request_node_info State.request_node_info = true
is_request_node_info _ = false

abbrev pub is_response : TransferType → Bool
is_response TransferType.response = true
is_response _ = false

abbrev pub is_broadcast : TransferType → Bool
is_broadcast TransferType.broadcast = true
is_broadcast _ = false

-- The loop over an array of accepted types.
abbrev accepts : ℕ → List ℕ → Bool
accepts type_id [] = false
accepts type_id (n ∷ numbers) = (n == type_id) || accepts type_id numbers

abbrev accepted_messages : List ℕ
accepted_messages = 341 ∷ 20000 ∷ []

abbrev accepted_services : List ℕ
accepted_services = 1 ∷ 201 ∷ 202 ∷ 203 ∷ 204 ∷ 205 ∷ 206 ∷ []

-- `onAcceptanceRequest`; `feature_accepts` is what the feature returns, if there is one.
unfoldable pub on_acceptance_request : ℕ → Bool → ℕ → TransferType → ℕ → ℕ → CanProxy → Option Bool
on_acceptance_request master_address feature_accepts type_id kind source destination p =
    if is_valid p
    then some (
        if source == p.info.address
        then if is_broadcast kind
          then accepts type_id accepted_messages || (p.feature && feature_accepts)
          else if is_response kind && (destination == master_address)
          then accepts (u8 type_id) accepted_services || (p.feature && feature_accepts)
          else false
        else false)
    else none

module _ (e : Environment) where
  -- The response to GET_NODE_INFO when the state is REQUEST_NODE_INFO.
  unfoldable pub take_node_info : ℕ → ℕ → RxTransfer → CanProxy → Option (CanProxy × List Effect)
  take_node_info now later t p = process_get_node_info_response e now t p >>= λ r.
      let p' = record r.1 { state = State.request_fields; retries = max_retries } in
      let asked = send_get_field_info e later 0 p' in
      if r.0
      then if ltb 0 (length r.1.info.types)
        then asked
        else some (record r.1 { state = State.idle }, device_ready ∷ [])
      else some (r.1, [])

  -- The `switch` of `processServiceResponse`.
  unfoldable pub process_response :
      ℕ
      → ℕ
      → RxTransfer
      → Option ProxyRequestDescriptor
      → CanProxy
      → Option (CanProxy × List Effect)
  process_response now later t request p =
      if t.data_type_id == service_number Service.get_node_info
      then if is_request_node_info p.state then take_node_info now later t p else some (p, [])
      else if t.data_type_id == service_number Service.get_field_info
      then process_get_field_info_response e now t request p
      else if t.data_type_id == service_number Service.field_read
      then (process_field_read_response e t request p >>= λ effects. some (p, effects))
      else if t.data_type_id == service_number Service.field_write
      then (process_field_write_response e t request p >>= λ effects. some (p, effects))
      else if t.data_type_id == service_number Service.get_file_info
      then (process_get_file_info_response e t request p >>= λ effects. some (p, effects))
      else if t.data_type_id == service_number Service.file_read
      then (process_file_read_response e t request p >>= λ effects. some (p, effects))
      else if t.data_type_id == service_number Service.file_write
      then (process_file_write_response e t request p >>= λ effects. some (p, effects))
      else some (p, [])

  -- The end of `processServiceResponse`: the request leaves the list, and its descriptor goes back.
  unfoldable pub release_request : Option ℕ → CanProxy → Option CanProxy
  release_request none p = some p
  release_request (some i) p = do
    requests ← erase ◌==◌ i p.requests
    pool ← free e.max_request_count (λ d. d.refs) i p.pool
    some (record p { requests = requests; pool = pool })

  -- `now` and `later` are the times when a response is processed and when the next request is sent.
  unfoldable pub process_service_response :
      ℕ → ℕ → RxTransfer → CanProxy → Option (CanProxy × List Effect)
  process_service_response now later t p = do
    found ← find_request_descriptor t.data_type_id t.transfer_id p
    request ← descriptor_at found p
    (p₁, effects) ← process_response now later t request p
    p₂ ← release_request found p₁
    some (p₂, effects)

  unfoldable pub process_message : ℕ → RxTransfer → CanProxy → Option (CanProxy × List Effect)
  process_message now t p =
      if t.data_type_id == message_number Message.node_status
      then process_node_status e now t p
      else if t.data_type_id == message_number Message.composite_field_values
      then (process_composite_field_values e t p >>= λ effects. some (p, effects))
      else some (p, [])

  -- What `onMessageReceived` processes, before it passes the transfer on to the feature. The address is
  -- that of the master, which is taken to be there.
  unfoldable pub process_transfer :
      ℕ → ℕ → ℕ → RxTransfer → CanProxy → Option (CanProxy × List Effect)
  process_transfer master_address now later t p =
      if is_response t.transfer_type && (t.destination_node_id == master_address)
      then process_service_response now later t p
      else if is_broadcast t.transfer_type
      then process_message now t p
      else some (p, [])

  unfoldable pub on_message_received :
      ℕ → ℕ → ℕ → RxTransfer → CanProxy → Option (CanProxy × List Effect)
  on_message_received master_address now later t p =
      if is_valid p
      then if t.source_node_id == p.info.address
        then (process_transfer master_address now later t p >>= λ r.
            some (r.0, r.1 ++ (if r.0.feature then feature_message t ∷ [] else [])))
        else some (p, [])
      else none

  -- `restart`, with the number of `RestartNodeMagicNumber`
  unfoldable pub restart : Bool → CanProxy → CanProxy × List Effect
  restart enter_dfu p =
      transmit e Service.restart_node
        (to_bytes 5 (if enter_dfu then 0xC416CC1379 else 0xACCE551B1E)) p
