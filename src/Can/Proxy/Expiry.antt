-- ===== src/Can/Proxy/Expiry.antt =====
-- PlazCan/CanProxy.hpp: requests that end without an answer of the device. `none` is a failed assertion, an
-- access outside of an array, or too few rounds.
use i2c.Prelude.{
  ℕ, zero, suc, ◌+◌, ◌-◌, Bool, ◌&&◌, ◌||◌, not, Option, none, some, List, [], ◌∷◌, ◌++◌, length,
  get_elem?, ltb, leb, ◌==◌, if◌then◌else◌, ◌>>=◌, u8,
}
use i2c.Core.{Result}
use i2c.Device.{
  Event, on_field_info_request_error, on_field_request_error, on_file_info_request_error,
  on_file_read_end, on_file_write_end,
}
use i2c.Pool.{free}
use i2c.Linked.{LinkedList, erase_node}
use i2c.Can.Transfer.{Service, service_number}
use i2c.Can.Proxy.State.{
  Environment, time_max, mode_offline, field_id, file_id, ProxyRequestDescriptor, State, CanProxy,
  Effect, device_ready, notify, feature_node_status, is_requesting, is_valid,
}
use i2c.Can.Proxy.Info.{send_get_node_info, send_get_field_info}

-- `CallbackResult`
pub data CallbackResult : Type 0 where
  component_detached generic_timeout : CallbackResult

-- The result that an observer gets, given the one of a timeout.
abbrev pub end_result : CallbackResult → Result → Result
end_result CallbackResult.component_detached timeout = Result.component_not_found
end_result CallbackResult.generic_timeout timeout = timeout

-- The call for a type of requests; none for the types of the default case, and `none` is a read of the
-- wrong alternative of the union.
unfoldable pub end_event : CallbackResult → ProxyRequestDescriptor → Option (Option Event)
end_event r d =
    if u8 d.service == service_number Service.get_field_info
    then (field_id d.context >>= λ id.
        some (some (on_field_info_request_error id (end_result r Result.field_timeout))))
    else if u8 d.service == service_number Service.field_read
    then (field_id d.context >>= λ id.
        some (some (on_field_request_error id (end_result r Result.field_timeout))))
    else if u8 d.service == service_number Service.field_write
    then (field_id d.context >>= λ id.
        some (some (on_field_request_error id (end_result r Result.field_timeout))))
    else if u8 d.service == service_number Service.get_file_info
    then (file_id d.context >>= λ id.
        some (some (on_file_info_request_error id (end_result r Result.file_timeout))))
    else if u8 d.service == service_number Service.file_read
    then (file_id d.context >>= λ id.
        some (some (on_file_read_end id 0 [] (end_result r Result.file_timeout))))
    else if u8 d.service == service_number Service.file_write
    then (file_id d.context >>= λ id.
        some (some (on_file_write_end id 0 (end_result r Result.file_timeout))))
    else some none

-- The call of an observer that is not null.
abbrev pub tell_end : Option ℕ → ℕ → Option (Option Event) → Option (List Effect)
tell_end none token event = some []
tell_end (some observer) token none = none
tell_end (some observer) token (some none) = some []
tell_end (some observer) token (some (some event)) = some (notify observer token event ∷ [])

unfoldable pub invoke_observer_callback :
    CallbackResult → ProxyRequestDescriptor → Option (List Effect)
invoke_observer_callback r d = tell_end d.observer d.token (end_event r d)

-- What `front` of the requests points to, if it is not null: the node, the index and the descriptor.
unfoldable pub front_request :
    Option ℕ
    → LinkedList ℕ
    → List ProxyRequestDescriptor
    → Option (Option (ℕ × ℕ × ProxyRequestDescriptor))
front_request none requests pool = some none
front_request (some node) requests pool =
    get_elem? requests.values node >>= λ i. get_elem? pool i >>= λ d. some (some (node, i, d))

unfoldable pub front : CanProxy → Option (Option (ℕ × ℕ × ProxyRequestDescriptor))
front p = front_request p.requests.first p.requests p.pool.pool

-- The assertion at the start of `onTimeoutOccurred`, and a master for its call of
-- `getNextUninitializedNode`, which is made in a state that asks for something; what comes before the
-- call changes neither the state nor the master.
unfoldable pub may_run : CanProxy → Bool
may_run p = is_valid p && (p.master || not (is_requesting p.state))

module _ (e : Environment) where
  -- The first node of the requests leaves them, its observer is called, and its descriptor goes back.
  unfoldable pub end_request :
      CallbackResult → ℕ → ℕ → ProxyRequestDescriptor → CanProxy → Option (CanProxy × List Effect)
  end_request r node i d p = do
    (next, requests) ← erase_node node p.requests
    effects ← invoke_observer_callback r d
    pool ← free e.max_request_count (λ d. d.refs) i p.pool
    some (record p { requests = requests; pool = pool }, effects)

  unfoldable pub purge_rounds : ℕ → CanProxy → Option (CanProxy × List Effect)
  purge_rounds zero p = none
  purge_rounds (suc rounds) p = front p >>= λ request. elim request [
    | none ↦ some (p, [])
    | some (node, i, d) ↦ end_request CallbackResult.component_detached node i d p >>= λ r.
        purge_rounds rounds r.0 >>= λ later. some (later.0, r.1 ++ later.1)
  ]

  unfoldable pub purge_request_descriptors : CanProxy → Option (CanProxy × List Effect)
  purge_request_descriptors p = purge_rounds (length p.requests.values + 1) p

  -- The loop of `purgeTimedOutDescriptors`, with the time to wake up.
  unfoldable pub purge_timed_out_rounds : ℕ → ℕ → CanProxy → Option (CanProxy × List Effect × ℕ)
  purge_timed_out_rounds zero now p = none
  purge_timed_out_rounds (suc rounds) now p = front p >>= λ request. elim request [
    | none ↦ some (p, [], time_max)
    | some (node, i, d) ↦
        let ended =
          (end_request CallbackResult.generic_timeout node i d p >>= λ r.
          purge_timed_out_rounds rounds now r.0 >>= λ later.
          some (later.0, r.1 ++ later.1, later.2)) in
        if ltb now d.deadline then some (p, [], d.deadline) else ended
  ]

  unfoldable pub purge_timed_out_descriptors : ℕ → CanProxy → Option (CanProxy × List Effect × ℕ)
  purge_timed_out_descriptors now p = purge_timed_out_rounds (length p.requests.values + 1) now p

  -- A device that has been silent for too long is off line.
  unfoldable pub check_offline : ℕ → CanProxy → CanProxy × List Effect
  check_offline now p =
      let status = record p.info.status { mode = mode_offline } in
      if leb (p.info.timestamp + e.offline_timeout) now && not (p.info.status.mode == mode_offline)
      then (
        record p { info = record p.info { status = status } },
        (if p.feature then feature_node_status status p.info.uptime ∷ [] else []),
      )
      else (p, [])

  -- The `switch` over the state: a try is used up, or there is none left.
  unfoldable pub retry : ℕ → State → CanProxy → Option (CanProxy × List Effect)
  retry now State.request_node_info p = some (
      if ltb 0 p.retries
      then send_get_node_info e (record p { retries = p.retries - 1 })
      else (record p { state = State.error }, []))
  retry now State.request_fields p =
      if ltb 0 p.retries
      then send_get_field_info e now p.info.fields (record p { retries = p.retries - 1 })
      else some (record p { state = State.idle }, device_ready ∷ [])
  retry now State.idle p = some (p, [])
  retry now State.error p = some (p, [])

  -- The initialisation of the device, if it is the next one of the master.
  unfoldable pub initialize : ℕ → ℕ → Bool → CanProxy → ℕ → Option (CanProxy × List Effect × ℕ)
  initialize now later next p wake =
      if is_requesting p.state && next && leb p.next_request_time now
      then (retry later p.state p >>= λ r.
          let time = now + e.request_timeout in
          some (record r.0 { next_request_time = time }, r.1, if ltb time wake then time else wake))
      else some (p, [], wake)

  -- `onTimeoutOccurred` at the time `now`; `later` is the time when a request is sent, `next` tells whether
  -- the proxy is the master's next uninitialised node, `feature_time` is what the feature returns.
  unfoldable pub on_timeout_occurred :
      ℕ → ℕ → Bool → ℕ → CanProxy → Option (CanProxy × List Effect × ℕ)
  on_timeout_occurred now later next feature_time p =
      if may_run p
      then (do
        (p₁, ended, wake) ← purge_timed_out_descriptors now p
        let (p₂, offline) = check_offline now p₁
        (p₃, sent, wake') ← initialize now later next p₂ wake
        some (
          p₃,
          ended ++ (offline ++ sent),
          if p₃.feature && ltb feature_time wake' then feature_time else wake',
        ))
      else none
