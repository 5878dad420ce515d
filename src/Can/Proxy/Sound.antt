-- ===== src/Can/Proxy/Sound.antt =====
-- What the requests of a proxy are like, and the call that ends one without an answer.
use i2c.Prelude.{
  ℕ, ◌==◌, if◌then◌else◌, ◌≤◌, ◌<◌, ◌≡◌, ◌⊎◌, inl, inr, refl, Option, none, some, List, [], length,
  All,
}
use i2c.Core.{Result}
use i2c.Device.{
  Event, on_field_info_request_error, on_field_request_error, on_file_info_request_error,
  on_file_read_end, on_file_write_end,
}
use i2c.Can.Transfer.{Service, service_number}
use i2c.Can.Proxy.State.{
  Environment, Context, field_id, file_id, ProxyRequestDescriptor, State, CanProxy, tell,
}
use i2c.Can.Proxy.Expiry.{CallbackResult, end_event, tell_end, invoke_observer_callback}
use i2c.Can.Proxy.Pending.{Pending}

-- The context of a request fits its type: a value is asked of a field that is known, a description of any.
abbrev pub Fits : ℕ → ℕ → Context → Type 0
Fits fields service (Context.field id) =
    (service ≡ service_number Service.get_field_info)
    ⊎ (((service ≡ service_number Service.field_read)
          ⊎ (service ≡ service_number Service.field_write))
        × (id < fields))
Fits fields service (Context.file id position) =
    (service ≡ service_number Service.get_file_info)
    ⊎ ((service ≡ service_number Service.file_read) ⊎ (service ≡ service_number Service.file_write))

-- No field is known before the node's information, and there is room for a field that is asked for.
abbrev pub Progress : State → ℕ → ℕ → Type 0
Progress State.request_node_info fields capacity = fields ≡ 0
Progress State.request_fields fields capacity = fields < capacity
Progress State.idle fields capacity = Unit
Progress State.error fields capacity = Unit

-- The invariant of a proxy: its requests are those of a list, and each has the context of its type.
pub record Sound (e : Environment) (p : CanProxy) (ds : List ProxyRequestDescriptor) : Type 0 where
  pub pending : Pending e p ds
  pub fitting : All (λ d. Fits p.info.fields d.service d.context) ds
  pub known : p.info.fields ≤ length p.info.types
  pub small : length p.info.types ≤ 255
  pub progress : Progress p.state p.info.fields (length p.info.types)
  pub named : (length p.info.uid ≡ 16) × (length p.info.name ≡ 80)

-- Why a request ends: its device is gone, or the time for its field or file is over.
abbrev pub reason : CallbackResult → Context → Result
reason CallbackResult.component_detached context = Result.component_not_found
reason CallbackResult.generic_timeout (Context.field id) = Result.field_timeout
reason CallbackResult.generic_timeout (Context.file id position) = Result.file_timeout

-- The call that tells the observer of a request of this type that it has failed; a transfer's has the
-- position 0.
abbrev pub failed_event : Result → ℕ → Context → Event
failed_event result service (Context.field id) =
    if service == 201
    then on_field_info_request_error id result
    else on_field_request_error id result
failed_event result service (Context.file id position) =
    if service == 204
    then on_file_info_request_error id result
    else if service == 205
    then on_file_read_end id 0 [] result
    else on_file_write_end id 0 result

abbrev pub ended_event : CallbackResult → ProxyRequestDescriptor → Event
ended_event r d = failed_event (reason r d.context) d.service d.context

end_event_lem :
    (r : CallbackResult) (fields : ℕ) (d : ProxyRequestDescriptor) (context : Context)
    → d.context ≡ context
    → Fits fields d.service context
    → end_event r d ≡ some (some (failed_event (reason r context) d.service context))
unfolding end_event service_number field_id file_id
end_event_lem CallbackResult.component_detached fields d (Context.field id) same (inl info) =
    rw (info, same) refl
end_event_lem CallbackResult.component_detached fields d (Context.field id) same
      (inr (inl read, inside)) =
    rw (read, same) refl
end_event_lem CallbackResult.component_detached fields d (Context.field id) same
      (inr (inr write, inside)) =
    rw (write, same) refl
end_event_lem CallbackResult.component_detached fields d (Context.file id position) same
      (inl info) =
    rw (info, same) refl
end_event_lem CallbackResult.component_detached fields d (Context.file id position) same
      (inr (inl read)) =
    rw (read, same) refl
end_event_lem CallbackResult.component_detached fields d (Context.file id position) same
      (inr (inr write)) =
    rw (write, same) refl
end_event_lem CallbackResult.generic_timeout fields d (Context.field id) same (inl info) =
    rw (info, same) refl
end_event_lem CallbackResult.generic_timeout fields d (Context.field id) same
      (inr (inl read, inside)) =
    rw (read, same) refl
end_event_lem CallbackResult.generic_timeout fields d (Context.field id) same
      (inr (inr write, inside)) =
    rw (write, same) refl
end_event_lem CallbackResult.generic_timeout fields d (Context.file id position) same (inl info) =
    rw (info, same) refl
end_event_lem CallbackResult.generic_timeout fields d (Context.file id position) same
      (inr (inl read)) =
    rw (read, same) refl
end_event_lem CallbackResult.generic_timeout fields d (Context.file id position) same
      (inr (inr write)) =
    rw (write, same) refl

-- The end of a request is one call of its observer with its token, or none if the observer is null.
pub invoke_observer_callback_lem :
    (r : CallbackResult) (fields : ℕ) (d : ProxyRequestDescriptor)
    → Fits fields d.service d.context
    → invoke_observer_callback r d ≡ some (tell d.observer d.token (ended_event r d))
unfolding invoke_observer_callback
invoke_observer_callback_lem r fields d fits =
    rw (end_event_lem r fields d d.context refl fits)
      (tell_end_lem d.observer d.token (ended_event r d))
  where
    tell_end_lem :
        (observer : Option ℕ) (token : ℕ) (event : Event)
        → tell_end observer token (some (some event)) ≡ some (tell observer token event)
    tell_end_lem none token event = refl
    tell_end_lem (some observer) token event = refl
