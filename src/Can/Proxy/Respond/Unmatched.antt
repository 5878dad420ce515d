-- ===== src/Can/Proxy/Respond/Unmatched.antt =====
-- A response of the device, with a request or without one.
use i2c.Prelude.{
  ℕ, ◌≤◌, ◌≡◌, ◌⊎◌, inl, inr, refl, sym, ap, subst, ◌∙◌, Bool, true, false, none, some, List, [],
  ◌∷◌, ◌++◌, append-nil, arith, length, All, Bool-cases, ltb, ◌==◌, if◌then◌else◌, ==_iff, both,
}
use i2c.Can.Transfer.{RxTransfer, Service, service_number}
use i2c.Can.Proxy.State.{
  Environment, ProxyRequestDescriptor, State, CanProxy, device_ready, max_retries,
}
use i2c.Can.Proxy.Info.{process_get_field_info_response}
use i2c.Can.Proxy.Answer.{
  process_field_read_response, process_field_write_response, process_get_file_info_response,
  process_file_read_response, process_file_write_response,
}
use i2c.Can.Proxy.Receive.{
  take_node_info, is_request_node_info, process_response, release_request, answers, descriptor_at,
  find_request_descriptor, process_service_response,
}
use i2c.Can.Proxy.Pending.Find.{find_request_descriptor_lem}
use i2c.Can.Proxy.Sound.{Fits, Progress, Sound}
use i2c.Can.Proxy.Respond.Step.{Described}
use i2c.Can.Proxy.Respond.Node.{process_get_node_info_response_lem}
use i2c.Can.Proxy.Respond.Whole.{
  Ended, release_lem, Unasked, unchanged-Unasked, send_get_field_info-Unasked,
}

if_same {ℓ} : {A : Type ℓ} (b : Bool) (x : A) → (if b then x else x) ≡ x
if_same true x = refl
if_same false x = refl

module _ (e : Environment) where
  -- The information of a node that is asked for it: its fields are asked for next.
  take_node_info-Unasked :
      (now later_time : ℕ) (t : RxTransfer) (p : CanProxy) (ds : List ProxyRequestDescriptor)
      → Sound e p ds
      → p.state ≡ State.request_node_info
      → Unasked e ds (take_node_info e now later_time t p)
  unfolding take_node_info
  take_node_info-Unasked now later_time t p ds s asking =
      let (complete, i, ran, (types, fields, address, uid, name)) =
        process_get_node_info_response_lem e now t p s.named in
      let no_fields : p.info.fields ≡ 0 =
        subst (λ state. Progress state p.info.fields (length p.info.types)) asking s.progress in
      let fitting : All (λ d. Fits i.fields d.service d.context) ds =
        subst (λ n. All (λ d. Fits n d.service d.context) ds) (sym fields) s.fitting in
      let known : i.fields ≤ length i.types = omega (arith, fields, no_fields) in
      let small : length i.types ≤ 255 = omega (arith, ap length types, s.small) in
      let named : (length i.uid ≡ 16) × (length i.name ≡ 80) =
        (uid ∙ s.named.0, name ∙ s.named.1) in
      elim (Bool-cases complete) [
        | inr partial ↦ (
          record p { info = i },
          [],
          [],
          simp (ran, partial) refl,
          subst (Sound e (record p { info = i })) (sym (append-nil ds)) (record {
            pending = s.pending;
            fitting = fitting;
            known = known;
            small = small;
            progress =
                subst (λ state. Progress state i.fields (length i.types)) (sym asking)
                  (fields ∙ no_fields);
            named = named;
          }),
          tt,
          λ observer token. refl,
        )
        | inl whole ↦ elim (Bool-cases (ltb 0 (length i.types))) [
          | inl more ↦
              let (q, effects, extra, sent, sound, silent, quiet) =
                send_get_field_info-Unasked e later_time 0
                  (record p { info = i; state = State.request_fields; retries = max_retries }) ds
                  (record {
                    pending = s.pending;
                    fitting = fitting;
                    known = known;
                    small = small;
                    progress = ground (arith, more, fields, no_fields);
                    named = named;
                  }) in
              (q, effects, extra, simp (ran, whole, more) sent, sound, silent, quiet)
          | inr nothing ↦ (
            record p { info = i; state = State.idle },
            device_ready ∷ [],
            [],
            simp (ran, whole, nothing) refl,
            subst (Sound e (record p { info = i; state = State.idle })) (sym (append-nil ds))
                (record {
                  pending = s.pending;
                  fitting = fitting;
                  known = known;
                  small = small;
                  progress = tt;
                  named = named;
                }),
            tt,
            λ observer token. refl,
          )
        ]
      ]

  -- A response that no request waits for.
  process_response-Unasked :
      (now later_time : ℕ) (t : RxTransfer) (p : CanProxy) (ds : List ProxyRequestDescriptor)
      → Sound e p ds
      → Unasked e ds (process_response e now later_time t none p)
  unfolding process_response process_get_field_info_response process_field_read_response
      process_field_write_response process_get_file_info_response process_file_read_response
      process_file_write_response
  process_response-Unasked now later_time t p ds s =
      elim (Bool-cases (t.data_type_id == service_number Service.get_node_info)) [
        | inl node ↦ simp node (by_state p.state refl)
        | inr other ↦ simp (other, if_same) (unchanged-Unasked e p ds s)
      ]
    where
      by_state :
          (state : State)
          → p.state ≡ state
          → Unasked e ds (
              if is_request_node_info p.state
              then take_node_info e now later_time t p
              else some (p, []))
      by_state State.request_node_info is =
          simp is (take_node_info-Unasked now later_time t p ds s is)
      by_state State.request_fields is = simp is (unchanged-Unasked e p ds s)
      by_state State.idle is = simp is (unchanged-Unasked e p ds s)
      by_state State.error is = simp is (unchanged-Unasked e p ds s)

  -- A response ends the first request of its type and its number, with one call of its observer, if there is
  -- one; one that belongs to no request answers no client. At most one request is new, which is the proxy's
  -- own and for the information of a field.
  pub process_service_response_lem :
      (now later_time : ℕ) (t : RxTransfer) (p : CanProxy) (ds : List ProxyRequestDescriptor)
      → Sound e p ds
      → Described e t
      → ((before : List ProxyRequestDescriptor) × (d : ProxyRequestDescriptor) × (later : List
            ProxyRequestDescriptor)
          × (ds ≡ before ++ d ∷ later)
          × All (λ d. answers t.data_type_id t.transfer_id d ≡ false) before
          × (answers t.data_type_id t.transfer_id d ≡ true)
          × Ended e before d later (process_service_response e now later_time t p))
        ⊎ (All (λ d. answers t.data_type_id t.transfer_id d ≡ false) ds
            × Unasked e ds (process_service_response e now later_time t p))
  process_service_response_lem now later_time t p ds s described =
      elim (find_request_descriptor_lem e p t.data_type_id t.transfer_id ds s.pending) [
        | inl (found, none_belongs) ↦ inr (none_belongs, unmatched found)
        | inr (i, before, d, later, found, at, split, none_before, belongs, place) ↦ inl (
          before,
          d,
          later,
          split,
          none_before,
          belongs,
          release_lem e now later_time t p before i d later
              (record {
                at = place;
                fitting = subst (All (λ r. Fits p.info.fields r.service r.context)) split s.fitting;
                known = s.known;
                small = s.small;
                progress = s.progress;
                named = s.named;
              })
              described (of_type d belongs) found at,
        )
      ]
    where
      of_type :
          (d : ProxyRequestDescriptor)
          → answers t.data_type_id t.transfer_id d ≡ true
          → t.data_type_id ≡ d.service
      of_type d belongs =
          let same =
            (both (d.service == t.data_type_id) (d.number == t.transfer_id)
              (unfold answers in belongs)).0 in
          sym ((==_iff d.service t.data_type_id).0 same)

      unmatched :
          find_request_descriptor t.data_type_id t.transfer_id p ≡ some none
          → Unasked e ds (process_service_response e now later_time t p)
      unmatched found =
          let (q, effects, extra, ran, sound, silent, quiet) =
            process_response-Unasked now later_time t p ds s in
          (
            q,
            effects,
            extra,
            unfold process_service_response descriptor_at release_request in simp (found, ran) refl,
            sound,
            silent,
            quiet,
          )
