-- ===== src/Can/Proxy/Account/Received.antt =====
-- A received transfer as a whole.
use i2c.Prelude.{
  ℕ, ◌≡◌, refl, sym, subst, Bool, true, false, ◌&&◌, some, List, [], ◌∷◌, ◌++◌, append-nil, arith,
  Bool-cases, inl, inr, ◌==◌, if◌then◌else◌,
}
use i2c.Can.Transfer.{RxTransfer, Message, message_number}
use i2c.Can.Proxy.State.{
  Environment, ProxyRequestDescriptor, CanProxy, Effect, feature_message, is_valid,
}
use i2c.Can.Proxy.Receive.{
  process_service_response, process_message, process_transfer, on_message_received, is_response,
  is_broadcast,
}
use i2c.Can.Proxy.Sound.{Sound}
use i2c.Can.Proxy.Respond.Counts.{answered, answered-append}
use i2c.Can.Proxy.Respond.Step.{Described}
use i2c.Can.Proxy.Respond.Whole.{Unasked, unchanged-Unasked}
use i2c.Can.Proxy.Respond.Unmatched.{process_service_response_lem}
use i2c.Can.Proxy.Account.{Balanced, no_more, Unasked-Balanced, Ended-Balanced}
use i2c.Can.Proxy.Account.Message.{process_composite_field_values_lem, process_node_status-Unasked}

module _ (e : Environment) where
  process_message-Unasked :
      (now : ℕ) (t : RxTransfer) (p : CanProxy) (ds : List ProxyRequestDescriptor)
      → Sound e p ds
      → Unasked e ds (process_message e now t p)
  unfolding process_message
  process_message-Unasked now t p ds s =
      elim (Bool-cases (t.data_type_id == message_number Message.node_status)) [
        | inl status ↦ simp status (process_node_status-Unasked e now t p ds s)
        | inr other ↦
            simp other
              (elim (Bool-cases (t.data_type_id == message_number Message.composite_field_values)) [
                | inl values ↦
                    let (effects, ran, quiet) = process_composite_field_values_lem e t p s.known in
                    simp values (
                      p,
                      effects,
                      [],
                      simp ran refl,
                      subst (Sound e p) (sym (append-nil ds)) s,
                      tt,
                      quiet,
                    )
                | inr unknown ↦ simp unknown (unchanged-Unasked e p ds s)
              ])
      ]

  process_service_response-Balanced :
      (now later : ℕ) (t : RxTransfer) (p : CanProxy) (ds : List ProxyRequestDescriptor)
      → Sound e p ds
      → Described e t
      → (r : CanProxy × List Effect) × (process_service_response e now later t p ≡ some r)
        × Balanced e ds no_more r
  process_service_response-Balanced now later t p ds s described =
      elim (process_service_response_lem e now later t p ds s described) [
        | inl (before, d, after, split, none_before, belongs, ended) ↦
            let (r, ran, balanced) = Ended-Balanced e before d after _ ended in
            (r, ran, subst (λ xs. Balanced e xs no_more r) (sym split) balanced)
        | inr (none_belongs, unasked) ↦ Unasked-Balanced e ds _ unasked
      ]

  process_transfer-Balanced :
      (master_address now later : ℕ) (t : RxTransfer) (p : CanProxy)
      (ds : List ProxyRequestDescriptor)
      → Sound e p ds
      → Described e t
      → (r : CanProxy × List Effect) × (process_transfer e master_address now later t p ≡ some r)
        × Balanced e ds no_more r
  unfolding process_transfer
  process_transfer-Balanced master_address now later t p ds s described =
      elim (Bool-cases (is_response t.transfer_type && (t.destination_node_id == master_address))) [
        | inl response ↦
            simp response (process_service_response-Balanced now later t p ds s described)
        | inr other ↦ simp other (elim (Bool-cases (is_broadcast t.transfer_type)) [
          | inl broadcast ↦
              simp broadcast (Unasked-Balanced e ds _ (process_message-Unasked now t p ds s))
          | inr request ↦ simp request (Unasked-Balanced e ds _ (unchanged-Unasked e p ds s))
        ])
      ]

  -- Whatever transfer a valid proxy receives: it is processed to its end, and each request is then answered
  -- or still waits.
  pub on_message_received-Balanced :
      (master_address now later : ℕ) (t : RxTransfer) (p : CanProxy)
      (ds : List ProxyRequestDescriptor)
      → Sound e p ds
      → Described e t
      → is_valid p ≡ true
      → (r : CanProxy × List Effect) × (on_message_received e master_address now later t p ≡ some r)
        × Balanced e ds no_more r
  unfolding on_message_received
  on_message_received-Balanced master_address now later t p ds s described valid =
      elim (Bool-cases (t.source_node_id == p.info.address)) [
        | inr stranger ↦
            simp (valid, stranger) (Unasked-Balanced e ds _ (unchanged-Unasked e p ds s))
        | inl own ↦
            let (r, ran, (ds', sound, balance)) =
              process_transfer-Balanced master_address now later t p ds s described in
            let last : List Effect = if r.0.feature then feature_message t ∷ [] else [] in
            (
              (r.0, r.1 ++ last),
              simp (valid, own, ran) refl,
              (
                ds',
                sound,
                λ observer token. omega (
                  arith,
                  balance observer token,
                  answered-append observer token r.1 last,
                  quiet r.0.feature observer token,
                ),
              ),
            )
      ]
    where
      quiet :
          (b : Bool) (observer token : ℕ)
          → answered observer token (if b then feature_message t ∷ [] else []) ≡ 0
      quiet true observer token = refl
      quiet false observer token = refl
