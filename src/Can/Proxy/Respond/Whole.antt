-- ===== src/Can/Proxy/Respond/Whole.antt =====
-- A response of the device, from the search for its request to the return of the descriptor.
use i2c.Prelude.{
  ℕ, ◌≡◌, inl, inr, refl, sym, ap, subst, Option, none, some, List, [], ◌∷◌, ◌++◌, append-nil,
  arith, length, Bool-cases, ltb, ltb_iff, get_elem?, u8,
}
use i2c.Can.Transfer.{RxTransfer, Service}
use i2c.Can.Proxy.State.{
  Environment, Context, ProxyRequestDescriptor, CanProxy, Effect, send_request, make_request,
  transmit, number_of, set_number,
}
use i2c.Can.Proxy.Info.{send_get_field_info}
use i2c.Can.Proxy.Receive.{descriptor_at, find_request_descriptor, process_service_response}
use i2c.Can.Proxy.Pending.{All-append}
use i2c.Can.Proxy.Pending.Enqueue.{enqueue-Pending, enqueue_full}
use i2c.Can.Proxy.Purge.{Pending-bounds}
use i2c.Can.Proxy.Pending.Leave.{release_request-Pending, All-drop}
use i2c.Can.Proxy.Sound.{Fits, Sound}
use i2c.Can.Proxy.Respond.Counts.{concerns, answered, waiting}
use i2c.Can.Proxy.Respond.Learn.{Mid, Silent}
use i2c.Can.Proxy.Respond.Step.{Described, process_response-Replies}

-- Requests without an observer are no client's.
pub waiting-Silent :
    (observer token : ℕ) (ds : List ProxyRequestDescriptor)
    → Silent ds
    → waiting observer token ds ≡ 0
waiting-Silent observer token [] silent = refl
waiting-Silent observer token (d ∷ []) silent =
    let none_here : concerns observer token d.observer d.token ≡ 0 =
      ap (λ o. concerns observer token o d.token) silent.0 in
    omega (arith, none_here)
waiting-Silent observer token (d ∷ d' ∷ ds) silent = absurd silent

module _ (e : Environment) where
  -- An answer ends the first request of its type and its number: the others stay in their order, at most one
  -- request of the proxy itself joins them, and the observer of the request gets exactly one call.
  abbrev pub Ended :
      List ProxyRequestDescriptor
      → ProxyRequestDescriptor
      → List ProxyRequestDescriptor
      → Option (CanProxy × List Effect)
      → Type 0
  Ended before d later outcome =
      (p' : CanProxy) × (effects : List Effect) × (extra : List ProxyRequestDescriptor) × (outcome
        ≡ some (p', effects))
      × Sound e p' (before ++ (later ++ extra))
      × Silent extra
      × ((observer token : ℕ)
          → answered observer token effects ≡ concerns observer token d.observer d.token)

  pub release_lem :
      (now later_time : ℕ) (t : RxTransfer) (p : CanProxy) (before : List ProxyRequestDescriptor)
      (i : ℕ) (d : ProxyRequestDescriptor) (later : List ProxyRequestDescriptor)
      → Mid e p before i d later
      → Described e t
      → t.data_type_id ≡ d.service
      → find_request_descriptor t.data_type_id t.transfer_id p ≡ some (some i)
      → get_elem? p.pool.pool i ≡ some d
      → Ended before d later (process_service_response e now later_time t p)
  unfolding process_service_response descriptor_at
  release_lem now later_time t p before i d later m described kind found at =
      let (fits, _) =
        All-drop (λ r. Fits p.info.fields r.service r.context) before d later m.fitting in
      let (q, effects, extra, ran, mid, silent, count) =
        process_response-Replies e now later_time t p before i d later d.context m described kind
          refl fits in
      let (pool, requests, released, pending) =
        release_request-Pending e q before i d (later ++ extra) mid.at in
      (
        record q { requests = requests; pool = pool },
        effects,
        extra,
        simp (found, at, ran, released) refl,
        record {
          pending = pending;
          fitting =
              (All-drop (λ r. Fits q.info.fields r.service r.context) before d (later ++ extra)
                mid.fitting).1;
          known = mid.known;
          small = mid.small;
          progress = mid.progress;
          named = mid.named;
        },
        silent,
        count,
      )

  -- What a step comes to that no request waits for: at most one request of the proxy itself joins, and no
  -- client is answered.
  abbrev pub Unasked : List ProxyRequestDescriptor → Option (CanProxy × List Effect) → Type 0
  Unasked ds outcome =
      (p' : CanProxy) × (effects : List Effect) × (extra : List ProxyRequestDescriptor) × (outcome
        ≡ some (p', effects))
      × Sound e p' (ds ++ extra)
      × Silent extra
      × ((observer token : ℕ) → answered observer token effects ≡ 0)

  pub unchanged-Unasked :
      (p : CanProxy) (ds : List ProxyRequestDescriptor) → Sound e p ds → Unasked ds (some (p, []))
  unchanged-Unasked p ds s =
      (p, [], [], refl, subst (Sound e p) (sym (append-nil ds)) s, tt, λ observer token. refl)

  pub send_get_field_info-Unasked :
      (now field : ℕ) (p : CanProxy) (ds : List ProxyRequestDescriptor)
      → Sound e p ds
      → Unasked ds (send_get_field_info e now field p)
  unfolding send_get_field_info transmit make_request
  send_get_field_info-Unasked now field p ds s =
      let new = make_request e now none 0 Service.get_field_info (Context.field field) p in
      elim (Bool-cases (ltb (length ds) e.max_request_count)) [
        | inl room ↦
            let (pool, requests, ran, pending) =
              enqueue-Pending e new p ds s.pending refl
                ((ltb_iff (length ds) e.max_request_count).0 room) in
            (
              record p {
                pool = pool;
                requests = requests;
                numbers =
                    set_number Service.get_field_info
                      (e.advance (number_of Service.get_field_info p.numbers)) p.numbers;
              },
              send_request p.info.address Service.get_field_info
                    (number_of Service.get_field_info p.numbers) (u8 field ∷ [])
                  ∷ [],
              new ∷ [],
              simp ran refl,
              record {
                pending = pending;
                fitting =
                    All-append (λ r. Fits p.info.fields r.service r.context) ds (new ∷ []) s.fitting
                      (inl refl, tt);
                known = s.known;
                small = s.small;
                progress = s.progress;
                named = s.named;
              },
              (refl, refl),
              λ observer token. refl,
            )
        | inr full ↦
            let (bound, sized) = Pending-bounds e p ds s.pending in
            let all : length ds ≡ e.max_request_count = ground (arith, full, bound) in
            (
              p,
              [],
              [],
              simp (enqueue_full e new p ds s.pending all) refl,
              subst (Sound e p) (sym (append-nil ds)) s,
              tt,
              λ observer token. refl,
            )
      ]
