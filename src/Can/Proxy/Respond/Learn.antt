-- ===== src/Can/Proxy/Respond/Learn.antt =====
-- The device's answers to GET_FIELD_INFO: the list of fields grows, and the next one is asked for.
use i2c.Prelude.{
  ℕ, ◌+◌, ◌%◌, ◌≤◌, ◌<◌, ◌≡◌, inl, inr, refl, sym, subst, ◌∙◌, true, ◌&&◌, Option, none, some, List,
  [], ◌∷◌, ◌++◌, append-nil, append_assoc, arith, length, length-set, All, Bool-cases, ltb, ltb_iff,
  ◌==◌, ◌>>=◌, both, set, u8,
}
use i2c.Core.{FieldType}
use i2c.Can.Transfer.{Service, service_number}
use i2c.Can.Proxy.State.{
  Environment, Context, ProxyRequestDescriptor, State, CanProxy, Effect, send_request, device_ready,
  max_retries, tell, transmit, make_request, number_of, set_number,
}
use i2c.Can.Proxy.Info.{send_get_field_info, add_field, take_field_info, is_request_fields}
use i2c.Can.Proxy.Pending.{Pending, All-append}
use i2c.Can.Proxy.Pending.Enqueue.{enqueue_full}
use i2c.Can.Proxy.Pending.Find.{At}
use i2c.Can.Proxy.Pending.Leave.{enqueue-At}
use i2c.Can.Proxy.Purge.{Pending-bounds}
use i2c.Can.Proxy.Sound.{Fits, Progress}
use i2c.Can.Proxy.Respond.{Answered}
use i2c.Can.Proxy.Respond.Texts.{TextsFit, tell_field_info_lem}
use i2c.Can.Proxy.Respond.Counts.{concerns, answered, answered-append, answered-tell}

-- A field that is known stays known.
Fits-more :
    (fields more service : ℕ) (context : Context)
    → fields ≤ more
    → Fits fields service context
    → Fits more service context
Fits-more fields more service (Context.field id) grows (inl info) = inl info
Fits-more fields more service (Context.field id) grows (inr (value, inside)) =
    inr (value, omega (arith, inside, grows))
Fits-more fields more service (Context.file id position) grows fits = fits

pub All-Fits-more :
    (fields more : ℕ) (ds : List ProxyRequestDescriptor)
    → fields ≤ more
    → All (λ d. Fits fields d.service d.context) ds
    → All (λ d. Fits more d.service d.context) ds
All-Fits-more fields more [] grows fits = tt
All-Fits-more fields more (d ∷ ds) grows fits = (
  Fits-more fields more d.service d.context grows fits.0,
  All-Fits-more fields more ds grows fits.1,
)

-- The proxy while an answer to the request `d` is processed: the request still waits between the others.
pub record Mid (e : Environment) (p : CanProxy) (before : List ProxyRequestDescriptor) (i : ℕ)
    (d : ProxyRequestDescriptor) (later : List ProxyRequestDescriptor) : Type 0 where
  pub at : At e p before i d later
  pub fitting : All (λ d. Fits p.info.fields d.service d.context) (before ++ d ∷ later)
  pub known : p.info.fields ≤ length p.info.types
  pub small : length p.info.types ≤ 255
  pub progress : Progress p.state p.info.fields (length p.info.types)
  pub named : (length p.info.uid ≡ 16) × (length p.info.name ≡ 80)

-- No request, or one for the information of a field, which has no observer.
abbrev pub Silent : List ProxyRequestDescriptor → Type 0
Silent [] = Unit
Silent (d ∷ []) = (d.observer ≡ none) × (d.service ≡ service_number Service.get_field_info)
Silent (d ∷ d' ∷ ds) = ⊥

module _ (e : Environment) where
  pub Mid-Pending :
      (p : CanProxy) (before : List ProxyRequestDescriptor) (i : ℕ) (d : ProxyRequestDescriptor)
      (later : List ProxyRequestDescriptor)
      → At e p before i d later
      → Pending e p (before ++ d ∷ later)
  Mid-Pending p before i d later (unused, first, rest, nodes, h, sized) =
      (unused, first ++ i ∷ rest, nodes, h)

  -- What a step comes to that may send a request for a field: one request may wait behind, without an
  -- observer, and no client is answered.
  abbrev Continues :
      List ProxyRequestDescriptor
      → ℕ
      → ProxyRequestDescriptor
      → List ProxyRequestDescriptor
      → Option (CanProxy × List Effect)
      → Type 0
  Continues before i d later outcome =
      (p' : CanProxy) × (effects : List Effect) × (extra : List ProxyRequestDescriptor) × (outcome
        ≡ some (p', effects))
      × Mid e p' before i d (later ++ extra)
      × Silent extra
      × ((observer token : ℕ) → answered observer token effects ≡ 0)

  send_get_field_info-Mid :
      (now field : ℕ) (p : CanProxy) (before : List ProxyRequestDescriptor) (i : ℕ)
      (d : ProxyRequestDescriptor) (later : List ProxyRequestDescriptor)
      → Mid e p before i d later
      → Continues before i d later (send_get_field_info e now field p)
  unfolding send_get_field_info transmit make_request
  send_get_field_info-Mid now field p before i d later m =
      let ds = before ++ d ∷ later in
      let new = make_request e now none 0 Service.get_field_info (Context.field field) p in
      elim (Bool-cases (ltb (length ds) e.max_request_count)) [
        | inl room ↦
            let (pool, requests, ran, at) =
              enqueue-At e new p before i d later m.at refl
                ((ltb_iff (length ds) e.max_request_count).0 room) in
            (
              record p {
                pool = pool;
                requests = requests;
                numbers =
                    set_number Service.get_field_info
                      (e.advance (number_of Service.get_field_info p.numbers)) p.numbers;
              },
              send_request p.info.address Service.get_field_info
                    (number_of Service.get_field_info p.numbers) (u8 field ∷ [])
                  ∷ [],
              new ∷ [],
              simp ran refl,
              record {
                at = at;
                fitting =
                    subst (All (λ r. Fits p.info.fields r.service r.context))
                      (append_assoc before (d ∷ later) (new ∷ []))
                      (All-append (λ r. Fits p.info.fields r.service r.context) ds (new ∷ [])
                        m.fitting (inl refl, tt));
                known = m.known;
                small = m.small;
                progress = m.progress;
                named = m.named;
              },
              (refl, refl),
              λ observer token. refl,
            )
        | inr full ↦
            let (bound, sized) = Pending-bounds e p ds (Mid-Pending p before i d later m.at) in
            let all : length ds ≡ e.max_request_count = ground (arith, full, bound) in
            (
              p,
              [],
              [],
              simp (enqueue_full e new p ds (Mid-Pending p before i d later m.at) all) refl,
              subst (Mid e p before i d) (sym (append-nil later)) m,
              tt,
              λ observer token. refl,
            )
      ]

  add_field-Mid :
      (now : ℕ) (t : FieldType) (p : CanProxy) (before : List ProxyRequestDescriptor) (i : ℕ)
      (d : ProxyRequestDescriptor) (later : List ProxyRequestDescriptor)
      → Mid e p before i d later
      → p.state ≡ State.request_fields
      → Continues before i d later (add_field e now t p)
  unfolding add_field
  add_field-Mid now t p before i d later m asking =
      let room : p.info.fields < length p.info.types =
        subst (λ s. Progress s p.info.fields (length p.info.types)) asking m.progress in
      let fields = (p.info.fields + 1) % 256 in
      let types = set p.info.types p.info.fields t in
      let next : fields ≡ p.info.fields + 1 = omega (arith, room, m.small) in
      let sized = length-set p.info.types p.info.fields t in
      let p' : CanProxy = record p { info = record p.info { types = types; fields = fields } } in
      let known : fields ≤ length types = omega (arith, next, sized, room) in
      let small : length types ≤ 255 = omega (arith, sized, m.small) in
      let fitting : All (λ r. Fits fields r.service r.context) (before ++ d ∷ later) =
        All-Fits-more p.info.fields fields (before ++ d ∷ later) (omega (arith, next)) m.fitting in
      let inside : ltb p.info.fields (length p.info.types) ≡ true = ground (arith, room) in
      elim (Bool-cases (ltb fields (length p.info.types))) [
        | inl more ↦
            let more_lem =
              subst (λ s. Progress s fields (length types)) (sym asking)
                (ground (arith, (ltb_iff fields (length p.info.types)).0 more, sized)) in
            let (q, effects, extra, ran, mid, silent, quiet) =
              send_get_field_info-Mid now fields (record p' { retries = max_retries }) before i d
                later
                (record {
                  at = m.at;
                  fitting = fitting;
                  known = known;
                  small = small;
                  progress = more_lem;
                  named = m.named;
                }) in
            (q, effects, extra, simp (inside, more) ran, mid, silent, quiet)
        | inr full ↦ (
          record p' { state = State.idle },
          device_ready ∷ [],
          [],
          simp (inside, full) refl,
          subst (Mid e (record p' { state = State.idle }) before i d) (sym (append-nil later))
              (record {
                at = m.at;
                fitting = fitting;
                known = known;
                small = small;
                progress = tt;
                named = m.named;
              }),
          tt,
          λ observer token. refl,
        )
      ]

  -- What an answer to the request `d` comes to: the request is still there, one may wait behind it
  -- without an observer, and its observer gets one call.
  abbrev pub Replies :
      List ProxyRequestDescriptor
      → ℕ
      → ProxyRequestDescriptor
      → List ProxyRequestDescriptor
      → Option (CanProxy × List Effect)
      → Type 0
  Replies before i d later outcome =
      (p' : CanProxy) × (effects : List Effect) × (extra : List ProxyRequestDescriptor) × (outcome
        ≡ some (p', effects))
      × Mid e p' before i d (later ++ extra)
      × Silent extra
      × ((observer token : ℕ)
          → answered observer token effects ≡ concerns observer token d.observer d.token)

  -- An answer that changes nothing in the proxy.
  pub unchanged-Replies :
      (p : CanProxy) (before : List ProxyRequestDescriptor) (i : ℕ) (d : ProxyRequestDescriptor)
      (later : List ProxyRequestDescriptor) (outcome : Option (List Effect))
      → Mid e p before i d later
      → Answered e d outcome
      → Replies before i d later (outcome >>= λ effects. some (p, effects))
  unchanged-Replies p before i d later outcome m (event, told) = (
    p,
    tell d.observer d.token event,
    [],
    rw told refl,
    subst (Mid e p before i d) (sym (append-nil later)) m,
    tt,
    λ observer token. answered-tell observer token d.observer d.token event,
  )

  pub take_field_info-Replies :
      (now id : ℕ) (t : FieldType) (payload : List ℕ) (p : CanProxy)
      (before : List ProxyRequestDescriptor) (i : ℕ) (d : ProxyRequestDescriptor)
      (later : List ProxyRequestDescriptor)
      → Mid e p before i d later
      → TextsFit e t payload
      → length payload < 65536
      → Replies before i d later (take_field_info e now id t payload d p)
  unfolding take_field_info
  take_field_info-Replies now id t payload p before i d later m fits bounded =
      let (event, told) = tell_field_info_lem e d.observer d.token id t payload fits bounded in
      elim (Bool-cases (is_request_fields p.state && (id == p.info.fields))) [
        | inl next ↦
            let (q, effects, extra, ran, mid, silent, quiet) =
              add_field-Mid now t p before i d later m
                (asking p.state (both (is_request_fields p.state) (id == p.info.fields) next).0) in
            (
              q,
              effects ++ tell d.observer d.token event,
              extra,
              simp (next, ran, told) refl,
              mid,
              silent,
              λ observer token.
                  answered-append observer token effects (tell d.observer d.token event)
                  ∙ omega (
                    arith,
                    quiet observer token,
                    answered-tell observer token d.observer d.token event,
                  ),
            )
        | inr other ↦ (
          p,
          tell d.observer d.token event,
          [],
          simp (other, told) refl,
          subst (Mid e p before i d) (sym (append-nil later)) m,
          tt,
          λ observer token. answered-tell observer token d.observer d.token event,
        )
      ]
    where
      asking : (s : State) → is_request_fields s ≡ true → s ≡ State.request_fields
      asking State.request_node_info is = cc
      asking State.request_fields is = refl
      asking State.idle is = cc
      asking State.error is = cc
