-- ===== src/Can/Proxy/Account/Timeout.antt =====
-- A time out: requests that are late end, the device may be off line, and its initialisation goes on.
use i2c.Prelude.{
  ℕ, ◌+◌, ◌-◌, ◌≤◌, ◌≡◌, refl, sym, subst, Bool, true, false, not, ◌&&◌, some, List, [], ◌∷◌, ◌++◌,
  append-nil, arith, Bool-cases, inl, inr, ltb, leb, ◌==◌, if◌then◌else◌,
}
use i2c.Can.Proxy.State.{
  Environment, ProxyRequestDescriptor, State, CanProxy, Effect, mode_offline, feature_node_status,
  is_requesting, transmit, set_number, number_of,
}
use i2c.Can.Proxy.Info.{send_get_node_info}
use i2c.Can.Proxy.Expiry.{
  CallbackResult, may_run, check_offline, retry, initialize, on_timeout_occurred,
}
use i2c.Can.Proxy.Purge.{
  purge_timed_out_descriptors_lem, end_effects, expired, unexpired, next_deadline,
}
use i2c.Can.Proxy.Sound.{Sound}
use i2c.Can.Proxy.Respond.Counts.{
  answered, answered-append, waiting, waiting-append, answered-end_effects,
}
use i2c.Can.Proxy.Respond.Learn.{Silent}
use i2c.Can.Proxy.Respond.Whole.{
  Unasked, unchanged-Unasked, send_get_field_info-Unasked, waiting-Silent,
}
use i2c.Can.Proxy.Account.{Balanced, no_more}

-- A late request and one in time are the requests.
waiting-expired :
    (observer token now : ℕ) (ds : List ProxyRequestDescriptor)
    → waiting observer token (expired now ds) + waiting observer token (unexpired now ds)
      ≡ waiting observer token ds
waiting-expired observer token now [] = refl
waiting-expired observer token now (d ∷ ds) = elim (Bool-cases (ltb now d.deadline)) [
  | inl waits ↦ rw waits (omega arith)
  | inr late ↦ rw late (omega (arith, waiting-expired observer token now ds))
]

module _ (e : Environment) where
  check_offline-Sound :
      (now : ℕ) (p : CanProxy) (ds : List ProxyRequestDescriptor)
      → Sound e p ds
      → Sound e (check_offline e now p).0 ds
        × ((observer token : ℕ) → answered observer token (check_offline e now p).1 ≡ 0)
  unfolding check_offline
  check_offline-Sound now p ds s =
      elim (Bool-cases (
        leb (p.info.timestamp + e.offline_timeout) now
        && not (p.info.status.mode == mode_offline))) [
          | inl silent ↦ simp silent (
            record {
              pending = s.pending;
              fitting = s.fitting;
              known = s.known;
              small = s.small;
              progress = s.progress;
              named = s.named;
            },
            λ observer token. quiet p.feature observer token,
          )
          | inr heard ↦ simp heard (s, λ observer token. refl)
        ]
    where
      quiet :
          (b : Bool) (observer token : ℕ)
          → answered observer token (
              if b
              then feature_node_status (record p.info.status { mode = mode_offline }) p.info.uptime
                ∷ []
              else [])
            ≡ 0
      quiet true observer token = refl
      quiet false observer token = refl

  -- A try that ends the initialisation, or sends a request.
  retry-Unasked :
      (now : ℕ) (state : State) (p : CanProxy) (ds : List ProxyRequestDescriptor)
      → Sound e p ds
      → Unasked e ds (retry e now state p)
  unfolding retry send_get_node_info transmit set_number number_of
  retry-Unasked now State.request_node_info p ds s = elim (Bool-cases (ltb 0 p.retries)) [
    | inl more ↦ simp more (
      _,
      _,
      [],
      refl,
      subst (Sound e _) (sym (append-nil ds)) (record {
        pending = s.pending;
        fitting = s.fitting;
        known = s.known;
        small = s.small;
        progress = s.progress;
        named = s.named;
      }),
      tt,
      λ observer token. refl,
    )
    | inr last ↦ simp last (
      _,
      _,
      [],
      refl,
      subst (Sound e _) (sym (append-nil ds)) (record {
        pending = s.pending;
        fitting = s.fitting;
        known = s.known;
        small = s.small;
        progress = tt;
        named = s.named;
      }),
      tt,
      λ observer token. refl,
    )
  ]
  retry-Unasked now State.request_fields p ds s = elim (Bool-cases (ltb 0 p.retries)) [
    | inl more ↦ simp more (
        send_get_field_info-Unasked e now p.info.fields (record p { retries = p.retries - 1 }) ds
          (record {
            pending = s.pending;
            fitting = s.fitting;
            known = s.known;
            small = s.small;
            progress = s.progress;
            named = s.named;
          }))
    | inr last ↦ simp last (
      _,
      _,
      [],
      refl,
      subst (Sound e _) (sym (append-nil ds)) (record {
        pending = s.pending;
        fitting = s.fitting;
        known = s.known;
        small = s.small;
        progress = tt;
        named = s.named;
      }),
      tt,
      λ observer token. refl,
    )
  ]
  retry-Unasked now State.idle p ds s = unchanged-Unasked e p ds s
  retry-Unasked now State.error p ds s = unchanged-Unasked e p ds s

  initialize-Unasked :
      (now later : ℕ) (next : Bool) (p : CanProxy) (wake : ℕ) (ds : List ProxyRequestDescriptor)
      → Sound e p ds
      → (p' : CanProxy) × (effects : List Effect) × (wake' : ℕ) × (initialize e now later next p
            wake
          ≡ some (p', effects, wake'))
        × (wake' ≤ wake)
        × (extra : List ProxyRequestDescriptor) × Sound e p' (ds ++ extra)
        × Silent extra
        × ((observer token : ℕ) → answered observer token effects ≡ 0)
  unfolding initialize
  initialize-Unasked now later next p wake ds s =
      elim (Bool-cases (is_requesting p.state && next && leb p.next_request_time now)) [
        | inr not_due ↦ (
          p,
          [],
          wake,
          simp not_due refl,
          omega arith,
          [],
          subst (Sound e p) (sym (append-nil ds)) s,
          tt,
          λ observer token. refl,
        )
        | inl due ↦
            let (q, effects, extra, ran, sound, silent, quiet) =
              retry-Unasked later p.state p ds s in
            let time = now + e.request_timeout in
            (
              record q { next_request_time = time },
              effects,
              if ltb time wake then time else wake,
              simp (due, ran) refl,
              ground arith,
              extra,
              record {
                pending = sound.pending;
                fitting = sound.fitting;
                known = sound.known;
                small = sound.small;
                progress = sound.progress;
                named = sound.named;
              },
              silent,
              quiet,
            )
      ]

  -- A time out that has an outcome is one of a valid proxy, with a master if the proxy asks for something.
  pub running :
      (now later : ℕ) (next : Bool) (feature_time : ℕ) (p : CanProxy)
      (r : CanProxy × List Effect × ℕ)
      → on_timeout_occurred e now later next feature_time p ≡ some r
      → may_run p ≡ true
  unfolding on_timeout_occurred
  running now later next feature_time p r ran = elim (Bool-cases (may_run p)) [
    | inl runs ↦ runs
    | inr stopped ↦ let stuck = simp stopped at ran in cc
  ]

  -- A time out of a valid proxy, with a master if the proxy asks for something, comes to its end: each request is ended or still waits, and the proxy wakes up no later than
  -- at the deadline of the first request that is left.
  pub on_timeout_occurred-Balanced :
      (now later : ℕ) (next : Bool) (feature_time : ℕ) (p : CanProxy)
      (ds : List ProxyRequestDescriptor)
      → Sound e p ds
      → may_run p ≡ true
      → (p' : CanProxy) × (effects : List Effect) × (wake : ℕ) × (on_timeout_occurred e now later
            next feature_time p
          ≡ some (p', effects, wake))
        × (wake ≤ next_deadline (unexpired now ds))
        × Balanced e ds no_more (p', effects)
  unfolding on_timeout_occurred
  on_timeout_occurred-Balanced now later next feature_time p ds s runs =
      let (pool, requests, ran, s₁) = purge_timed_out_descriptors_lem e now p ds s in
      let p₁ : CanProxy = record p { requests = requests; pool = pool } in
      let kept = unexpired now ds in
      let ended = end_effects CallbackResult.generic_timeout (expired now ds) in
      let (s₂, quiet) = check_offline-Sound now p₁ kept s₁ in
      let (p₂, offline) = check_offline e now p₁ in
      let (p₃, sent, wake, ran', sooner, extra, s₃, silent, quiet') =
        initialize-Unasked now later next p₂ (next_deadline kept) kept s₂ in
      (
        p₃,
        ended ++ (offline ++ sent),
        if p₃.feature && ltb feature_time wake then feature_time else wake,
        simp (runs, ran, ran') refl,
        earlier p₃.feature wake sooner,
        (
          kept ++ extra,
          s₃,
          λ observer token. omega (
            arith,
            answered-append observer token ended (offline ++ sent),
            answered-append observer token offline sent,
            quiet observer token,
            quiet' observer token,
            waiting-append observer token kept extra,
            waiting-Silent observer token extra silent,
            waiting-expired observer token now ds,
            answered-end_effects observer token CallbackResult.generic_timeout (expired now ds),
          ),
        ),
      )
    where
      earlier :
          (feature : Bool) (wake : ℕ)
          → wake ≤ next_deadline (unexpired now ds)
          → (if feature && ltb feature_time wake then feature_time else wake)
            ≤ next_deadline (unexpired now ds)
      earlier feature wake sooner = ground (arith, sooner)
