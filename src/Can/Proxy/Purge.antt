-- ===== src/Can/Proxy/Purge.antt =====
-- The ends of requests without an answer: all of them when a proxy goes, and those that have timed out.
use i2c.Prelude.{
  ℕ, zero, suc, ◌+◌, ◌≤◌, ◌<◌, ◌≡◌, refl, ap, some, List, [], ◌∷◌, ◌++◌, arith, length, All,
  Bool-cases, inl, inr, ltb, ltb_iff, if◌then◌else◌,
}
use i2c.Pool.{RequestPool}
use i2c.Linked.{LinkedList}
use i2c.Can.Proxy.State.{Environment, ProxyRequestDescriptor, CanProxy, Effect, time_max, tell}
use i2c.Can.Proxy.Expiry.{
  CallbackResult, purge_rounds, purge_request_descriptors, purge_timed_out_rounds,
  purge_timed_out_descriptors,
}
use i2c.Can.Proxy.Pending.{Pending, Filled-length}
use i2c.Can.Proxy.Pending.Front.{Pending-none, end_request-Pending}
use i2c.Can.Proxy.Sound.{Fits, Sound, invoke_observer_callback_lem, ended_event}

-- The calls that end requests, in order: one for each request that has an observer.
abbrev pub end_effects : CallbackResult → List ProxyRequestDescriptor → List Effect
end_effects r [] = []
end_effects r (d ∷ ds) = tell d.observer d.token (ended_event r d) ++ end_effects r ds

-- The requests at the front that have timed out, and those behind them.
abbrev pub expired : ℕ → List ProxyRequestDescriptor → List ProxyRequestDescriptor
expired now [] = []
expired now (d ∷ ds) = let later = expired now ds in if ltb now d.deadline then [] else d ∷ later

abbrev pub unexpired : ℕ → List ProxyRequestDescriptor → List ProxyRequestDescriptor
unexpired now [] = []
unexpired now (d ∷ ds) =
    let later = unexpired now ds in if ltb now d.deadline then d ∷ ds else later

-- The deadline of the first request.
abbrev pub next_deadline : List ProxyRequestDescriptor → ℕ
next_deadline [] = time_max
next_deadline (d ∷ ds) = d.deadline

module _ (e : Environment) where
  -- The capacity bounds the requests.
  pub Pending-bounds :
      (p : CanProxy) (ds : List ProxyRequestDescriptor)
      → Pending e p ds
      → (length ds ≤ e.max_request_count) × (length p.requests.values ≡ e.max_request_count)
  Pending-bounds p ds (unused, waiting, nodes, h) = (
    omega (arith, h.owns.all, Filled-length p.pool.pool waiting ds h.filled),
    h.listed.values_sized,
  )

  purge_rounds_lem :
      (fields rounds : ℕ) (p : CanProxy) (ds : List ProxyRequestDescriptor)
      → Pending e p ds
      → All (λ d. Fits fields d.service d.context) ds
      → length ds < rounds
      → (pool : RequestPool ProxyRequestDescriptor) × (requests : LinkedList ℕ) × (purge_rounds e
            rounds p
          ≡ some (
            record p { requests = requests; pool = pool },
            end_effects CallbackResult.component_detached ds,
          ))
        × Pending e (record p { requests = requests; pool = pool }) []
  unfolding purge_rounds
  purge_rounds_lem fields zero p ds h fits enough = absurd (omega (arith, enough))
  purge_rounds_lem fields (suc rounds) p [] h fits enough =
      (p.pool, p.requests, rw (Pending-none e p h) refl, h)
  purge_rounds_lem fields (suc rounds) p (d ∷ ds) h fits enough =
      let (node, i, first, ended) = end_request-Pending e p d ds h in
      let told = invoke_observer_callback_lem CallbackResult.component_detached fields d fits.0 in
      let (pool, requests, ran, h') = ended CallbackResult.component_detached _ told in
      let (pool', requests', ran', h'') =
        purge_rounds_lem fields rounds (record p { requests = requests; pool = pool }) ds h' fits.1
          (omega (arith, enough)) in
      (pool', requests', rw (first, ran, ran') refl, h'')

  -- When a proxy goes, each request that waits is ended, in order, and no request is left.
  pub purge_request_descriptors_lem :
      (p : CanProxy) (ds : List ProxyRequestDescriptor)
      → Sound e p ds
      → (pool : RequestPool ProxyRequestDescriptor) × (requests : LinkedList ℕ)
        × (purge_request_descriptors e p
            ≡ some (
              record p { requests = requests; pool = pool },
              end_effects CallbackResult.component_detached ds,
            ))
        × Sound e (record p { requests = requests; pool = pool }) []
  unfolding purge_request_descriptors
  purge_request_descriptors_lem p ds s =
      let (bound, sized) = Pending-bounds p ds s.pending in
      let (pool, requests, ran, h) =
        purge_rounds_lem p.info.fields (length p.requests.values + 1) p ds s.pending s.fitting
          (omega (arith, bound, sized)) in
      (
        pool,
        requests,
        ran,
        record {
          pending = h;
          fitting = tt;
          known = s.known;
          small = s.small;
          progress = s.progress;
          named = s.named;
        },
      )

  purge_timed_out_rounds_lem :
      (fields now rounds : ℕ) (p : CanProxy) (ds : List ProxyRequestDescriptor)
      → Pending e p ds
      → All (λ d. Fits fields d.service d.context) ds
      → length ds < rounds
      → (pool : RequestPool ProxyRequestDescriptor) × (requests : LinkedList ℕ)
        × (purge_timed_out_rounds e rounds now p
            ≡ some (
              record p { requests = requests; pool = pool },
              end_effects CallbackResult.generic_timeout (expired now ds),
              next_deadline (unexpired now ds),
            ))
        × Pending e (record p { requests = requests; pool = pool }) (unexpired now ds)
        × All (λ d. Fits fields d.service d.context) (unexpired now ds)
  unfolding purge_timed_out_rounds
  purge_timed_out_rounds_lem fields now zero p ds h fits enough = absurd (omega (arith, enough))
  purge_timed_out_rounds_lem fields now (suc rounds) p [] h fits enough =
      (p.pool, p.requests, rw (Pending-none e p h) refl, h, tt)
  purge_timed_out_rounds_lem fields now (suc rounds) p (d ∷ ds) h fits enough =
      let (node, i, first, ended) = end_request-Pending e p d ds h in
      elim (Bool-cases (ltb now d.deadline)) [
        | inl waits ↦ (p.pool, p.requests, rw (first, waits) refl, rw waits h, rw waits fits)
        | inr late ↦
            let told =
              invoke_observer_callback_lem CallbackResult.generic_timeout fields d fits.0 in
            let (pool, requests, ran, h') = ended CallbackResult.generic_timeout _ told in
            let (pool', requests', ran', h'', fits') =
              purge_timed_out_rounds_lem fields now rounds
                (record p { requests = requests; pool = pool }) ds h' fits.1
                (omega (arith, enough)) in
            (pool', requests', rw (first, late, ran, ran') refl, rw late h'', rw late fits')
      ]

  -- A clean-up ends the requests at the front that have timed out, in order, each with one call of its
  -- observer, if there is one, that names its field or file and the time out; it wakes up at the deadline of
  -- the first request that is left, or at the greatest time.
  pub purge_timed_out_descriptors_lem :
      (now : ℕ) (p : CanProxy) (ds : List ProxyRequestDescriptor)
      → Sound e p ds
      → (pool : RequestPool ProxyRequestDescriptor) × (requests : LinkedList ℕ)
        × (purge_timed_out_descriptors e now p
            ≡ some (
              record p { requests = requests; pool = pool },
              end_effects CallbackResult.generic_timeout (expired now ds),
              next_deadline (unexpired now ds),
            ))
        × Sound e (record p { requests = requests; pool = pool }) (unexpired now ds)
  unfolding purge_timed_out_descriptors
  purge_timed_out_descriptors_lem now p ds s =
      let (bound, sized) = Pending-bounds p ds s.pending in
      let (pool, requests, ran, h, fits) =
        purge_timed_out_rounds_lem p.info.fields now (length p.requests.values + 1) p ds s.pending
          s.fitting (omega (arith, bound, sized)) in
      (
        pool,
        requests,
        ran,
        record {
          pending = h;
          fitting = fits;
          known = s.known;
          small = s.small;
          progress = s.progress;
          named = s.named;
        },
      )

-- Deadlines in order, as requests with one timeout have them.
abbrev pub Ordered : List ProxyRequestDescriptor → Type 0
Ordered [] = Unit
Ordered (d ∷ ds) = All (λ d'. d.deadline ≤ d'.deadline) ds × Ordered ds

-- With deadlines in order, every request that is left is still in time, and every one that was ended was
-- not.
pub expired_lem :
    (now : ℕ) (ds : List ProxyRequestDescriptor)
    → Ordered ds
    → (ds ≡ expired now ds ++ unexpired now ds)
      × All (λ d. d.deadline ≤ now) (expired now ds)
      × All (λ d. now < d.deadline) (unexpired now ds)
expired_lem now [] ordered = (refl, tt, tt)
expired_lem now (d ∷ ds) ordered = elim (Bool-cases (ltb now d.deadline)) [
  | inl waits ↦
      let early : now < d.deadline = (ltb_iff now d.deadline).0 waits in
      rw waits (refl, tt, (early, later now d ds early ordered.0))
  | inr late ↦
      let (split, ended, left) = expired_lem now ds ordered.1 in
      rw late (ap (λ xs. d ∷ xs) split, (ground (arith, late), ended), left)
]
  where
    later :
        (now : ℕ) (d : ProxyRequestDescriptor) (ds : List ProxyRequestDescriptor)
        → now < d.deadline
        → All (λ d'. d.deadline ≤ d'.deadline) ds
        → All (λ d'. now < d'.deadline) ds
    later now d [] early ordered = tt
    later now d (d' ∷ ds) early ordered =
        let bound = ordered.0 in (omega (arith, early, bound), later now d ds early ordered.1)
