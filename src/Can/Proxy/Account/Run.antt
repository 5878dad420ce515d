-- ===== src/Can/Proxy/Account/Run.antt =====
-- Any sequence of requests, transfers and time outs, and the end of a proxy.
use i2c.Prelude.{
  ℕ, ◌+◌, ◌≡◌, ◌⊎◌, refl, sym, ap, subst, ◌∙◌, Bool, true, false, Option, some, List, [], ◌∷◌, ◌++◌,
  arith, inl, inr,
}
use i2c.Can.Transfer.{RxTransfer}
use i2c.Can.Proxy.State.{Environment, ProxyRequestDescriptor, CanProxy, Effect, is_valid, tell}
use i2c.Can.Proxy.Receive.{on_message_received}
use i2c.Can.Proxy.Expiry.{CallbackResult, on_timeout_occurred, purge_request_descriptors}
use i2c.Can.Proxy.Purge.{purge_request_descriptors_lem, end_effects}
use i2c.Can.Proxy.Sound.{Sound}
use i2c.Can.Proxy.Ask.{
  Question, ask_field_info, ask_field, ask_field_write, ask_file_info, ask_file_read,
  ask_file_write, failure, Ready, ask, Queued, Refused, Beyond, asked_request,
}
use i2c.Core.{Result}
use i2c.Can.Proxy.Ask.Each.{delegated, ask-Sound}
use i2c.Can.Proxy.Respond.Counts.{
  concerns, answered, waiting, answered-append, waiting-append, answered-tell, answered-end_effects,
}
use i2c.Can.Proxy.Respond.Step.{Described}
use i2c.Can.Proxy.Account.{Balanced, no_more, Balanced-of}
use i2c.Can.Proxy.Account.Received.{on_message_received-Balanced}
use i2c.Can.Proxy.Account.Timeout.{on_timeout_occurred-Balanced, running}

-- The requests of a client among those that were made, with their observers and tokens.
abbrev pub made_by : ℕ → ℕ → List (Option ℕ × ℕ) → ℕ
made_by observer token [] = 0
made_by observer token (request ∷ requests) =
    concerns observer token request.0 request.1 + made_by observer token requests

made_by-append :
    (observer token : ℕ) (first second : List (Option ℕ × ℕ))
    → made_by observer token (first ++ second)
      ≡ made_by observer token first + made_by observer token second
made_by-append observer token [] second = omega arith
made_by-append observer token (r ∷ first) second =
    omega (arith, made_by-append observer token first second)

-- The states that a proxy can come to, with the requests that were made of it and its calls since.
pub data Run (e : Environment) (start : CanProxy)
    : CanProxy → List (Option ℕ × ℕ) → List Effect → Type 0 where
  begins : Run e start start [] []
  asks :
      {p p' : CanProxy} {requests : List (Option ℕ × ℕ)} {effects new : List Effect}
      → Run e start p requests effects
      → (now : ℕ) (q : Question) (observer : Option ℕ) (token : ℕ) → Ready p q
      → ask e now q observer token p ≡ some (p', new)
      → Run e start p' (requests ++ (observer, token) ∷ []) (effects ++ new)
  receives :
      {p p' : CanProxy} {requests : List (Option ℕ × ℕ)} {effects new : List Effect}
      → Run e start p requests effects
      → (master_address now later : ℕ) (t : RxTransfer) → Described e t
      → is_valid p ≡ true
      → on_message_received e master_address now later t p ≡ some (p', new)
      → Run e start p' requests (effects ++ new)
  expires :
      {p p' : CanProxy} {requests : List (Option ℕ × ℕ)} {effects new : List Effect}
      → Run e start p requests effects
      → (now later : ℕ) (next : Bool) (feature_time wake : ℕ)
      → on_timeout_occurred e now later next feature_time p ≡ some (p', new, wake)
      → Run e start p' requests (effects ++ new)

answered-delegated :
    (observer token : ℕ) (q : Question) (p : CanProxy) (observer' : Option ℕ) (token' : ℕ)
    → Beyond p q
    → answered observer token (delegated q p.info.fields observer' token')
      ≡ concerns observer token observer' token'
answered-delegated observer token (ask_field_info field) p observer' token' far = omega arith
answered-delegated observer token (ask_field field) p observer' token' far = omega arith
answered-delegated observer token (ask_field_write field value) p observer' token' far = omega arith
answered-delegated observer token (ask_file_info file flags) p observer' token' far = absurd far
answered-delegated observer token (ask_file_read file offset size) p observer' token' far =
    absurd far
answered-delegated observer token (ask_file_write file offset bytes) p observer' token' far =
    absurd far

-- A call that tells a client of its failure is its one answer.
answered-failure :
    (o k : ℕ) (q : Question) (result : Result) (observer : Option ℕ) (token : ℕ)
    (effects : List Effect)
    → effects ≡ tell observer token (failure q result)
    → answered o k effects ≡ concerns o k observer token
answered-failure o k q result observer token effects told =
    ap (answered o k) told ∙ answered-tell o k observer token (failure q result)

module _ (e : Environment) where
  -- A request is answered at once, given to the feature, or waits.
  ask-Balanced :
      (now : ℕ) (q : Question) (observer : Option ℕ) (token : ℕ) (p : CanProxy)
      (ds : List ProxyRequestDescriptor)
      → Sound e p ds
      → Ready p q
      → (r : CanProxy × List Effect) × (ask e now q observer token p ≡ some r)
        × Balanced e ds (λ o k. concerns o k observer token) r
  ask-Balanced now q observer token p ds s ready =
      let (p', effects, ds', ran, sound, outcome) = ask-Sound e now q observer token p ds s ready in
      ((p', effects), ran, (ds', sound, balance effects ds' p' outcome))
    where
      balance :
          (effects : List Effect) (ds' : List ProxyRequestDescriptor) (p' : CanProxy)
          → Queued e now q observer token p p' ds ds' effects
            ⊎ ((p' ≡ p)
                × (ds' ≡ ds)
                × (Refused e q observer token p ds effects
                    ⊎ (Beyond p q
                        × (((p.feature ≡ false)
                              × (effects ≡ tell observer token (failure q Result.field_not_found)))
                            ⊎ ((p.feature ≡ true)
                                × (effects ≡ delegated q p.info.fields observer token))))))
          → (o k : ℕ)
          → answered o k effects + waiting o k ds' ≡ waiting o k ds + concerns o k observer token
      balance effects ds' p' (inl queued) o k =
          let d = asked_request e now q observer token p in
          let more : waiting o k ds' ≡ waiting o k (ds ++ d ∷ []) = ap (waiting o k) queued.waits in
          let none_yet : answered o k effects ≡ 0 = ap (answered o k) queued.sent in
          omega (arith, more, none_yet, waiting-append o k ds (d ∷ []))
      balance effects ds' p' (inr (same, kept, how)) o k =
          let none_new : waiting o k ds' ≡ waiting o k ds = ap (waiting o k) kept in
          let one : answered o k effects ≡ concerns o k observer token = elim how [
            | inl (own, inl (missing, told)) ↦
                answered-failure o k q Result.command_error observer token effects told
            | inl (own, inr (connected, full, told)) ↦
                answered-failure o k q Result.queue_error observer token effects told
            | inr (far, inl (missing, told)) ↦
                answered-failure o k q Result.field_not_found observer token effects told
            | inr (far, inr (special, given)) ↦
                ap (answered o k) given ∙ answered-delegated o k q p observer token far
          ] in
          omega (arith, none_new, one)

  -- Along any run, the proxy stays sound, and for every observer and token, the answers and the requests that
  -- wait are as many as the requests that were made.
  pub Run-Balanced :
      {start p : CanProxy} {requests : List (Option ℕ × ℕ)} {effects : List Effect}
      → Sound e start []
      → Run e start p requests effects
      → (ds : List ProxyRequestDescriptor) × Sound e p ds
        × ((observer token : ℕ)
            → answered observer token effects + waiting observer token ds
              ≡ made_by observer token requests)
  Run-Balanced {start} {p} s begins = ([], s, λ observer token. refl)
  Run-Balanced {start} {p = after} s
        (asks {p} {requests} {effects} {new} run now q observer token ready ran) =
      let (ds, sound, balance) = Run-Balanced s run in
      let (ds', sound', balance') =
        Balanced-of e ds (λ o k. concerns o k observer token) _ (after, new)
          (ask-Balanced now q observer token p ds sound ready) ran in
      (
        ds',
        sound',
        λ o k. omega (
          arith,
          balance o k,
          balance' o k,
          answered-append o k effects new,
          made_by-append o k requests ((observer, token) ∷ []),
        ),
      )
  Run-Balanced {start} {p = after} s
        (receives {p} {requests} {effects} {new} run master_address now later t described valid
          ran) =
      let (ds, sound, balance) = Run-Balanced s run in
      let (ds', sound', balance') =
        Balanced-of e ds no_more _ (after, new)
          (on_message_received-Balanced e master_address now later t p ds sound described valid)
          ran in
      (
        ds',
        sound',
        λ o k. omega (arith, balance o k, balance' o k, answered-append o k effects new),
      )
  Run-Balanced {start} {p = after} s
        (expires {p} {requests} {effects} {new} run now later next feature_time wake ran) =
      let (ds, sound, balance) = Run-Balanced s run in
      let (q, effects', wake', ran', sooner, balanced) =
        on_timeout_occurred-Balanced e now later next feature_time p ds sound
          (running e now later next feature_time p (after, new, wake) ran) in
      let found : CanProxy × List Effect × ℕ = (q, effects', wake') in
      let given : CanProxy × List Effect × ℕ = (after, new, wake) in
      let both : some found ≡ some given = sym ran' ∙ ran in
      let same : q ≡ after = cc in
      let same' : effects' ≡ new = cc in
      let (ds', sound', balance') =
        subst (λ x. Balanced e ds no_more (x, new)) same
          (subst (λ x. Balanced e ds no_more (q, x)) same' balanced) in
      (
        ds',
        sound',
        λ o k. omega (arith, balance o k, balance' o k, answered-append o k effects new),
      )

  -- When a proxy goes after any run, every request that was made of it has been answered once, or was given
  -- to the feature.
  pub Run-answered :
      {start p : CanProxy} {requests : List (Option ℕ × ℕ)} {effects : List Effect}
      → Sound e start []
      → Run e start p requests effects
      → (p' : CanProxy) × (ended : List Effect) × (purge_request_descriptors e p ≡ some (p', ended))
        × Sound e p' []
        × ((observer token : ℕ)
            → answered observer token (effects ++ ended) ≡ made_by observer token requests)
  Run-answered {start} {p} {requests} {effects} s run =
      let (ds, sound, balance) = Run-Balanced s run in
      let (pool, links, ran, sound') = purge_request_descriptors_lem e p ds sound in
      (
        record p { requests = links; pool = pool },
        end_effects CallbackResult.component_detached ds,
        ran,
        sound',
        λ o k. omega (
          arith,
          balance o k,
          answered-append o k effects (end_effects CallbackResult.component_detached ds),
          answered-end_effects o k CallbackResult.component_detached ds,
        ),
      )
