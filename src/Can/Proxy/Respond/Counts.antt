-- ===== src/Can/Proxy/Respond/Counts.antt =====
-- How often a client's request is answered, and how often it waits.
use i2c.Prelude.{
  ℕ, ◌+◌, ◌≡◌, refl, ◌∙◌, ◌&&◌, Option, none, some, List, [], ◌∷◌, ◌++◌, arith, ◌==◌, if◌then◌else◌,
}
use i2c.Device.{Event}
use i2c.Can.Proxy.State.{
  ProxyRequestDescriptor, Effect, notify, feature_request_info, feature_read, feature_write, tell,
}
use i2c.Can.Proxy.Expiry.{CallbackResult}
use i2c.Can.Proxy.Purge.{end_effects}
use i2c.Can.Proxy.Sound.{ended_event}

-- A call concerns the observer and the token of a client.
abbrev pub concerns : ℕ → ℕ → Option ℕ → ℕ → ℕ
concerns observer token none token' = 0
concerns observer token (some observer') token' =
    if observer' == observer && (token' == token) then 1 else 0

-- An effect answers the client, or gives its request to the feature.
abbrev pub answered_by : ℕ → ℕ → Effect → ℕ
answered_by observer token (notify observer' token' event) =
    concerns observer token (some observer') token'
answered_by observer token (feature_request_info field observer' token') =
    concerns observer token observer' token'
answered_by observer token (feature_read field observer' token') =
    concerns observer token observer' token'
answered_by observer token (feature_write field value observer' token') =
    concerns observer token observer' token'
answered_by observer token _ = 0

abbrev pub answered : ℕ → ℕ → List Effect → ℕ
answered observer token [] = 0
answered observer token (effect ∷ effects) =
    answered_by observer token effect + answered observer token effects

abbrev pub waiting : ℕ → ℕ → List ProxyRequestDescriptor → ℕ
waiting observer token [] = 0
waiting observer token (d ∷ ds) =
    concerns observer token d.observer d.token + waiting observer token ds

pub answered-append :
    (observer token : ℕ) (first second : List Effect)
    → answered observer token (first ++ second)
      ≡ answered observer token first + answered observer token second
answered-append observer token [] second = omega arith
answered-append observer token (x ∷ first) second =
    omega (arith, answered-append observer token first second)

pub waiting-append :
    (observer token : ℕ) (first second : List ProxyRequestDescriptor)
    → waiting observer token (first ++ second)
      ≡ waiting observer token first + waiting observer token second
waiting-append observer token [] second = omega arith
waiting-append observer token (d ∷ first) second =
    omega (arith, waiting-append observer token first second)

pub answered-tell :
    (observer token : ℕ) (observer' : Option ℕ) (token' : ℕ) (event : Event)
    → answered observer token (tell observer' token' event)
      ≡ concerns observer token observer' token'
answered-tell observer token none token' event = refl
answered-tell observer token (some observer') token' event = omega arith

-- The ends of requests answer each of them once.
pub answered-end_effects :
    (observer token : ℕ) (r : CallbackResult) (ds : List ProxyRequestDescriptor)
    → answered observer token (end_effects r ds) ≡ waiting observer token ds
answered-end_effects observer token r [] = refl
answered-end_effects observer token r (d ∷ ds) =
    let event = ended_event r d in
    (answered-append observer token (tell d.observer d.token event) (end_effects r ds)
      ∙ omega (
        arith,
        answered-tell observer token d.observer d.token event,
        answered-end_effects observer token r ds,
      ))
