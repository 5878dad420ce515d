-- ===== src/Can/Proxy/Account.antt =====
-- The account of a proxy's requests, over messages of the device and over time.
pub mod Message
pub mod Received
pub mod Timeout
pub mod Run
use i2c.Prelude.{
  ℕ, ◌+◌, ◌≡◌, refl, sym, ap, subst, ◌∙◌, Option, none, some, List, [], ◌∷◌, ◌++◌, arith,
}
use i2c.Can.Proxy.State.{Environment, ProxyRequestDescriptor, CanProxy, Effect}
use i2c.Can.Proxy.Sound.{Sound}
use i2c.Can.Proxy.Respond.Counts.{concerns, answered, waiting, waiting-append}
use i2c.Can.Proxy.Respond.Whole.{waiting-Silent, Ended, Unasked}

-- A step that ends with these effects, from the requests `ds` and for `more` new ones of each client: a
-- request is answered or waits, and never both.
abbrev pub Balanced :
    Environment → List ProxyRequestDescriptor → (ℕ → ℕ → ℕ) → CanProxy × List Effect → Type 0
Balanced e ds more r =
    (ds' : List ProxyRequestDescriptor) × Sound e r.0 ds'
    × ((observer token : ℕ)
        → answered observer token r.1 + waiting observer token ds'
          ≡ waiting observer token ds + more observer token)

abbrev pub no_more : ℕ → ℕ → ℕ
no_more observer token = 0

module _ (e : Environment) where
  pub Unasked-Balanced :
      (ds : List ProxyRequestDescriptor) (outcome : Option (CanProxy × List Effect))
      → Unasked e ds outcome
      → (r : CanProxy × List Effect) × (outcome ≡ some r) × Balanced e ds no_more r
  Unasked-Balanced ds outcome (p', effects, extra, ran, sound, silent, quiet) = (
    (p', effects),
    ran,
    (
      ds ++ extra,
      sound,
      λ observer token. omega (
        arith,
        quiet observer token,
        waiting-append observer token ds extra,
        waiting-Silent observer token extra silent,
      ),
    ),
  )

  pub Ended-Balanced :
      (before : List ProxyRequestDescriptor) (d : ProxyRequestDescriptor)
      (later : List ProxyRequestDescriptor) (outcome : Option (CanProxy × List Effect))
      → Ended e before d later outcome
      → (r : CanProxy × List Effect) × (outcome ≡ some r)
        × Balanced e (before ++ d ∷ later) no_more r
  Ended-Balanced before d later outcome (p', effects, extra, ran, sound, silent, count) = (
    (p', effects),
    ran,
    (
      before ++ (later ++ extra),
      sound,
      λ observer token. omega (
        arith,
        count observer token,
        waiting-append observer token before (later ++ extra),
        waiting-append observer token later extra,
        waiting-append observer token before (d ∷ later),
        waiting-Silent observer token extra silent,
      ),
    ),
  )

  -- What is known of a step's outcome is known of its result.
  pub Balanced-of :
      (ds : List ProxyRequestDescriptor) (more : ℕ → ℕ → ℕ)
      (outcome : Option (CanProxy × List Effect)) (r : CanProxy × List Effect)
      → (r' : CanProxy × List Effect) × (outcome ≡ some r') × Balanced e ds more r'
      → outcome ≡ some r
      → Balanced e ds more r
  Balanced-of ds more outcome r (r', ran, balanced) same =
      let both : some r' ≡ some r = sym ran ∙ same in
      let equal : r' ≡ r = cc in subst (Balanced e ds more) equal balanced
