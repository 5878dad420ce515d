-- ===== src/Can/Proxy/Pending/Leave.antt =====
-- A request that was answered leaves the proxy.
use i2c.Prelude.{
  ℕ, ◌<◌, ◌≡◌, refl, sym, ap, subst, true, false, some, List, [], ◌∷◌, ◌++◌, append_assoc, arith,
  length, get_elem?, All, ◌==◌,
}
use i2c.Pool.{RequestPool}
use i2c.Pool.Ownership.{occurrences, occurrences-append, free-Owns}
use i2c.Linked.{LinkedList}
use i2c.Linked.Chain.{IsList}
use i2c.Linked.Erase.Values.{erase-IsList, remove_first}
use i2c.Can.Proxy.State.{Environment, ProxyRequestDescriptor, CanProxy, enqueue}
use i2c.Can.Proxy.Receive.{release_request}
use i2c.Can.Proxy.Pending.{Filled, Holds, Pending}
use i2c.Can.Proxy.Pending.Enqueue.{enqueue-Holds}
use i2c.Can.Proxy.Pending.Find.{At}

remove_first-at :
    (first : List ℕ) (i : ℕ) (rest : List ℕ)
    → occurrences i first ≡ 0
    → remove_first (λ j. j == i) (first ++ i ∷ rest) ≡ first ++ rest
remove_first-at [] i rest away = let same : (i == i) ≡ true = ground arith in rw same refl
remove_first-at (j ∷ first) i rest away =
    let other : (j == i) ≡ false = ground (arith, away) in
    rw other (ap (λ xs. j ∷ xs) (remove_first-at first i rest (ground (arith, away))))

Filled-drop :
    (pool : List ProxyRequestDescriptor) (first : List ℕ) (i : ℕ) (rest : List ℕ)
    (before : List ProxyRequestDescriptor) (d : ProxyRequestDescriptor)
    (later : List ProxyRequestDescriptor)
    → length first ≡ length before
    → Filled pool (first ++ i ∷ rest) (before ++ d ∷ later)
    → (get_elem? pool i ≡ some d) × Filled pool (first ++ rest) (before ++ later)
Filled-drop pool [] i rest [] d later sized f = f
Filled-drop pool [] i rest (b ∷ before) d later sized f = absurd (omega (arith, sized))
Filled-drop pool (j ∷ first) i rest [] d later sized f = absurd (omega (arith, sized))
Filled-drop pool (j ∷ first) i rest (b ∷ before) d later sized f =
    let (at, kept) = Filled-drop pool first i rest before d later (omega (arith, sized)) f.1 in
    (at, (f.0, kept))

pub All-drop {ℓ κ} :
    {A : Type ℓ} (P : A → Type κ) (before : List A) (x : A) (later : List A)
    → All P (before ++ x ∷ later)
    → P x × All P (before ++ later)
All-drop P [] x later holds = holds
All-drop P (b ∷ before) x later holds =
    let (here, rest) = All-drop P before x later holds.1 in (here, (holds.0, rest))

module _ (e : Environment) where
  -- A request that another one joins keeps its place.
  pub enqueue-At :
      (new : ProxyRequestDescriptor) (p : CanProxy) (before : List ProxyRequestDescriptor) (i : ℕ)
      (d : ProxyRequestDescriptor) (later : List ProxyRequestDescriptor)
      → At e p before i d later
      → new.refs ≡ 0
      → length (before ++ d ∷ later) < e.max_request_count
      → (pool : RequestPool ProxyRequestDescriptor) × (requests : LinkedList ℕ) × (enqueue e new p
          ≡ some (true, record p { pool = pool; requests = requests }))
        × At e (record p { pool = pool; requests = requests }) before i d (later ++ new ∷ [])
  enqueue-At new p before i d later (unused, first, rest, nodes, h, sized) unshared room =
      let (pool, requests, ran, x, unused', nodes', h') =
        enqueue-Holds e new p unused (first ++ i ∷ rest) nodes (before ++ d ∷ later) h unshared
          room in
      (
        pool,
        requests,
        ran,
        (
          unused',
          first,
          rest ++ x ∷ [],
          nodes',
          subst
              (λ xs.
                Holds e (record p { pool = pool; requests = requests }) unused' xs nodes'
                  (before ++ d ∷ (later ++ new ∷ [])))
              (append_assoc first (i ∷ rest) (x ∷ []))
              (subst
                (Holds e (record p { pool = pool; requests = requests }) unused'
                  ((first ++ i ∷ rest) ++ x ∷ []) nodes')
                (append_assoc before (d ∷ later) (new ∷ [])) h'),
          sized,
        ),
      )

  -- The request that was answered leaves the proxy, the others stay in their order.
  pub release_request-Pending :
      (p : CanProxy) (before : List ProxyRequestDescriptor) (i : ℕ) (d : ProxyRequestDescriptor)
      (later : List ProxyRequestDescriptor)
      → At e p before i d later
      → (pool : RequestPool ProxyRequestDescriptor) × (requests : LinkedList ℕ) × (release_request e
            (some i)
            p
          ≡ some (record p { requests = requests; pool = pool }))
        × Pending e (record p { requests = requests; pool = pool }) (before ++ later)
  unfolding release_request
  release_request-Pending p before i d later (unused, first, rest, nodes, h, sized) =
      let (at, filled) = Filled-drop p.pool.pool first i rest before d later sized h.filled in
      let (zero_refs, unshared) = All-drop (λ d. d.refs ≡ 0) before d later h.unshared in
      let (requests, nodes', erased, listed) =
        erase-IsList ◌==◌ i e.max_request_count p.requests nodes (first ++ i ∷ rest) h.listed in
      let (pool, freed, owns, kept) =
        free-Owns e.max_request_count (λ d. d.refs) d p.pool i unused first rest h.owns at
          zero_refs in
      (
        pool,
        requests,
        rw (erased, freed) refl,
        (
          unused ++ i ∷ [],
          first ++ rest,
          nodes',
          record {
            owns = owns;
            listed =
                subst (IsList e.max_request_count requests nodes')
                  (remove_first-at first i rest
                    (ground (arith, h.owns.once i, occurrences-append i first (i ∷ rest))))
                  listed;
            filled = subst (λ ps. Filled ps (first ++ rest) (before ++ later)) (sym kept) filled;
            unshared = unshared;
          },
        ),
      )
