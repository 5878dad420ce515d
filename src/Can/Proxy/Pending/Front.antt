-- ===== src/Can/Proxy/Pending/Front.antt =====
-- The first of the requests that wait.
use i2c.Prelude.{
  ℕ, ◌≡◌, refl, sym, ap, subst, ◌∙◌, Option, none, some, List, [], ◌∷◌, ◌++◌, get_elem?, ◌>>=◌,
}
use i2c.Pool.{RequestPool}
use i2c.Pool.Ownership.{free-Owns}
use i2c.Linked.{LinkedList}
use i2c.Linked.Chain.{Chain, IsList}
use i2c.Linked.Erase.Nodes.{erase_node-IsList}
use i2c.Can.Proxy.State.{Environment, ProxyRequestDescriptor, CanProxy, Effect}
use i2c.Can.Proxy.Expiry.{
  CallbackResult, front_request, front, invoke_observer_callback, end_request,
}
use i2c.Can.Proxy.Pending.{Filled, Holds, Pending}

module _ (e : Environment) where
  -- Without requests, the list is empty.
  pub Pending-none : (p : CanProxy) → Pending e p [] → front p ≡ some none
  unfolding front front_request
  Pending-none p (unused, [], nodes, h) =
      ap (λ f. front_request f p.requests p.pool.pool) (first nodes p.requests.first h.listed.chain)
    where
      first :
          (nodes : List ℕ) (from : Option ℕ)
          → Chain p.requests.links p.requests.values from nodes []
          → from ≡ none
      first [] none c = refl
      first [] (some i) c = absurd c
      first (n ∷ nodes) none c = absurd c
      first (n ∷ nodes) (some i) c = absurd c
  Pending-none p (unused, i ∷ waiting, nodes, h) = absurd h.filled

  -- The first request, with its node and its index.
  abbrev Front : CanProxy → ℕ → ℕ → ProxyRequestDescriptor → Type 0
  Front p node i d = front p ≡ some (some (node, i, d))

  front_lem :
      (p : CanProxy) (node i : ℕ) (d : ProxyRequestDescriptor)
      → p.requests.first ≡ some node
      → get_elem? p.requests.values node ≡ some i
      → get_elem? p.pool.pool i ≡ some d
      → Front p node i d
  unfolding front front_request
  front_lem p node i d first value at =
      ap (λ f. front_request f p.requests p.pool.pool) first
      ∙ ap (λ v. v >>= λ j. get_elem? p.pool.pool j >>= λ d'. some (some (node, j, d'))) value
      ∙ ap (λ v. v >>= λ d'. some (some (node, i, d'))) at

  first_request :
      (p : CanProxy) (d : ProxyRequestDescriptor) (ds : List ProxyRequestDescriptor) (i : ℕ)
      (waiting nodes : List ℕ) (unused : List ℕ)
      → Holds e p unused (i ∷ waiting) nodes (d ∷ ds)
      → (node : ℕ) × (rest : List ℕ) × (nodes ≡ node ∷ rest) × Front p node i d
  first_request p d ds i waiting nodes unused h =
      from_chain p.requests.first nodes refl h.listed.chain
    where
      from_chain :
          (from : Option ℕ) (ns : List ℕ)
          → p.requests.first ≡ from
          → Chain p.requests.links p.requests.values from ns (i ∷ waiting)
          → (node : ℕ) × (rest : List ℕ) × (ns ≡ node ∷ rest) × Front p node i d
      from_chain none [] is c = absurd c
      from_chain none (n ∷ ns) is c = absurd c
      from_chain (some m) [] is c = absurd c
      from_chain (some m) (n ∷ ns) is (next, same, at, linked, c) =
          (n, ns, refl, front_lem p n i d (is ∙ ap some same) at h.filled.0)

  -- The first request leaves the proxy.
  pub end_request-Pending :
      (p : CanProxy) (d : ProxyRequestDescriptor) (ds : List ProxyRequestDescriptor)
      → Pending e p (d ∷ ds)
      → (node : ℕ) × (i : ℕ) × (front p ≡ some (some (node, i, d)))
        × ((r : CallbackResult) (effects : List Effect)
            → invoke_observer_callback r d ≡ some effects
            → (pool : RequestPool ProxyRequestDescriptor) × (requests : LinkedList ℕ) × (end_request
                  e r node i d p
                ≡ some (record p { requests = requests; pool = pool }, effects))
              × Pending e (record p { requests = requests; pool = pool }) ds)
  unfolding end_request
  end_request-Pending p d ds (unused, [], nodes, h) = absurd h.filled
  end_request-Pending p d ds (unused, i ∷ waiting, nodes, h) =
      let (node, rest, same, front) = first_request p d ds i waiting nodes unused h in
      (node, i, front, λ r effects told. ended node rest same r effects told)
    where
      ended :
          (node : ℕ) (rest : List ℕ)
          → nodes ≡ node ∷ rest
          → (r : CallbackResult) (effects : List Effect)
          → invoke_observer_callback r d ≡ some effects
          → (pool : RequestPool ProxyRequestDescriptor) × (requests : LinkedList ℕ) × (end_request e
                r node i d p
              ≡ some (record p { requests = requests; pool = pool }, effects))
            × Pending e (record p { requests = requests; pool = pool }) ds
      ended node rest same r effects told =
          let listed =
            subst (λ ns. IsList e.max_request_count p.requests ns (i ∷ waiting)) same h.listed in
          let (requests, erased, listed') =
            erase_node-IsList e.max_request_count p.requests [] node rest [] i waiting listed
              refl in
          let (pool, freed, owns, kept) =
            free-Owns e.max_request_count (λ d. d.refs) d p.pool i unused [] waiting h.owns
              h.filled.0 h.unshared.0 in
          (
            pool,
            requests,
            rw (erased, told, freed) refl,
            (
              unused ++ i ∷ [],
              waiting,
              rest,
              record {
                owns = owns;
                listed = listed';
                filled = subst (λ ps. Filled ps waiting ds) (sym kept) h.filled.1;
                unshared = h.unshared.1;
              },
            ),
          )
