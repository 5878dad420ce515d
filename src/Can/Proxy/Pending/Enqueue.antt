-- ===== src/Can/Proxy/Pending/Enqueue.antt =====
-- A request that is added to those that wait.
use i2c.Prelude.{ℕ, ◌<◌, ◌≡◌, refl, true, false, some, List, [], ◌∷◌, ◌++◌, arith, length}
use i2c.Pool.{RequestPool}
use i2c.Pool.Ownership.{alloc-Owns, alloc_empty, Owns-last}
use i2c.Linked.{LinkedList}
use i2c.Linked.Push.{push_back-IsList}
use i2c.Can.Proxy.State.{Environment, ProxyRequestDescriptor, CanProxy, enqueue}
use i2c.Can.Proxy.Pending.{
  Holds, Pending, Chain-length, Filled-length, Filled-change, Filled-append, All-append,
}

module _ (e : Environment) where
  -- With room, a request waits behind the others.
  pub enqueue-Holds :
      (d : ProxyRequestDescriptor) (p : CanProxy) (unused waiting nodes : List ℕ)
      (ds : List ProxyRequestDescriptor)
      → Holds e p unused waiting nodes ds
      → d.refs ≡ 0
      → length ds < e.max_request_count
      → (pool : RequestPool ProxyRequestDescriptor) × (requests : LinkedList ℕ) × (enqueue e d p
          ≡ some (true, record p { pool = pool; requests = requests }))
        × (x : ℕ) × (unused' : List ℕ) × (nodes' : List ℕ) × Holds e
            (record p { pool = pool; requests = requests })
            unused'
            (waiting ++ x ∷ [])
            nodes'
            (ds ++ d ∷ [])
  unfolding enqueue
  enqueue-Holds d p [] waiting nodes ds h unshared room =
      absurd (omega (arith, h.owns.all, Filled-length p.pool.pool waiting ds h.filled, room))
  enqueue-Holds d p (x ∷ unused) waiting nodes ds h unshared room =
      let (pool, ran, owns, fresh, new, others) =
        alloc-Owns e.max_request_count d p.pool x unused waiting h.owns in
      let (requests, node, pushed, listed) =
        push_back-IsList e.max_request_count p.requests nodes waiting x h.listed (
          omega (
            arith,
            h.owns.all,
            Chain-length p.requests.links p.requests.values p.requests.first nodes waiting
                h.listed.chain,
          )) in
      (
        pool,
        requests,
        rw (ran, pushed) refl,
        x,
        unused,
        nodes ++ node ∷ [],
        record {
          owns = Owns-last e.max_request_count pool x unused waiting owns;
          listed = listed;
          filled =
              Filled-append pool.pool waiting ds x d
                (Filled-change p.pool.pool pool.pool x waiting ds fresh others h.filled) new;
          unshared = All-append (λ d. d.refs ≡ 0) ds (d ∷ []) h.unshared (unshared, tt);
        },
      )

  pub enqueue-Pending :
      (d : ProxyRequestDescriptor) (p : CanProxy) (ds : List ProxyRequestDescriptor)
      → Pending e p ds
      → d.refs ≡ 0
      → length ds < e.max_request_count
      → (pool : RequestPool ProxyRequestDescriptor) × (requests : LinkedList ℕ) × (enqueue e d p
          ≡ some (true, record p { pool = pool; requests = requests }))
        × Pending e (record p { pool = pool; requests = requests }) (ds ++ d ∷ [])
  enqueue-Pending d p ds (unused, waiting, nodes, h) unshared room =
      let (pool, requests, ran, x, unused', nodes', h') =
        enqueue-Holds d p unused waiting nodes ds h unshared room in
      (pool, requests, ran, (unused', waiting ++ x ∷ [], nodes', h'))

  -- Without room, nothing changes.
  pub enqueue_full :
      (d : ProxyRequestDescriptor) (p : CanProxy) (ds : List ProxyRequestDescriptor)
      → Pending e p ds
      → length ds ≡ e.max_request_count
      → enqueue e d p ≡ some (false, p)
  unfolding enqueue
  enqueue_full d p ds (x ∷ unused, waiting, nodes, h) full =
      absurd (omega (arith, h.owns.all, Filled-length p.pool.pool waiting ds h.filled, full))
  enqueue_full d p ds ([], waiting, nodes, h) full =
      rw (alloc_empty e.max_request_count d p.pool waiting h.owns) refl
