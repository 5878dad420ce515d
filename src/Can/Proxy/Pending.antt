-- ===== src/Can/Proxy/Pending.antt =====
-- The requests of a proxy that wait for an answer: the pool and the list together stand for a list of
-- descriptors.
pub mod Enqueue
pub mod Front
pub mod Find
pub mod Leave
use i2c.Prelude.{
  ℕ, zero, suc, ◌+◌, ◌<◌, ◌≡◌, ◌≢◌, refl, sym, ap, subst, ◌∙◌, Bool, true, false, Option, none,
  some, List, [], ◌∷◌, ◌++◌, arith, length, length-append, get_elem?, All, inl, inr, Bool-cases,
  ◌==◌, ==_iff,
}
use i2c.Pool.{RequestPool, alloc, free}
use i2c.Pool.Ownership.{
  Owns, occurrences, occurrences-append, alloc-Owns, alloc_empty, free-Owns, Owns-last,
}
use i2c.Linked.{LinkedList, erase_node}
use i2c.Linked.Chain.{Chain, IsList}
use i2c.Linked.Push.{push_back-IsList}
use i2c.Linked.Erase.Nodes.{erase_node-IsList}
use i2c.Can.Proxy.State.{Environment, ProxyRequestDescriptor, CanProxy, enqueue, Effect}
use i2c.Can.Proxy.Expiry.{CallbackResult, invoke_observer_callback, end_request}

-- The indices point to the descriptors.
abbrev pub Filled : List ProxyRequestDescriptor → List ℕ → List ProxyRequestDescriptor → Type 0
Filled pool [] [] = Unit
Filled pool (i ∷ indices) (d ∷ ds) = (get_elem? pool i ≡ some d) × Filled pool indices ds
Filled pool _ _ = ⊥

-- The descriptors of `waiting` are handed out by the pool and linked in the list, in this order; they are
-- `ds`, and nobody shares them.
pub record Keeps (capacity : ℕ) (pool : RequestPool ProxyRequestDescriptor)
    (requests : LinkedList ℕ) (unused waiting nodes : List ℕ) (ds : List ProxyRequestDescriptor)
    : Type 0 where
  pub owns : Owns capacity pool unused waiting
  pub listed : IsList capacity requests nodes waiting
  pub filled : Filled pool.pool waiting ds
  pub unshared : All (λ d. d.refs ≡ 0) ds

abbrev pub Holds :
    Environment → CanProxy → List ℕ → List ℕ → List ℕ → List ProxyRequestDescriptor → Type 0
Holds e p unused waiting nodes ds =
    Keeps e.max_request_count p.pool p.requests unused waiting nodes ds

abbrev pub Pending : Environment → CanProxy → List ProxyRequestDescriptor → Type 0
Pending e p ds =
    (unused : List ℕ) × (waiting : List ℕ) × (nodes : List ℕ) × Holds e p unused waiting nodes ds

pub Chain-length :
    (links : List (Option ℕ)) (values : List ℕ) (from : Option ℕ) (nodes xs : List ℕ)
    → Chain links values from nodes xs
    → length nodes ≡ length xs
Chain-length links values none [] [] c = refl
Chain-length links values none [] (x ∷ xs) c = absurd c
Chain-length links values none (n ∷ nodes) xs c = absurd c
Chain-length links values (some i) [] xs c = absurd c
Chain-length links values (some i) (n ∷ nodes) [] c = absurd c
Chain-length links values (some i) (n ∷ nodes) (x ∷ xs) (next, same, at, linked, c) =
    ap suc (Chain-length links values next nodes xs c)

pub Filled-length :
    (pool : List ProxyRequestDescriptor) (waiting : List ℕ) (ds : List ProxyRequestDescriptor)
    → Filled pool waiting ds
    → length waiting ≡ length ds
Filled-length pool [] [] f = refl
Filled-length pool [] (d ∷ ds) f = absurd f
Filled-length pool (i ∷ waiting) [] f = absurd f
Filled-length pool (i ∷ waiting) (d ∷ ds) f = ap suc (Filled-length pool waiting ds f.1)

-- A pool that differs in other places only.
pub Filled-change :
    (pool pool' : List ProxyRequestDescriptor) (x : ℕ) (waiting : List ℕ)
    (ds : List ProxyRequestDescriptor)
    → occurrences x waiting ≡ 0
    → ((i : ℕ) → x ≢ i → get_elem? pool' i ≡ get_elem? pool i)
    → Filled pool waiting ds
    → Filled pool' waiting ds
Filled-change pool pool' x [] [] away same f = tt
Filled-change pool pool' x [] (d ∷ ds) away same f = absurd f
Filled-change pool pool' x (i ∷ waiting) [] away same f = absurd f
Filled-change pool pool' x (i ∷ waiting) (d ∷ ds) away same f = (
  same i (ground (arith, away)) ∙ f.0,
  Filled-change pool pool' x waiting ds (ground (arith, away)) same f.1,
)

pub Filled-append :
    (pool : List ProxyRequestDescriptor) (waiting : List ℕ) (ds : List ProxyRequestDescriptor)
    (x : ℕ) (d : ProxyRequestDescriptor)
    → Filled pool waiting ds
    → get_elem? pool x ≡ some d
    → Filled pool (waiting ++ x ∷ []) (ds ++ d ∷ [])
Filled-append pool [] [] x d f at = (at, tt)
Filled-append pool [] (d' ∷ ds) x d f at = absurd f
Filled-append pool (i ∷ waiting) [] x d f at = absurd f
Filled-append pool (i ∷ waiting) (d' ∷ ds) x d f at =
    (f.0, Filled-append pool waiting ds x d f.1 at)

pub All-append {ℓ κ} :
    {A : Type ℓ} (P : A → Type κ) (xs ys : List A) → All P xs → All P ys → All P (xs ++ ys)
All-append P [] ys left right = right
All-append P (x ∷ xs) ys left right = (left.0, All-append P xs ys left.1 right)
