-- ===== src/Pool.antt =====
-- DroneDevice/Include/DroneDevice/RequestPool.hpp: a fixed set of request descriptors and the queue of
-- the free ones. A pointer to a descriptor is its index in the array; a failed `assert` and a pointer
-- outside of the array are `none`.
pub mod Ownership
mod Tests
use i2c.Prelude.{
  ℕ, zero, suc, ◌+◌, Bool, Option, none, some, List, set, get_elem?, nonzero, if◌then◌else◌, ◌>>=◌,
}
use i2c.Queue.{Queue, fresh, is_empty, push, pop, size}

-- `pool` and `requests`
pub record RequestPool {ℓ} (A : Type ℓ) : Type ℓ where
  pub pool : List A
  pub requests : Queue ℕ

-- The constructor's loop over `left` elements of the pool from the index `i` on.
unfoldable pub push_elements : ℕ → ℕ → ℕ → Queue ℕ → Option (Queue ℕ)
push_elements capacity zero i q = some q
push_elements capacity (suc left) i q = push capacity i q >>= push_elements capacity left (i + 1)

module _ {ℓ} {A : Type ℓ} where
  -- The constructor, over the descriptors and the memory of the queue.
  unfoldable pub make : ℕ → List A → List ℕ → Option (RequestPool A)
  make capacity pool memory = push_elements capacity capacity 0 (fresh memory) >>= λ q.
      some (record { pool = pool; requests = q })

  -- The pointer to a new request, `none` for the null pointer.
  unfoldable pub alloc : ℕ → A → RequestPool A → Option (Option ℕ × RequestPool A)
  alloc capacity request p =
      let taken = (do
        (i, q) ← pop capacity p.requests
        some (some i, record { pool = set p.pool i request; requests = q })) in
      if is_empty p.requests then some (none, p) else taken

  -- `refs` is the reference count of a request.
  unfoldable pub free : ℕ → (A → ℕ) → ℕ → RequestPool A → Option (RequestPool A)
  free capacity refs i p = get_elem? p.pool i >>= λ request.
      if nonzero (refs request)
      then some p
      else (push capacity i p.requests >>= λ q. some (record p { requests = q }))

  unfoldable pub count : RequestPool A → ℕ
  count p = size p.requests
