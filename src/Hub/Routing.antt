-- ===== src/Hub/Routing.antt =====
-- Which device a request reaches.
use i2c.Prelude.{
  ℕ, ◌+◌, ◌≤◌, ◌≡◌, ◌≢◌, refl, ap, Bool, true, false, List, [], ◌∷◌, ◌++◌, ◌==◌, All, arith, length,
  if◌then◌else◌, Bool-cases, inl, inr,
}
use i2c.Hub.{
  Entry, Request, forwarded, reported, not_found, InfoCall, route, request_info_from,
  device_request_info, device_reserved_id,
}

module _ {ℓ} {A : Type ℓ} where
  -- A request reaches the first device with its address, and no other.
  pub route_first :
      (observed : Bool) (before later : List (Entry A)) (entry : Entry A) (request : Request)
      → All (λ other. other.address ≢ entry.address) before
      → route observed (before ++ entry ∷ later) entry.address request
        ≡ forwarded entry.node request
  unfolding route
  route_first observed [] later entry request h = ground arith
  route_first observed (other ∷ before) later entry request h =
      rw (passed) (route_first observed before later entry request h.1)
    where
      passed : (entry.address == other.address) ≡ false
      passed = ground (arith, h.0)

  -- A request to an address that no device has comes back to the observer as COMPONENT_NOT_FOUND.
  pub route-not_found :
      (entries : List (Entry A)) (device : ℕ) (request : Request)
      → All (λ entry. entry.address ≢ device) entries
      → route true entries device request ≡ reported (not_found request)
  unfolding route
  route-not_found [] device request h = refl
  route-not_found (entry ∷ entries) device request h =
      rw (passed) (route-not_found entries device request h.1)
    where
      passed : (device == entry.address) ≡ false
      passed = ground (arith, h.0)

  -- A request for information that is no broadcast is looked up at the first device only: to any other
  -- address there is no call, whatever devices follow.
  pub device_request_info_later :
      (entry : Entry A) (entries : List (Entry A)) (device : ℕ)
      → device ≢ device_reserved_id
      → device ≢ entry.address
      → device_request_info (entry ∷ entries) device ≡ []
  unfolding device_request_info request_info_from
  device_request_info_later entry entries device single other = rw (closed, here)
    where
      closed : (device == device_reserved_id) ≡ false
      closed = ground arith

      here : (device == entry.address) ≡ false
      here = ground arith

  -- The calls that a broadcast should make from the index `n` on.
  abbrev pub announced : ℕ → List (Entry A) → List (InfoCall A)
  announced n [] = []
  announced n (entry ∷ entries) =
      let called : InfoCall A = record {
        node = entry.node;
        destination = entry.address;
        refs = n;
      } in
      if entry.address == device_reserved_id
      then announced (n + 1) entries
      else called ∷ announced (n + 1) entries

  broadcast_from :
      (n : ℕ) (entries : List (Entry A))
      → n + length entries ≤ 256
      → request_info_from n entries device_reserved_id ≡ announced n entries
  unfolding request_info_from
  broadcast_from n [] h = refl
  broadcast_from n (entry ∷ entries) h = elim (Bool-cases (entry.address == device_reserved_id)) [
    | inl unset ↦ rw unset (broadcast_from (n + 1) entries (omega arith))
    | inr known ↦
        rw (known, broadcast_from (n + 1) entries (omega arith))
          (ap
            (λ refs.
              record { node = entry.node; destination = entry.address; refs = refs }
              ∷ announced (n + 1) entries)
            (omega arith))
  ]

  -- A broadcast over at most 256 devices calls back once for each device that has an address, in order,
  -- with the device's address as the destination and its index as the reference count.
  pub device_request_info_broadcast :
      (entries : List (Entry A))
      → length entries ≤ 256
      → device_request_info entries device_reserved_id ≡ announced 0 entries
  unfolding device_request_info
  device_request_info_broadcast entries h = broadcast_from 0 entries (omega arith)
