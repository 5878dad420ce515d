-- ===== src/Can/Hub/Addresses.antt =====
-- The search for an address, and what it gives when every proxy is taken.
use i2c.Prelude.{
  ℕ, zero, suc, ◌+◌, ◌-◌, ◌%◌, ◌≤◌, ◌<◌, ◌≡◌, ◌⊎◌, inl, inr, refl, ap, ◌∙◌, Bool, true, false, ◌&&◌,
  not, none, some, List, [], ◌==◌, arith, ◌≢◌, Bool-cases, both,
}
use i2c.Core.{FieldType}
use i2c.Pool.{RequestPool}
use i2c.Linked.{LinkedList}
use i2c.Can.Proxy.State.{Environment, ProxyRequestDescriptor, Status}
use i2c.Can.Hub.{
  CanProxyHub, device_ids, reserved_id, search_address, is_free, start_address, find_free_address,
  place_device, attach_device, known_address, unused_from,
}

-- The greatest free address from an address downwards, which is no less than a given free one.
abbrev pub Greatest : (ℕ → Bool) → ℕ → ℕ → ℕ → Type 0
Greatest free target start a =
    (free a ≡ true) × (target ≤ a) × (a ≤ start) × ((b : ℕ) → a < b → b ≤ start → free b ≡ false)

pub search_address_lem :
    (free : ℕ → Bool) (rounds start target : ℕ)
    → start < device_ids
    → target ≤ start
    → free target ≡ true
    → start < target + rounds
    → (a : ℕ) × (search_address free rounds start ≡ some a) × Greatest free target start a
unfolding search_address
search_address_lem free zero start target small below is enough =
    absurd (omega (arith, below, enough))
search_address_lem free (suc rounds) start target small below is enough =
    elim (Bool-cases (free start)) [
      | inl here ↦ (
        start,
        rw (here, search_address) refl,
        (here, below, omega arith, λ b above within. absurd (omega (arith, above, within))),
      )
      | inr busy ↦
          let next = (start + (device_ids - 1)) % device_ids in
          let differs : target ≢ start = λ same. cc in
          let same : next + 1 ≡ start = omega (arith, below, differs, small) in
          let (a, found, (free_here, low, high, none_above)) =
            search_address_lem free rounds next target (omega (arith, same, small))
              (omega (arith, same, below, differs)) is (omega (arith, same, enough)) in
          (
            a,
            rw (busy, search_address) found,
            (
              free_here,
              low,
              omega (arith, high, same),
              λ b above within. last b busy (omega (arith, same, within)) (none_above b above),
            ),
          )
    ]
  where
    last :
        (b : ℕ)
        → free start ≡ false
        → (b ≡ start) ⊎ (b ≤ (start + (device_ids - 1)) % device_ids)
        → (b ≤ (start + (device_ids - 1)) % device_ids → free b ≡ false)
        → free b ≡ false
    last b busy (inl same) earlier = ap free same ∙ busy
    last b busy (inr lower) earlier = earlier lower

module _ (others : ℕ → ℕ) where
  -- If some address up to the first one is free, the search ends with the preferred address, or with the
  -- greatest free one up to the first one; either is free.
  pub find_free_address_lem :
      (preferred target : ℕ) (hub : CanProxyHub)
      → start_address others hub < device_ids
      → target ≤ start_address others hub
      → is_free others hub target ≡ true
      → (a : ℕ) × (find_free_address others preferred hub ≡ some a)
        × (((a ≡ preferred) × (is_free others hub a ≡ true))
            ⊎ Greatest (is_free others hub) target (start_address others hub) a)
  unfolding find_free_address
  find_free_address_lem preferred target hub small below is =
      elim (Bool-cases (not (preferred == reserved_id) && is_free others hub preferred)) [
        | inl liked ↦ (
          preferred,
          simp liked refl,
          inl (refl, (both (not (preferred == reserved_id)) _ liked).1),
        )
        | inr other ↦
            let (a, found, greatest) =
              search_address_lem (is_free others hub) device_ids (start_address others hub) target
                small below is (omega (arith, small)) in
            (a, simp other found, inr greatest)
      ]

  module _ (e : Environment) (now : ℕ) (status : Status) (types : List FieldType)
      (pool : RequestPool ProxyRequestDescriptor) (requests : LinkedList ℕ) where
    attach_device_full :
        (uid : List ℕ) (hub : CanProxyHub) (a : ℕ)
        → known_address uid hub.proxies ≡ none
        → unused_from 0 hub.proxies ≡ none
        → find_free_address others reserved_id hub ≡ some a
        → attach_device others e now status types pool requests uid hub ≡ some (a, hub, [])
    unfolding attach_device place_device
    attach_device_full uid hub a unknown full found = elim (Bool-cases (a == reserved_id)) [
      | inl reserved ↦ rw (unknown, found, reserved, attach_device) refl
      | inr given ↦ rw (unknown, found, given, full, attach_device, place_device) refl
    ]

    -- When every proxy is taken, two devices that the hub does not know get the same address, and the hub
    -- keeps neither.
    pub attach_device_twice :
        (uid uid' : List ℕ) (target : ℕ) (hub : CanProxyHub)
        → known_address uid hub.proxies ≡ none
        → known_address uid' hub.proxies ≡ none
        → unused_from 0 hub.proxies ≡ none
        → start_address others hub < device_ids
        → target ≤ start_address others hub
        → is_free others hub target ≡ true
        → (a : ℕ) × (is_free others hub a ≡ true)
          × (attach_device others e now status types pool requests uid hub ≡ some (a, hub, []))
          × (attach_device others e now status types pool requests uid' hub ≡ some (a, hub, []))
    attach_device_twice uid uid' target hub unknown unknown' full small below is =
        let (a, found, which) = find_free_address_lem reserved_id target hub small below is in
        (
          a,
          elim which [ inl liked ↦ liked.1 | inr greatest ↦ greatest.0 ],
          attach_device_full uid hub a unknown full found,
          attach_device_full uid' hub a unknown' full found,
        )
