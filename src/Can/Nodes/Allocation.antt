-- ===== src/Can/Nodes/Allocation.antt =====
-- The devices of a bus: attaching and detaching, and who may ask for an address.
use i2c.Prelude.{
  ℕ, zero, suc, ◌+◌, ◌≤◌, ◌<◌, ◌≡◌, ◌≢◌, refl, sym, ap, ◌∙◌, ◌⊎◌, inl, inr, true, false, Option,
  none, some, List, [], ◌∷◌, arith, min, length, get_elem?, ◌==◌, ==_iff, if◌then◌else◌, Bool-cases,
  leb,
}
use i2c.Can.Nodes.{
  address_unallocated, attach, detach, get_node_count, is_address_free, is_next_allocatee,
  next_wake_time, on_timeout_occurred, default_cleanup_interval,
}

-- No pointer of the array is one to the device.
abbrev pub Absent : ℕ → List (Option ℕ) → Type 0
Absent device nodes = (i : ℕ) → get_elem? nodes i ≢ some (some device)

Absent-tail :
    (device : ℕ) (first : Option ℕ) (nodes : List (Option ℕ))
    → Absent device (first ∷ nodes)
    → Absent device nodes
Absent-tail device first nodes away i found = away (suc i) found

Absent-head :
    (device other : ℕ) (nodes : List (Option ℕ))
    → Absent device (some other ∷ nodes)
    → (other == device) ≡ false
Absent-head device other nodes away = elim (Bool-cases (other == device)) [
  | inr apart ↦ apart
  | inl same ↦ absurd (away 0 (ap (λ d. some (some d)) ((==_iff other device).0 same)))
]

get_node_count_le : (nodes : List (Option ℕ)) → get_node_count nodes ≤ length nodes
unfolding get_node_count
get_node_count_le [] = omega arith
get_node_count_le (none ∷ nodes) = omega (arith, get_node_count_le nodes)
get_node_count_le (some device ∷ nodes) = omega (arith, get_node_count_le nodes)

-- A device that is not attached is attached if the array has a null pointer, and only then; there is
-- one device more, and a detach gives the array from before. On a full array nothing changes.
pub detach-attach :
    (device : ℕ) (nodes : List (Option ℕ))
    → Absent device nodes
    → (((attach device nodes).0 ≡ true)
        × (get_node_count nodes < length nodes)
        × (get_node_count (attach device nodes).1 ≡ get_node_count nodes + 1)
        × (detach device (attach device nodes).1 ≡ nodes))
      ⊎ (((attach device nodes).0 ≡ false)
          × (get_node_count nodes ≡ length nodes)
          × ((attach device nodes).1 ≡ nodes))
unfolding attach detach get_node_count
detach-attach device [] away = inr (refl, refl, refl)
detach-attach device (none ∷ nodes) away =
    let self : (device == device) ≡ true = ground arith in
    inl (refl, omega (arith, get_node_count_le nodes), omega arith, rw self refl)
detach-attach device (some other ∷ nodes) away =
    let apart = Absent-head device other nodes away in
    elim (detach-attach device nodes (Absent-tail device (some other) nodes away)) [
      | inl (ran, room, more, back) ↦
          inl (
            ran,
            omega (arith, room),
            omega (arith, more),
            rw apart (ap (λ n. some other ∷ n) back),
          )
      | inr (ran, full, same) ↦ inr (ran, omega (arith, full), ap (λ n. some other ∷ n) same)
    ]

module _ (address_of : ℕ → ℕ) where
  -- The device that may ask for an address is attached and has none.
  next_allocatee_unallocated :
      (device : ℕ) (nodes : List (Option ℕ))
      → is_next_allocatee address_of device nodes ≡ true
      → address_of device ≡ address_unallocated
  unfolding is_next_allocatee
  next_allocatee_unallocated device [] e = cc
  next_allocatee_unallocated device (none ∷ nodes) e = next_allocatee_unallocated device nodes e
  next_allocatee_unallocated device (some other ∷ nodes) e =
      elim (Bool-cases (address_of other == address_unallocated)) [
        | inl free ↦
            let same : (other == device) ≡ true = rw free at e in
            ap address_of (sym ((==_iff other device).0 same)) ∙ (==_iff _ _).0 free
        | inr taken ↦ next_allocatee_unallocated device nodes (rw taken at e)
      ]

  -- At most one device may ask for an address: two that may are the same.
  pub is_next_allocatee_once :
      (device other : ℕ) (nodes : List (Option ℕ))
      → is_next_allocatee address_of device nodes ≡ true
      → is_next_allocatee address_of other nodes ≡ true
      → device ≡ other
  unfolding is_next_allocatee
  is_next_allocatee_once device other [] e e' = cc
  is_next_allocatee_once device other (none ∷ nodes) e e' =
      is_next_allocatee_once device other nodes e e'
  is_next_allocatee_once device other (some first ∷ nodes) e e' =
      elim (Bool-cases (address_of first == address_unallocated)) [
        | inl free ↦
            let one : (first == device) ≡ true = rw free at e in
            let two : (first == other) ≡ true = rw free at e' in
            sym ((==_iff first device).0 one) ∙ (==_iff first other).0 two
        | inr taken ↦ is_next_allocatee_once device other nodes (rw taken at e) (rw taken at e')
      ]

  -- While an attached device has no address, there is a device that may ask for one.
  is_next_allocatee_some :
      (nodes : List (Option ℕ))
      → is_address_free address_of address_unallocated nodes ≡ false
      → (device : ℕ) × (is_next_allocatee address_of device nodes ≡ true)
  unfolding is_address_free is_next_allocatee
  is_next_allocatee_some [] e = cc
  is_next_allocatee_some (none ∷ nodes) e = is_next_allocatee_some nodes e
  is_next_allocatee_some (some first ∷ nodes) e =
      elim (Bool-cases (address_of first == address_unallocated)) [
        | inl free ↦
            let self : (first == first) ≡ true = ground arith in (first, rw (free, self) refl)
        | inr taken ↦
            let (device, turn) = is_next_allocatee_some nodes (rw taken at e) in
            (device, rw taken turn)
      ]

  -- While an attached device has no address, exactly one device may ask for one, and it has none.
  pub next_allocatee_lem :
      (nodes : List (Option ℕ))
      → is_address_free address_of address_unallocated nodes ≡ false
      → (device : ℕ) × (is_next_allocatee address_of device nodes ≡ true)
        × (address_of device ≡ address_unallocated)
        × ((other : ℕ) → is_next_allocatee address_of other nodes ≡ true → other ≡ device)
  next_allocatee_lem nodes e =
      let (device, turn) = is_next_allocatee_some nodes e in
      (
        device,
        turn,
        next_allocatee_unallocated device nodes turn,
        λ other turn'. is_next_allocatee_once other device nodes turn' turn,
      )

next_wake_time_le :
    (wake_time : ℕ → ℕ) (time : ℕ) (nodes : List (Option ℕ))
    → (next_wake_time wake_time time nodes ≤ time)
      × ((i device : ℕ)
          → get_elem? nodes i ≡ some (some device)
          → next_wake_time wake_time time nodes ≤ wake_time device)
unfolding next_wake_time
next_wake_time_le wake_time time [] = (omega arith, λ i device e. cc)
next_wake_time_le wake_time time (none ∷ nodes) =
    let (soon, each) = next_wake_time_le wake_time time nodes in
    (soon, λ i device found. behind each i device found)
  where
    behind :
        ((i device : ℕ)
          → get_elem? nodes i ≡ some (some device)
          → next_wake_time wake_time time nodes ≤ wake_time device)
        → (i device : ℕ) → get_elem? (none ∷ nodes) i ≡ some (some device)
        → next_wake_time wake_time time nodes ≤ wake_time device
    behind each zero device found = cc
    behind each (suc i) device found = each i device found
next_wake_time_le wake_time time (some first ∷ nodes) =
    let (soon, each) = next_wake_time_le wake_time (min time (wake_time first)) nodes in
    (omega (arith, soon), λ i device found. behind soon each i device found)
  where
    behind :
        next_wake_time wake_time (min time (wake_time first)) nodes ≤ min time (wake_time first)
        → ((i device : ℕ)
            → get_elem? nodes i ≡ some (some device)
            → next_wake_time wake_time (min time (wake_time first)) nodes ≤ wake_time device)
        → (i device : ℕ) → get_elem? (some first ∷ nodes) i ≡ some (some device)
        → next_wake_time wake_time (min time (wake_time first)) nodes ≤ wake_time device
    behind soon each zero device found =
        let same : first ≡ device = cc in omega (arith, soon, ap wake_time same)
    behind soon each (suc i) device found = each i device found

-- The handler wakes up no later than any of its devices needs it, and no later than the next clean-up,
-- which is in the future.
pub on_timeout_occurred_lem :
    (wake_time : ℕ → ℕ) (current next_cleanup : ℕ) (nodes : List (Option ℕ))
    → let (due, next, wake) = on_timeout_occurred wake_time current next_cleanup nodes in
      (current < next)
      × (wake ≤ next)
      × ((i device : ℕ) → get_elem? nodes i ≡ some (some device) → wake ≤ wake_time device)
unfolding on_timeout_occurred
on_timeout_occurred_lem wake_time current next_cleanup nodes =
    let next =
      if leb next_cleanup current then current + default_cleanup_interval else next_cleanup in
    let (soon, each) = next_wake_time_le wake_time next nodes in (later, soon, each)
  where
    later :
        current
        < (if leb next_cleanup current then current + default_cleanup_interval else next_cleanup)
    later = ground arith
