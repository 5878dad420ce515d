-- ===== src/Can/Nodes.antt =====
-- PlazCan/UavCanHandler.hpp: the array of the devices that are attached to a bus. A device is the number
-- of its object, `none` is the null pointer.
pub mod Allocation
use i2c.Prelude.{
  ℕ, zero, suc, ◌+◌, min, Bool, true, false, ◌&&◌, not, Option, none, some, List, [], ◌∷◌, ◌==◌,
  leb, if◌then◌else◌,
}

-- CanDevice.hpp: `kAddressUnallocated`
abbrev pub address_unallocated : ℕ
address_unallocated = 0

abbrev is_device : ℕ → Option ℕ → Bool
is_device device none = false
is_device device (some other) = other == device

-- `attach`: the first null pointer of the array becomes the device.
unfoldable pub attach : ℕ → List (Option ℕ) → Bool × List (Option ℕ)
attach device [] = (false, [])
attach device (none ∷ nodes) = (true, some device ∷ nodes)
attach device (some other ∷ nodes) =
    let later = attach device nodes in (later.0, some other ∷ later.1)

-- `detach`: the first pointer to the device becomes null.
unfoldable pub detach : ℕ → List (Option ℕ) → List (Option ℕ)
detach device [] = []
detach device (node ∷ nodes) =
    let later = detach device nodes in if is_device device node then none ∷ nodes else node ∷ later

unfoldable pub get_node_count : List (Option ℕ) → ℕ
get_node_count [] = 0
get_node_count (none ∷ nodes) = get_node_count nodes
get_node_count (some device ∷ nodes) = suc (get_node_count nodes)

-- `address_of` is `getBusAddress` of the device.
module _ (address_of : ℕ → ℕ) where
  unfoldable pub is_address_free : ℕ → List (Option ℕ) → Bool
  is_address_free address [] = true
  is_address_free address (none ∷ nodes) = is_address_free address nodes
  is_address_free address (some device ∷ nodes) =
      let later = is_address_free address nodes in
      if address_of device == address then false else later

  unfoldable pub is_next_allocatee : ℕ → List (Option ℕ) → Bool
  is_next_allocatee device [] = false
  is_next_allocatee device (none ∷ nodes) = is_next_allocatee device nodes
  is_next_allocatee device (some other ∷ nodes) =
      let later = is_next_allocatee device nodes in
      if address_of other == address_unallocated then other == device else later

-- `shouldAcceptCallback`: a device accepts the transfer. `accepts` is `onAcceptanceRequest`.
unfoldable pub should_accept : (ℕ → Bool) → List (Option ℕ) → Bool
should_accept accepts [] = false
should_accept accepts (none ∷ nodes) = should_accept accepts nodes
should_accept accepts (some device ∷ nodes) =
    let later = should_accept accepts nodes in if accepts device then true else later

-- `kDefaultCleanupInterval`, in microseconds
abbrev pub default_cleanup_interval : ℕ
default_cleanup_interval = 1000000

-- The loop of `onTimeoutOccurred`; `wake_time` is `onTimeoutOccurred` of the device.
unfoldable pub next_wake_time : (ℕ → ℕ) → ℕ → List (Option ℕ) → ℕ
next_wake_time wake_time time [] = time
next_wake_time wake_time time (none ∷ nodes) = next_wake_time wake_time time nodes
next_wake_time wake_time time (some device ∷ nodes) =
    next_wake_time wake_time (min time (wake_time device)) nodes

-- `onTimeoutOccurred`: whether stale transfers are cleaned up, the time of the next clean-up, and the
-- time to wake up.
unfoldable pub on_timeout_occurred : (ℕ → ℕ) → ℕ → ℕ → List (Option ℕ) → Bool × ℕ × ℕ
on_timeout_occurred wake_time current next_cleanup nodes =
    let due = leb next_cleanup current in
    let next = if due then current + default_cleanup_interval else next_cleanup in
    (due, next, next_wake_time wake_time next nodes)
