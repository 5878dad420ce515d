-- ===== src/Can/Hub.antt =====
-- PlazCan/CanProxyHub.hpp: the addresses that a hub gives to the devices on the bus.
pub mod Addresses
mod Tests
use i2c.Prelude.{
  ℕ, zero, suc, ◌+◌, ◌-◌, ◌%◌, Bool, true, false, not, ◌&&◌, Option, none, some, List, [], ◌∷◌,
  ◌==◌, if◌then◌else◌, ◌>>=◌, get_elem?, set,
}
use i2c.Core.{FieldType}
use i2c.Pool.{RequestPool}
use i2c.Linked.{LinkedList}
use i2c.Can.Nodes.{attach, is_address_free}
use i2c.Can.Proxy.State.{Environment, ProxyRequestDescriptor, Status, CanProxy, Effect, is_valid}
use i2c.Can.Proxy.Life.{new_proxy, assign}

-- The numbers of `DeviceId`, and `kDeviceReservedId`
abbrev pub device_ids : ℕ
device_ids = 256

abbrev pub reserved_id : ℕ
reserved_id = 255

-- The hub with its own address, the first address that it gives away, its proxies, and the array of the
-- handler: the device with the number of a proxy's place is this proxy.
pub record CanProxyHub : Type 0 where
  pub address : ℕ
  pub first : ℕ
  pub proxies : List CanProxy
  pub nodes : List (Option ℕ)

unfoldable pub is_proxy_address_free : ℕ → List CanProxy → Bool
is_proxy_address_free address [] = true
is_proxy_address_free address (p ∷ ps) =
    let later = is_proxy_address_free address ps in
    if p.info.address == address then false else later

-- `std::array::operator==` of two identifiers
unfoldable pub same_uid : List ℕ → List ℕ → Bool
same_uid [] [] = true
same_uid [] (y ∷ ys) = false
same_uid (x ∷ xs) [] = false
same_uid (x ∷ xs) (y ∷ ys) = (x == y) && same_uid xs ys

-- The loop of `findFreeAddress`, from an address downwards.
unfoldable pub search_address : (ℕ → Bool) → ℕ → ℕ → Option ℕ
search_address is_free zero address = none
search_address is_free (suc rounds) address = elim (is_free address) [
  | true ↦ some address
  | false ↦ search_address is_free rounds ((address + (device_ids - 1)) % device_ids)
]

-- The first valid proxy with the identifier, by its address.
unfoldable pub known_address : List ℕ → List CanProxy → Option ℕ
known_address uid [] = none
known_address uid (p ∷ ps) =
    let later = known_address uid ps in
    if is_valid p && same_uid p.info.uid uid then some p.info.address else later

-- The place of the first proxy that is not valid, counted from `i`.
unfoldable pub unused_from : ℕ → List CanProxy → Option ℕ
unused_from i [] = none
unused_from i (p ∷ ps) = let later = unused_from (suc i) ps in if is_valid p then later else some i

-- `others` are the addresses of the attached devices that are no proxies.
module _ (others : ℕ → ℕ) where
  abbrev pub address_of : List CanProxy → ℕ → ℕ
  address_of proxies device = elim (get_elem? proxies device) [
    | none ↦ others device
    | some p ↦ p.info.address
  ]

  -- Both `isAddressFree`, of the hub and of the handler.
  abbrev pub is_free : CanProxyHub → ℕ → Bool
  is_free hub address =
      is_proxy_address_free address hub.proxies
      && is_address_free (address_of hub.proxies) address hub.nodes

  abbrev pub start_address : CanProxyHub → ℕ
  start_address hub =
      if hub.first == hub.address then (hub.first + (device_ids - 1)) % device_ids else hub.first

  -- `findFreeAddress`; `none` is a search that does not end.
  unfoldable pub find_free_address : ℕ → CanProxyHub → Option ℕ
  find_free_address preferred hub =
      if not (preferred == reserved_id) && is_free hub preferred
      then some preferred
      else search_address (is_free hub) device_ids (start_address hub)

  -- A proxy for the new device takes the first place that is not used.
  unfoldable pub place_device :
      Environment
      → ℕ
      → Status
      → List FieldType
      → RequestPool ProxyRequestDescriptor
      → LinkedList ℕ
      → ℕ
      → CanProxyHub
      → Option (CanProxyHub × List Effect)
  place_device e now status types pool requests address hub = elim (unused_from 0 hub.proxies) [
    | none ↦ some (hub, [])
    | some i ↦ get_elem? hub.proxies i >>= λ entry.
        assign e now (new_proxy now address status types pool requests) entry >>= λ r.
        some (record hub { proxies = set hub.proxies i r.0; nodes = (attach i hub.nodes).1 }, r.1)
  ]

  -- `attachDevice`, with what the constructor of the new proxy leaves to chance.
  unfoldable pub attach_device :
      Environment
      → ℕ
      → Status
      → List FieldType
      → RequestPool ProxyRequestDescriptor
      → LinkedList ℕ
      → List ℕ
      → CanProxyHub
      → Option (ℕ × CanProxyHub × List Effect)
  attach_device e now status types pool requests uid hub = elim (known_address uid hub.proxies) [
    | some address ↦ some (address, hub, [])
    | none ↦ find_free_address reserved_id hub >>= λ address.
        if address == reserved_id
        then some (address, hub, [])
        else (place_device e now status types pool requests address hub >>= λ r.
            some (address, r.0, r.1))
  ]
