-- ===== src/Can/Hub/Tests.antt =====
-- A hub with one place for a proxy, which a device has taken.
use i2c.Prelude.{ℕ, ◌+◌, ◌%◌, ◌≡◌, ◌⊎◌, refl, true, none, some, [], ◌∷◌, arith, replicate}
use i2c.Pool.{RequestPool}
use i2c.Linked.{LinkedList}
use i2c.Can.Nodes.{is_address_free}
use i2c.Can.Proxy.State.{Environment, ProxyRequestDescriptor, Status, CanProxy, Context, is_valid}
use i2c.Can.Proxy.Life.{new_info, new_proxy}
use i2c.Can.Hub.{
  CanProxyHub, is_proxy_address_free, same_uid, known_address, unused_from, is_free, start_address,
  find_free_address, attach_device, reserved_id, search_address,
}
use i2c.Can.Hub.Addresses.{Greatest, find_free_address_lem, attach_device_twice}

abbrev one_request : Environment
one_request = record {
  max_request_count = 1;
  request_timeout = 100;
  offline_timeout = 3000;
  advance = λ n. (n + 1) % 32;
  scalar = λ payload bit count signed. none;
  memory = λ i. 0;
}

abbrev healthy : Status
healthy = record { mode = 1; health = 0; flags = 0 }

abbrev free_pool : RequestPool ProxyRequestDescriptor
free_pool = record {
  pool =
      record {
        destination = 255;
        refs = 0;
        observer = none;
        token = 0;
        deadline = 0;
        service = 0;
        number = 0;
        context = Context.file 0 0;
      }
      ∷ [];
  requests = record { storage = 0 ∷ []; elements = 1; head = 0; tail = 0 };
}

abbrev no_requests : LinkedList ℕ
no_requests = record {
  first = none;
  links = none ∷ [];
  values = 0 ∷ [];
  pool = 0 ∷ [];
  available = 1;
}

-- The device at the highest address that the hub gives away.
abbrev taken : CanProxy
taken = new_proxy 5 125 healthy [] free_pool no_requests

abbrev full_hub : CanProxyHub
full_hub = record { address = 1; first = 125; proxies = taken ∷ []; nodes = some 0 ∷ some 9 ∷ [] }

-- The hub itself, which has the number 9.
abbrev others : ℕ → ℕ
others device = 1

full_hub-free : is_free others full_hub 124 ≡ true
unfolding is_proxy_address_free is_address_free new_proxy new_info
full_hub-free = refl

full_hub-unknown : known_address (replicate 16 7) full_hub.proxies ≡ none
unfolding known_address same_uid is_valid new_proxy new_info
full_hub-unknown = refl

full_hub-unknown_too : known_address (replicate 16 8) full_hub.proxies ≡ none
unfolding known_address same_uid is_valid new_proxy new_info
full_hub-unknown_too = refl

full_hub-full : unused_from 0 full_hub.proxies ≡ none
unfolding unused_from is_valid new_proxy new_info
full_hub-full = refl

find_free_address_lem_example :
    (a : ℕ) × (find_free_address others 125 full_hub ≡ some a)
    × (((a ≡ 125) × (is_free others full_hub a ≡ true))
        ⊎ Greatest (is_free others full_hub) 124 (start_address others full_hub) a)
find_free_address_lem_example =
    find_free_address_lem others 125 124 full_hub (omega arith) (omega arith) full_hub-free

attach_device_twice_example :
    (a : ℕ) × (is_free others full_hub a ≡ true)
    × (attach_device others one_request 7 healthy [] free_pool no_requests (replicate 16 7) full_hub
        ≡ some (a, full_hub, []))
    × (attach_device others one_request 7 healthy [] free_pool no_requests (replicate 16 8) full_hub
        ≡ some (a, full_hub, []))
attach_device_twice_example =
    attach_device_twice others one_request 7 healthy [] free_pool no_requests (replicate 16 7)
      (replicate 16 8) 124 full_hub full_hub-unknown full_hub-unknown_too full_hub-full
      (omega arith) (omega arith) full_hub-free

-- The address of the first device is passed over.
full_hub_address : find_free_address others reserved_id full_hub ≡ some 124
unfolding find_free_address search_address is_proxy_address_free is_address_free new_proxy new_info
full_hub_address = refl
