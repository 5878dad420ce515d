-- ===== src/Can/Proxy/Life.antt =====
-- PlazCan/CanProxy.hpp: the constructor of a proxy and the assignment to it. The arrays' memory that the
-- constructor does not initialise, the pool and the list are arguments.
use i2c.Prelude.{
  ℕ, ◌≤◌, ◌≡◌, refl, true, false, Option, some, List, [], arith, length, replicate,
  length-replicate, ◌>>=◌,
}
use i2c.Core.{FieldType}
use i2c.Pool.{RequestPool}
use i2c.Pool.Ownership.{Owns}
use i2c.Linked.{LinkedList}
use i2c.Linked.Chain.{IsList}
use i2c.Can.Proxy.State.{
  Environment, max_retries, ProxyRequestDescriptor, Status, Info, State, Numbers, CanProxy, Effect,
}
use i2c.Can.Proxy.Info.{max_name_length, uid_length}
use i2c.Can.Proxy.Expiry.{CallbackResult, purge_request_descriptors}
use i2c.Can.Proxy.Purge.{purge_request_descriptors_lem, end_effects}
use i2c.Can.Proxy.Sound.{Sound}

-- The constructor of `Info`.
unfoldable pub new_info : ℕ → ℕ → Status → List FieldType → Info
new_info timestamp address status types = record {
  uid = replicate uid_length 0;
  version = record { hw_major = 0; hw_minor = 0; sw_major = 0; sw_minor = 0; sw_revision = 0 };
  status = status;
  timestamp = timestamp;
  uptime = 0;
  name = replicate max_name_length 0;
  types = types;
  address = address;
  fields = 0;
}

-- `Numbers{}`
unfoldable pub no_numbers : Numbers
no_numbers = record {
  get_node_info = 0;
  get_field_info = 0;
  field_read = 0;
  field_write = 0;
  get_file_info = 0;
  file_read = 0;
  file_write = 0;
  restart_node = 0;
}

-- The constructor with a master.
unfoldable pub new_proxy :
    ℕ → ℕ → Status → List FieldType → RequestPool ProxyRequestDescriptor → LinkedList ℕ → CanProxy
new_proxy now address status types pool requests = record {
  master = true;
  feature = false;
  next_request_time = now;
  retries = max_retries;
  info = new_info now address status types;
  state = State.request_node_info;
  numbers = no_numbers;
  pool = pool;
  requests = requests;
}

-- `operator=`: the requests of the old device are ended, and the pool and the list stay.
unfoldable pub assign : Environment → ℕ → CanProxy → CanProxy → Option (CanProxy × List Effect)
assign e now other p = do
  (p', ended) ← purge_request_descriptors e p
  some (
    record p' {
      master = other.master;
      feature = other.feature;
      next_request_time = now;
      retries = max_retries;
      info = other.info;
      state = State.request_node_info;
      numbers = no_numbers;
    },
    ended,
  )

module _ (e : Environment) where
  -- A new proxy is sound, and no request waits.
  pub new_proxy-Sound :
      (now address : ℕ) (status : Status) (types : List FieldType)
      (pool : RequestPool ProxyRequestDescriptor) (requests : LinkedList ℕ) (unused : List ℕ)
      → Owns e.max_request_count pool unused []
      → IsList e.max_request_count requests [] []
      → length types ≤ 255
      → Sound e (new_proxy now address status types pool requests) []
  unfolding new_proxy new_info
  new_proxy-Sound now address status types pool requests unused owns listed small = record {
    pending = (unused, [], [], record { owns = owns; listed = listed; filled = tt; unshared = tt });
    fitting = tt;
    known = omega arith;
    small = small;
    progress = refl;
    named = (length-replicate {A = ℕ} 16 0, length-replicate {A = ℕ} 80 0);
  }

  -- When another device, of at most 255 fields, is assigned to a sound proxy, each request that waits ends,
  -- in order, and its observer, if there is one, gets one call with COMPONENT_NOT_FOUND; the proxy holds the
  -- new device's information and is sound without requests.
  pub assign-Sound :
      (now address : ℕ) (status : Status) (types : List FieldType)
      (pool : RequestPool ProxyRequestDescriptor) (requests : LinkedList ℕ) (p : CanProxy)
      (ds : List ProxyRequestDescriptor)
      → Sound e p ds
      → length types ≤ 255
      → (p' : CanProxy) × (assign e now (new_proxy now address status types pool requests) p
          ≡ some (p', end_effects CallbackResult.component_detached ds))
        × Sound e p' []
        × (p'.info ≡ new_info now address status types)
  unfolding assign new_proxy
  assign-Sound now address status types pool requests p ds s small =
      let (pool', requests', ran, sound) = purge_request_descriptors_lem e p ds s in
      (
        record p {
          pool = pool';
          requests = requests';
          master = true;
          feature = false;
          next_request_time = now;
          retries = max_retries;
          info = new_info now address status types;
          state = State.request_node_info;
          numbers = no_numbers;
        },
        simp ran refl,
        unfold new_info in
            record {
              pending = sound.pending;
              fitting = tt;
              known = omega arith;
              small = small;
              progress = refl;
              named = (length-replicate {A = ℕ} 16 0, length-replicate {A = ℕ} 80 0);
            },
        refl,
      )
