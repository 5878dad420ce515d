-- ===== src/Can/Proxy.antt =====
-- PlazCan/CanProxy.hpp: a device on the bus as the hub sees it. The proxy sends a device's requests to
-- the bus and its answers to the observers. A call of the master, of an observer or of the feature is
-- a value, and so is what the master and the feature return. What happens between two locks of the
-- mutex is one step, and so is a whole operation, since the operations are called from one thread.
pub mod State
pub mod Client
pub mod Answer
pub mod Info
pub mod Expiry
pub mod Receive
pub mod Pending
pub mod Sound
pub mod Purge
pub mod Ask
pub mod Respond
pub mod Account
pub mod Life
mod Tests
