-- ===== src/Can.antt =====
-- DroneDevice/Include/DroneDevice/PlazCan: devices on a CAN bus.
pub mod Nodes
pub mod Hashes
pub mod Convert
pub mod Transfer
pub mod Proxy
pub mod Hub
mod Tests
