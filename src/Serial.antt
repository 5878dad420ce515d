-- ===== src/Serial.antt =====
-- DroneDevice/Include/DroneDevice/PayloadProtocol: requests and responses over a serial line.
pub mod State
pub mod Parser
pub mod Stream
pub mod Reply
pub mod Packet
pub mod Handler
pub mod Exchange
mod Tests
