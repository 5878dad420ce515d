-- ===== src/Crc.antt =====
-- The checksum classes of DroneDevice/Include/DroneDevice: Crc8, Crc16 and Crc32 go bit by bit,
-- FastCrc8, FastCrc16 and FastCrc32 by tables.
pub mod Crc8
pub mod Crc16
pub mod Crc32
pub mod FastCrc8
pub mod FastCrc16
pub mod FastCrc32
pub mod Reflected
pub mod Equal8
pub mod Equal16
pub mod Equal32
pub mod Detect
mod Tests
