-- ===== src/File.antt =====
-- DroneDevice/Include/DroneDevice/InternalDevice: files of a device. MemoryFile.hpp keeps a file in an
-- array that an upload fills piece by piece.
pub mod MemoryFile
mod Tests
