-- ===== src/File/MemoryFile.antt =====
-- InternalDevice/MemoryFile.hpp: a file of up to `capacity` bytes in memory. Offsets and lengths are
-- `size_t`, and their sums and differences wrap.
pub mod Content
pub mod Upload
use i2c.Prelude.{
  ℕ, ◌+◌, ◌-◌, ◌≤◌, min, Bool, true, false, ◌&&◌, not, Option, none, some, List, [], ◌∷◌, length,
  take, drop, ltb, leb, ◌==◌, nonzero, if◌then◌else◌, ◌>>=◌, u32, add_size, sub_size,
}
use i2c.Memory.{copy_to}

-- `size`, `data` (here `bytes`) and `finalized`
pub record MemoryFile : Type 0 where
  pub size : ℕ
  pub bytes : List ℕ
  pub finalized : Bool

-- CoreTypes.hpp: `kFileInitialChecksum`, `kFileReservedPosition`, `kFileReadable`, `kFileWritable`
abbrev pub file_initial_checksum : ℕ
file_initial_checksum = 0

abbrev pub file_reserved_position : ℕ
file_reserved_position = 0xFFFFFFFF

abbrev pub file_readable : ℕ
file_readable = 0x01

abbrev pub file_writable : ℕ
file_writable = 0x02

-- The constructor, over an array with whatever it holds.
unfoldable pub blank : List ℕ → MemoryFile
blank bytes = record { size = 0; bytes = bytes; finalized = true }

-- The bytes that count.
unfoldable pub content : MemoryFile → List ℕ
content file = take file.size file.bytes

unfoldable pub get_checksum : (ℕ → List ℕ → ℕ) → MemoryFile → ℕ
get_checksum checksum file = checksum file_initial_checksum (take file.size file.bytes)

unfoldable pub get_flags : Bool → ℕ
get_flags readonly = if readonly then file_readable else (file_readable + file_writable)

unfoldable pub get_size : MemoryFile → ℕ
get_size file = u32 file.size

-- The buffer is the caller's array; `none` is a copy behind its end.
unfoldable pub read_chunk : MemoryFile → ℕ → List ℕ → ℕ → Option (Bool × List ℕ)
read_chunk file offset buffer n =
    let chunk_length = min (sub_size file.size offset) n in
    if leb file.size offset
    then some (false, buffer)
    else if nonzero chunk_length
    then (copy_to buffer 0 (take chunk_length (drop offset file.bytes)) >>= λ filled.
        some (true, filled))
    else some (false, buffer)

-- `aBuffer` as the list of its `aLength` bytes; `none` is a copy behind the end of the file's array.
unfoldable pub write_chunk : ℕ → Bool → MemoryFile → ℕ → List ℕ → Option (Bool × MemoryFile)
write_chunk capacity true file offset buffer = some (false, file)
write_chunk capacity false file offset buffer =
    let n = length buffer in
    let skipped = sub_size file.size offset in
    let pending = sub_size n skipped in
    let appended = (do
      filled ← copy_to file.bytes file.size (take pending (drop skipped buffer))
      some (true, record file { bytes = filled; size = add_size file.size pending })) in
    if nonzero n && leb (add_size offset n) capacity
    then if ltb skipped n then appended else some (true, file)
    else some (false, file)

unfoldable pub restart_write : Bool → MemoryFile → Bool × MemoryFile
restart_write true file = (false, file)
restart_write false file = (true, record file { size = 0; finalized = false })

unfoldable pub finalize_write : Bool → MemoryFile → ℕ → Bool × MemoryFile
finalize_write true file total = (false, file)
finalize_write false file total =
    let claimed = if total == file_reserved_position then 0 else total in
    if claimed == file.size then (true, record file { finalized = true }) else (false, file)

unfoldable pub is_finalized : MemoryFile → Bool
is_finalized file = file.finalized
