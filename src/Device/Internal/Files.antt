-- ===== src/Device/Internal/Files.antt =====
-- Files in memory as the files of a device: what is read, and an upload through the device's requests.
use i2c.Prelude.{
  ℕ, ◌-◌, ◌≤◌, ◌<◌, min, ◌≡◌, refl, Bool, true, false, some, List, ◌++◌, arith, length, get_elem?,
  take, drop, ltb,
}
use i2c.Core.{Result, file_max_chunk_length}
use i2c.Device.{on_file_read_end}
use i2c.Device.Field.{AbstractField}
use i2c.File.MemoryFile.{
  MemoryFile, get_checksum, get_flags, get_size, read_chunk, write_chunk, restart_write,
  finalize_write, content,
}
use i2c.File.MemoryFile.Content.{IsValid, read_chunk_lem}
use i2c.Device.Internal.{AbstractFile, Internal, read_file, file_read_with}

-- MemoryFile.hpp as a class of files, with the function of its template for the checksum.
abbrev pub memory_file : (ℕ → List ℕ → ℕ) → ℕ → Bool → AbstractFile MemoryFile
memory_file checksum capacity readonly = record {
  get_checksum = get_checksum checksum;
  get_flags = λ file. get_flags readonly;
  get_size = get_size;
  read_chunk = read_chunk;
  write_chunk = write_chunk capacity readonly;
  restart_write = restart_write readonly;
  finalize_write = finalize_write readonly;
}

module _ {F : Type 0} (field_of : AbstractField F) (checksum : ℕ → List ℕ → ℕ) (capacity : ℕ) where
  -- A read of at most 240 bytes from inside of a valid file gives the bytes of the content from the
  -- offset on, as many as asked for; where the content ends before, what the stack held follows.
  pub read_file_lem :
      (stack : List ℕ) (file offset n : ℕ) (g : MemoryFile) (d : Internal F MemoryFile)
      → IsValid capacity g
      → get_elem? d.files file ≡ some g
      → length stack ≡ file_max_chunk_length
      → 1 ≤ n
      → n ≤ file_max_chunk_length
      → offset < g.size
      → read_file field_of (memory_file checksum capacity false) true stack file offset n d
        ≡ some (
            some (
              on_file_read_end file offset
                (take n (take n (drop offset (content g)) ++ drop (min n (g.size - offset)) stack))
                Result.success))
  unfolding read_file file_read_with
  read_file_lem stack file offset n g d v found sized h fits inside =
      rw (found, short, read_chunk_lem capacity g offset n stack v inside h (omega (arith, sized)))
        refl
    where
      short : ltb file_max_chunk_length n ≡ false
      short = ground arith
