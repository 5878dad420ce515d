-- ===== src/Config.antt =====
-- DroneDevice/Include/DroneDevice/ConfigStorage.hpp and MemoryRegion.hpp: settings that are kept in a
-- region of flash memory. A value is the list of its bytes.
pub mod Contents
pub mod Saved
pub mod Loaded
pub mod Guarded
pub mod Fields
pub mod Persist
mod Tests
use i2c.Prelude.{
  ℕ, zero, ◌+◌, ◌-◌, ◌%◌, Bool, true, false, ◌&&◌, ◌||◌, not, List, [], ◌∷◌, ◌++◌, length, take,
  replicate, ltb, ◌==◌, nonzero, if◌then◌else◌,
}
use i2c.Core.{to_bytes, from_bytes}

-- What a storage calls of its flash memory, over the memory's state: an access takes the position and
-- the buffer with its bytes.
pub record Flash {ℓ} (S : Type ℓ) : Type ℓ where
  pub lock : S → S
  pub unlock : S → S
  pub erase : S → Bool × S
  pub read : S → ℕ → List ℕ → Bool × List ℕ
  pub write : S → ℕ → List ℕ → Bool × S

-- The interface of a memory, below a region.
pub record Interface {ℓ} (S : Type ℓ) : Type ℓ where
  pub is_protected : S → Bool
  pub lock : S → S
  pub unlock : S → S
  pub erase : S → ℕ → ℕ → Bool × S
  pub read : S → ℕ → List ℕ → Bool × List ℕ
  pub write : S → ℕ → List ℕ → Bool × S

-- The parameters of `MemoryRegion`.
pub record Region : Type 0 where
  pub address : ℕ
  pub size : ℕ
  pub readable : Bool
  pub writable : Bool

module _ {ℓ} {S : Type ℓ} (memory : Interface S) where
  unfoldable pub is_readable : Region → S → Bool
  is_readable r s = ltb 0 r.size && (not (memory.is_protected s) || r.readable)

  unfoldable pub is_writable : Region → S → Bool
  is_writable r s = ltb 0 r.size && (not (memory.is_protected s) || r.writable)

  unfoldable pub region_erase : Region → S → Bool × S
  region_erase r s = if is_writable r s then memory.erase s r.address r.size else (false, s)

  unfoldable pub region_read : Region → S → ℕ → List ℕ → Bool × List ℕ
  region_read r s position buffer =
      if is_readable r s then memory.read s (r.address + position) buffer else (false, buffer)

  unfoldable pub region_write : Region → S → ℕ → List ℕ → Bool × S
  region_write r s position buffer =
      if is_writable r s then memory.write s (r.address + position) buffer else (false, s)

  unfoldable pub memory_region : Region → Flash S
  memory_region r = record {
    lock = memory.lock;
    unlock = memory.unlock;
    erase = region_erase r;
    read = region_read r;
    write = region_write r;
  }

-- A type of the storage: its hash, and the bytes of `T{}`.
pub record Entry : Type 0 where
  pub type_hash : ℕ
  pub initial : List ℕ

-- `sizeof(CrcType)`, which is `sizeof(TypeHash::Type)`, and the greatest `CrcType`
abbrev pub crc_size : ℕ
crc_size = 4

abbrev pub crc_max : ℕ
crc_max = 0xFFFFFFFF

-- `ConfigWrapper::count`, the bytes of padding behind a value of this size.
unfoldable pub padding : ℕ → ℕ
padding size = if nonzero (size % crc_size) then crc_size - size % crc_size else 0

unfoldable pub wrap : List ℕ → List ℕ
wrap value = value ++ replicate (padding (length value)) 0

unfoldable pub next_offset : ℕ → Entry → ℕ
next_offset offset entry = offset + length (wrap entry.initial) + crc_size

-- The checksum of a type's hash and a value.
unfoldable pub entry_checksum : (ℕ → List ℕ → ℕ) → Entry → List ℕ → ℕ
entry_checksum crc entry buffer = crc (crc 0 (to_bytes crc_size entry.type_hash)) buffer

module _ {ℓ} {S : Type ℓ} (flash : Flash S) (crc : ℕ → List ℕ → ℕ) where
  -- `ConfigRwHandler::load`; `stack` is what `expectedChecksum` holds before it is read. The values
  -- follow the list of their types.
  unfoldable pub load_entries : List ℕ → List Entry → ℕ → S → List (List ℕ) → Bool × List (List ℕ)
  load_entries stack [] offset s values = (true, values)
  load_entries stack (entry ∷ entries) offset s [] = (true, [])
  load_entries stack (entry ∷ entries) offset s (value ∷ values) =
      let buffer = (flash.read s offset (wrap entry.initial)).1 in
      let expected = from_bytes (flash.read s (offset + length (wrap entry.initial)) stack).1 in
      let later = load_entries stack entries (next_offset offset entry) s values in
      if not (expected == crc_max) && entry_checksum crc entry buffer == expected
      then (later.0, take (length entry.initial) buffer ∷ later.1)
      else (false, value ∷ values)

  -- `ConfigRwHandler::store`
  unfoldable pub store_entries : List Entry → ℕ → List (List ℕ) → S → Bool × S
  store_entries [] offset values s = (true, s)
  store_entries (entry ∷ entries) offset [] s = (true, s)
  store_entries (entry ∷ entries) offset (value ∷ values) s =
      let buffer = wrap value in
      let checksum = to_bytes crc_size (entry_checksum crc entry buffer) in
      let first = flash.write s offset buffer in
      let second = flash.write first.1 (offset + length buffer) checksum in
      let later = store_entries entries (next_offset offset entry) values second.1 in
      if not first.0 then (false, first.1) else (if not second.0 then (false, second.1) else later)

  -- `ConfigStorage::load` and `ConfigStorage::store`, with `shadow`.
  unfoldable pub load : List ℕ → List Entry → S → List (List ℕ) → Bool × List (List ℕ)
  load stack entries s shadow = load_entries stack entries 0 s shadow

  unfoldable pub store : List Entry → List (List ℕ) → S → Bool × S
  store entries shadow s =
      let erased = flash.erase (flash.unlock s) in
      let stored = store_entries entries 0 shadow erased.1 in
      if erased.0 then (stored.0, flash.lock stored.1) else (false, flash.lock erased.1)
