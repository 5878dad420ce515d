-- ===== src/Config/Tests.antt =====
-- A storage of a value of 3 bytes and one of 4, in a memory of 64 bytes.
use i2c.Prelude.{
  ℕ, suc, ◌+◌, ◌-◌, ◌%◌, ◌&&◌, ◌<◌, ◌≡◌, refl, ap, ap₂, ◌∙◌, Bool, true, false, some, not, ◌==◌,
  List, [], ◌∷◌, arith, length, get_or, ltb, replicate, if◌then◌else◌,
}
use i2c.Core.{FieldType, Result}
use i2c.Device.Field.{Template}
use i2c.Config.{
  Interface, Region, memory_region, Entry, crc_max, entry_checksum, wrap, padding, next_offset,
  load, store,
}
use i2c.Config.Contents.{bytes_at, IsFlash}
use i2c.Config.Guarded.{IsMemory, memory_region-IsFlash}
use i2c.Config.Loaded.{load-store, load_rejects}
use i2c.Config.Fields.{ConfigField, member, with_member, config_read, config_write}
use i2c.Config.Persist.{load-config_write}

-- A memory is the function of its bytes. It refuses an erase that does not start at a sector, and a write
-- that is not of whole words.
abbrev written : (ℕ → ℕ) → ℕ → List ℕ → ℕ → ℕ
written s position buffer q =
    if ltb q position
    then s q
    else if ltb q (position + length buffer)
    then get_or buffer (q - position) 0
    else s q

abbrev ram : Interface (ℕ → ℕ)
ram = record {
  is_protected = λ s. true;
  lock = λ s. s;
  unlock = λ s. s;
  erase = λ s position n. if position % 32 == 0 then (true, λ q. 255) else (false, s);
  read = λ s position buffer. (true, bytes_at s position (length buffer));
  write = λ s position buffer.
      if position % 4 == 0 && (length buffer % 4 == 0)
      then (true, written s position buffer)
      else (false, s);
}

bytes_at_list :
    (position : ℕ) (buffer : List ℕ) (m : ℕ → ℕ)
    → ((i : ℕ) → i < length buffer → m (position + i) ≡ get_or buffer i 0)
    → bytes_at m position (length buffer) ≡ buffer
bytes_at_list position [] m same = refl
bytes_at_list position (b ∷ bs) m same =
    ap₂ (λ x xs. x ∷ xs) (ap m (omega arith) ∙ same 0 (omega arith))
      (bytes_at_list (position + 1) bs m
        (λ i h. ap m {y = position + suc i} (omega arith) ∙ same (suc i) (omega (arith, h))))

written_in :
    (s : ℕ → ℕ) (position : ℕ) (buffer : List ℕ) (i : ℕ)
    → i < length buffer
    → written s position buffer (position + i) ≡ get_or buffer i 0
written_in s position buffer i h =
    let behind : ltb (position + i) position ≡ false = ground arith in
    let before : ltb (position + i) (position + length buffer) ≡ true = ground arith in
    rw (behind, before) (ap (λ k. get_or buffer k 0) (omega arith))

abbrev IsSector : ℕ → ℕ → Type 0
IsSector position n = position % 32 ≡ 0

ram-IsMemory : IsMemory ram (λ s. s) (λ s. Unit) IsSector 0 64
ram-IsMemory = record {
  read_law = λ s position buffer low fits. refl;
  unlock_law = λ s. tt;
  erase_law = λ s position n unlocked whole low fits.
      let fine : (position % 32 == 0) ≡ true = ground (arith, whole) in
      (λ q. 255, rw fine refl, tt, λ q low high. refl);
  write_law = λ s position buffer unlocked start words low fits erased.
      let fine : (position % 4 == 0) ≡ true = ground (arith, start) in
      let fine' : (length buffer % 4 == 0) ≡ true = ground (arith, words) in
      (
        written s position buffer,
        rw (fine, fine') refl,
        tt,
        bytes_at_list position buffer (written s position buffer) (written_in s position buffer),
        λ q away. ground arith,
      );
  lock_law = λ s q. refl;
}

abbrev half : Region
half = record { address = 32; size = 32; readable = true; writable = true }

half-IsFlash : IsFlash (memory_region ram half) (λ s q. s (32 + q)) (λ s. Unit) 32
half-IsFlash =
    memory_region-IsFlash ram (λ s. s) (λ s. Unit) IsSector 0 64 ram-IsMemory half (omega arith)
      refl refl refl refl (omega arith) (omega arith)

abbrev sum : ℕ → List ℕ → ℕ
sum start bytes = start + length bytes

abbrev worst : ℕ → List ℕ → ℕ
worst start bytes = crc_max

abbrev types : List Entry
types =
    record { type_hash = 7; initial = replicate 3 0 }
    ∷ record { type_hash = 8; initial = replicate 4 0 }
    ∷ []

abbrev settings : List (List ℕ)
settings = (1 ∷ 2 ∷ 3 ∷ []) ∷ (4 ∷ 5 ∷ 6 ∷ 7 ∷ []) ∷ []

abbrev fresh : List (List ℕ)
fresh = replicate 3 0 ∷ replicate 4 0 ∷ []

wrap_run : wrap (1 ∷ 2 ∷ 3 ∷ []) ≡ 1 ∷ 2 ∷ 3 ∷ 0 ∷ []
unfolding wrap padding
wrap_run = refl

load-store_example :
    (s' : ℕ → ℕ) × (store (memory_region ram half) sum types settings (λ q. 0) ≡ (true, s'))
    × (load (memory_region ram half) sum (replicate 4 0) types s' fresh ≡ (true, settings))
unfolding entry_checksum wrap padding next_offset
load-store_example =
    load-store (memory_region ram half) (λ s q. s (32 + q)) (λ s. Unit) 32 half-IsFlash sum
      (replicate 4 0) types settings fresh (λ q. 0) refl (refl, (refl, tt)) (refl, (refl, tt))
      (omega arith, (omega arith, tt)) (omega arith)

load_rejects_example :
    (s' : ℕ → ℕ) × (store (memory_region ram half) worst types settings (λ q. 0) ≡ (true, s'))
    × (load (memory_region ram half) worst (replicate 4 0) types s' fresh ≡ (false, fresh))
unfolding entry_checksum wrap padding next_offset
load_rejects_example =
    load_rejects (memory_region ram half) (λ s q. s (32 + q)) (λ s. Unit) 32 half-IsFlash worst
      (replicate 4 0) (record { type_hash = 7; initial = replicate 3 0 })
      (record { type_hash = 8; initial = replicate 4 0 } ∷ []) (1 ∷ 2 ∷ 3 ∷ []) (replicate 3 0)
      ((4 ∷ 5 ∷ 6 ∷ 7 ∷ []) ∷ []) (replicate 4 0 ∷ []) (λ q. 0) refl (refl, (refl, tt)) refl
      (omega arith)

abbrev byte : Template
byte = record {
  width = 1;
  type_value = FieldType.uint8;
  highest = 255 ∷ [];
  lowest = 0 ∷ [];
  readonly = false;
  magnitude = 0;
  elements = 1;
  important = true;
}

abbrev differs : List ℕ → List ℕ → Bool
differs (a ∷ as') (b ∷ bs) = not (a == b)
differs _ _ = false

-- The second byte of the second value.
abbrev gain : ConfigField (ℕ → ℕ)
gain = record {
  name_string = 103 ∷ [];
  place = 1;
  position = 1;
  shadow = settings;
  memory = λ q. 0;
}

load-config_write_example :
    (f' : ConfigField (ℕ → ℕ)) × (config_write
        (memory_region ram half)
        sum
        types
        byte
        true
        differs
        gain
        (9 ∷ [])
      ≡ some (f', Result.success))
    × (config_read (memory_region ram half) sum types byte true differs f'
        ≡ (Result.success, 9 ∷ []))
    × (load (memory_region ram half) sum (replicate 4 0) types f'.memory fresh ≡ (true, f'.shadow))
unfolding entry_checksum wrap padding next_offset member with_member
load-config_write_example =
    load-config_write (memory_region ram half) (λ s q. s (32 + q)) (λ s. Unit) 32 half-IsFlash sum
      types byte differs gain (4 ∷ 5 ∷ 6 ∷ 7 ∷ []) (9 ∷ []) (replicate 4 0) fresh refl refl
      (omega arith) (omega arith) refl (refl, (refl, tt)) (refl, (refl, tt))
      (omega arith, (omega arith, tt)) (omega arith) refl
