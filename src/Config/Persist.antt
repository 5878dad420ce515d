-- ===== src/Config/Persist.antt =====
-- A written field is in the flash memory.
use i2c.Prelude.{
  ℕ, zero, suc, ◌+◌, ◌≤◌, ◌≡◌, refl, sym, ap, ap₂, ◌∙◌, Bool, true, false, some, List, [], ◌∷◌,
  ◌++◌, arith, length, get_elem?, set, take, drop, length-append, length-take, length-drop,
  get_elem?-set_self, lt_of_get_elem?, take-length-append, drop-length-append,
}
use i2c.Core.{Result}
use i2c.Device.Field.{Template}
use i2c.Device.Field.Stored.{load_lem}
use i2c.Config.{Flash, Entry, crc_size, load}
use i2c.Config.Contents.{IsFlash}
use i2c.Config.Saved.{Typed, end_offset}
use i2c.Config.Loaded.{Accepted, load-store}
use i2c.Config.Fields.{
  ConfigField, member, with_member, read_member, config_read, config_update, config_write,
}

length-with_member :
    (position : ℕ) (input value : List ℕ)
    → position + length input ≤ length value
    → length (with_member position input value) ≡ length value
unfolding with_member
length-with_member position input value h = omega (
  arith,
  length-append (take position value) (input ++ drop (position + length input) value),
  length-append input (drop (position + length input) value),
  length-take position value,
  length-drop (position + length input) value,
)

member-with_member :
    (position width : ℕ) (input value : List ℕ)
    → length input ≡ width
    → position + width ≤ length value
    → member position width (with_member position input value) ≡ input
unfolding member with_member
member-with_member position width input value sized h =
    let tail = drop (position + length input) value in
    ap₂ (λ n p. take n (drop p (take position value ++ (input ++ tail)))) (sym sized)
      (sym (length-take position value ∙ omega (arith, h)))
    ∙ ap (take (length input)) (drop-length-append (take position value) (input ++ tail))
    ∙ take-length-append input tail

Typed-set :
    (entries : List Entry) (values : List (List ℕ)) (place : ℕ) (value new : List ℕ)
    → Typed entries values
    → get_elem? values place ≡ some value
    → length new ≡ length value
    → Typed entries (set values place new)
Typed-set [] [] place value new typed found same = cc
Typed-set [] (v ∷ values) place value new impossible found same = absurd impossible
Typed-set (entry ∷ entries) [] place value new impossible found same = absurd impossible
Typed-set (entry ∷ entries) (v ∷ values) zero value new typed found same =
    (same ∙ ap length (first v found) ∙ typed.0, typed.1)
  where
    first : (v : List ℕ) → some v ≡ some value → value ≡ v
    first v e = cc
Typed-set (entry ∷ entries) (v ∷ values) (suc place) value new typed found same =
    (typed.0, Typed-set entries values place value new typed.1 found same)

module _ {S : Type 0} (flash : Flash S) (contents : S → ℕ → ℕ) (ready : S → Type 0) (capacity : ℕ)
    (law : IsFlash flash contents ready capacity) (crc : ℕ → List ℕ → ℕ) (entries : List Entry)
    (t : Template) (differs : List ℕ → List ℕ → Bool) where
  config_read_lem :
      (f : ConfigField S) (bytes value : List ℕ)
      → get_elem? f.shadow f.place ≡ some value
      → member f.position t.width value ≡ bytes
      → config_read flash crc entries t true differs f ≡ (Result.success, bytes)
  unfolding config_read read_member
  config_read_lem f bytes value found held = rw found (ap (λ b. (Result.success, b)) held)

  -- A field that writes through and is not read-only takes a new value that differs from its own: it
  -- reads back that value, and a load from the flash memory gives the storage with it, whatever is
  -- loaded over. The values have the sizes of their types, the member is inside of its value, the
  -- storage fits the memory, and no checksum of it is the greatest 32-bit number.
  pub load-config_write :
      (f : ConfigField S) (value input stack : List ℕ) (old : List (List ℕ))
      → t.readonly ≡ false
      → get_elem? f.shadow f.place ≡ some value
      → f.position + t.width ≤ length value
      → t.width ≤ length input
      → differs (take t.width input) (member f.position t.width value) ≡ true
      → Typed entries f.shadow
      → Typed entries old
      → Accepted flash contents ready capacity law crc entries
          (set f.shadow f.place (with_member f.position (take t.width input) value))
      → end_offset 0 entries ≤ capacity
      → length stack ≡ crc_size
      → (f' : ConfigField S) × (config_write flash crc entries t true differs f input
          ≡ some (f', Result.success))
        × (config_read flash crc entries t true differs f' ≡ (Result.success, take t.width input))
        × (load flash crc stack entries f'.memory old ≡ (true, f'.shadow))
  unfolding config_write config_update
  load-config_write f value input stack old open_field found inside long new typed typed' good room
        sized =
      let bytes = take t.width input in
      let width : length bytes ≡ t.width = length-take t.width input ∙ omega (arith, long) in
      let changed = with_member f.position bytes value in
      let shadow = set f.shadow f.place changed in
      let (memory, ran, loaded) =
        load-store flash contents ready capacity law crc stack entries shadow old f.memory sized
          (Typed-set entries f.shadow f.place value changed typed found
            (length-with_member f.position bytes value (omega (arith, width, inside))))
          typed' good room in
      (
        record f { shadow = shadow; memory = memory },
        rw (open_field, found, load_lem t.width input long, new, ran) refl,
        config_read_lem (record f { shadow = shadow; memory = memory }) bytes changed
            (get_elem?-set_self f.shadow f.place changed
              (lt_of_get_elem? f.shadow f.place value found))
            (member-with_member f.position t.width bytes value width inside),
        loaded,
      )
