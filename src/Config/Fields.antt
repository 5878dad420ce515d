-- ===== src/Config/Fields.antt =====
-- InternalDevice/ConfigField.hpp: a field of a device that is a member of a value of the storage.
use i2c.Prelude.{
  ℕ, ◌+◌, Bool, Option, none, some, List, [], ◌++◌, length, get_elem?, set, take, drop,
  if◌then◌else◌, ◌>>=◌,
}
use i2c.Core.{Result}
use i2c.Device.Field.{AbstractField, Template, load, value_flags}
use i2c.Config.{Flash, Entry, store}

-- A field with the storage behind its reference: the values and the flash memory. `place` is the
-- value's place in the storage, and `position` the member's in the value.
pub record ConfigField {ℓ} (S : Type ℓ) : Type ℓ where
  pub name_string : List ℕ
  pub place : ℕ
  pub position : ℕ
  pub shadow : List (List ℕ)
  pub memory : S

-- `memcpy` of a member out of its value and to it.
unfoldable pub member : ℕ → ℕ → List ℕ → List ℕ
member position width value = take width (drop position value)

-- The place is one of the storage, so that there is a value.
unfoldable pub read_member : ℕ → ℕ → Option (List ℕ) → List ℕ
read_member position width none = []
read_member position width (some value) = member position width value

unfoldable pub with_member : ℕ → List ℕ → List ℕ → List ℕ
with_member position input value =
    take position value ++ (input ++ drop (position + length input) value)

module _ {ℓ} {S : Type ℓ} (flash : Flash S) (crc : ℕ → List ℕ → ℕ) (entries : List Entry)
    (t : Template) (writethrough : Bool) (differs : List ℕ → List ℕ → Bool) where
  unfoldable pub config_read : ConfigField S → Result × List ℕ
  config_read f = (Result.success, read_member f.position t.width (get_elem? f.shadow f.place))

  -- The storage with the new member, stored if the field writes through; the result of the store is
  -- dropped.
  unfoldable pub config_update : ConfigField S → List ℕ → List ℕ → ConfigField S
  config_update f value input =
      let shadow = set f.shadow f.place (with_member f.position input value) in
      record f {
        shadow = shadow;
        memory = if writethrough then (store flash crc entries shadow f.memory).1 else f.memory;
      }

  -- `differs` is the operator `!=` of the member's type.
  unfoldable pub config_write : ConfigField S → List ℕ → Option (ConfigField S × Result)
  config_write f input =
      if t.readonly
      then some (f, Result.field_read_only)
      else (get_elem? f.shadow f.place >>= λ value. load t.width input >>= λ new. some (
        if differs new (member f.position t.width value) then config_update f value new else f,
        Result.success,
      ))

  unfoldable pub config_field : AbstractField (ConfigField S)
  config_field = record {
    dimension = λ f. t.elements;
    flags = λ f. value_flags t;
    max = λ f. t.highest;
    min = λ f. t.lowest;
    name = λ f. f.name_string;
    read = config_read;
    scale = λ f. t.magnitude;
    field_type = λ f. t.type_value;
    unit = λ f. [];
    write = config_write;
  }
