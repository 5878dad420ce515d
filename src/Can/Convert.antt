-- ===== src/Can/Convert.antt =====
-- PlazCan/CanHelpers.hpp: values between their own type and the types of the bus, and the description
-- of a field in a message.
pub mod Signs
pub mod Packed
use i2c.Prelude.{
  ℕ, ◌+◌, ◌-◌, ◌*◌, ◌^◌, bit_and, bit_or, Bool, true, false, ◌&&◌, ◌||◌, Option, none, some, List,
  [], ◌∷◌, ◌++◌, length, take, ltb, nonzero, if◌then◌else◌, ◌>>=◌,
}
use i2c.Core.{FieldType, size_of_field_type, is_signed_type, to_bytes, from_bytes}
use i2c.Memory.{copy_to}
use i2c.Device.Field.{load}

-- `upconvertInteger`: the 8 bytes of the output.
unfoldable pub upconvert_integer : List ℕ → FieldType → List ℕ
upconvert_integer input t =
    let size = size_of_field_type t in
    let value = from_bytes (take size input) in
    let mask = 2 ^ (size * 8) in
    let extended = if nonzero (bit_and value mask) then bit_or value (2 ^ 64 - mask) else value in
    to_bytes 8 (if ltb size 8 && is_signed_type t then extended else value)

-- `downconvertInteger`: the bytes of the output.
unfoldable pub downconvert_integer : List ℕ → FieldType → List ℕ
downconvert_integer input t = take (size_of_field_type t) input

-- `kMaxFieldNameLength` and `kMaxUnitNameLength`
abbrev pub max_field_name_length : ℕ
max_field_name_length = 24

abbrev pub max_unit_name_length : ℕ
max_unit_name_length = 16

-- A string that may be null.
abbrev pub text : Option (List ℕ) → List ℕ
text none = []
text (some characters) = characters

-- A limit that may be null; `none` outside is a read behind its memory.
unfoldable pub limit_bytes : ℕ → Option (List ℕ) → Option (List ℕ)
limit_bytes size none = some []
limit_bytes size (some value) = load size value

-- A length byte with the bytes behind it; `none` is a write outside of the buffer.
unfoldable pub put_part : List ℕ → ℕ → List ℕ → Option (List ℕ)
put_part buffer position part = copy_to buffer position (length part ∷ part)

-- `packFieldInfoImpl` behind its check: the length that it returns, and the buffer.
unfoldable pub pack_parts : List ℕ → List ℕ → List ℕ → List ℕ → List ℕ → Option (ℕ × List ℕ)
pack_parts buffer name unit min max = do
  with_min ← put_part buffer 0 min
  with_max ← put_part with_min (1 + length min) max
  with_unit ← put_part with_max (1 + length min + (1 + length max)) unit
  with_name ← copy_to with_unit (1 + length min + (1 + length max) + (1 + length unit)) name
  some (3 + length min + length max + length unit + length name, with_name)

unfoldable pub pack_field_info_impl :
    ℕ
    → List ℕ
    → Option (List ℕ)
    → Option (List ℕ)
    → Option (List ℕ)
    → Option (List ℕ)
    → Option (ℕ × List ℕ)
pack_field_info_impl size buffer name unit min max =
    if ltb max_unit_name_length (length (text unit))
      || ltb max_field_name_length (length (text name))
    then some (0, buffer)
    else (limit_bytes size min >>= λ low.
        limit_bytes size max >>= λ high. pack_parts buffer (text name) (text unit) low high)

-- `packFieldInfo`: every type but `UNDEFINED` has the size of its case.
unfoldable pub pack_field_info :
    List ℕ
    → FieldType
    → Option (List ℕ)
    → Option (List ℕ)
    → Option (List ℕ)
    → Option (List ℕ)
    → Option (ℕ × List ℕ)
pack_field_info buffer FieldType.undefined name unit min max = some (0, buffer)
pack_field_info buffer t name unit min max =
    pack_field_info_impl (size_of_field_type t) buffer name unit min max
