-- ===== src/Device/Field.antt =====
-- DroneDevice/Include/DroneDevice/InternalDevice: the fields of a device. AbstractField.hpp is a record
-- of operations over a field's state, and each class of fields fills it. A value of the template's
-- type T is the list of its bytes; `none` is a read behind the memory of the new value.
pub mod Stored
use i2c.Prelude.{
  ℕ, ◌+◌, ◌≤◌, Bool, true, false, ◌&&◌, Option, none, some, List, [], ◌∷◌, length, take, ltb, ◌==◌,
  if◌then◌else◌, ◌>>=◌,
}
use i2c.Core.{FieldType, Result, field_readable, field_writable, field_important, field_max_size}

-- `AbstractField`. `read` gives the bytes that it writes to the caller's buffer.
pub record AbstractField {ℓ} (F : Type ℓ) : Type ℓ where
  pub dimension : F → ℕ
  pub flags : F → ℕ
  pub max : F → List ℕ
  pub min : F → List ℕ
  pub name : F → List ℕ
  pub read : F → Result × List ℕ
  pub scale : F → ℕ
  pub field_type : F → FieldType
  pub unit : F → List ℕ
  pub write : F → List ℕ → Option (F × Result)

-- The template's parameters: T with its size, its type and its limits, and the others.
pub record Template : Type 0 where
  pub width : ℕ
  pub type_value : FieldType
  pub highest : List ℕ
  pub lowest : List ℕ
  pub readonly : Bool
  pub magnitude : ℕ
  pub elements : ℕ
  pub important : Bool

-- `flags` of the classes that hold a value.
unfoldable pub value_flags : Template → ℕ
value_flags t =
    field_readable
    + (if t.readonly then 0 else field_writable)
    + (if t.important then field_important else 0)

-- `memcpy` of `sizeof(T)` bytes from the caller's memory.
unfoldable pub load : ℕ → List ℕ → Option (List ℕ)
load width input = if ltb (length input) width then none else some (take width input)

-- VolatileField.hpp
pub record VolatileField : Type 0 where
  pub name_string : List ℕ
  pub value : List ℕ

unfoldable pub volatile_write : Template → VolatileField → List ℕ → Option (VolatileField × Result)
volatile_write t f input =
    if t.readonly
    then some (f, Result.field_read_only)
    else (load t.width input >>= λ value. some (record f { value = value }, Result.success))

unfoldable pub volatile_field : Template → AbstractField VolatileField
volatile_field t = record {
  dimension = λ f. t.elements;
  flags = λ f. value_flags t;
  max = λ f. t.highest;
  min = λ f. t.lowest;
  name = λ f. f.name_string;
  read = λ f. (Result.success, f.value);
  scale = λ f. t.magnitude;
  field_type = λ f. t.type_value;
  unit = λ f. [];
  write = volatile_write t;
}

-- ExtendedVolatileField.hpp
pub record ExtendedField : Type 0 where
  pub name_string : List ℕ
  pub value : List ℕ
  pub max_value : List ℕ
  pub min_value : List ℕ
  pub unit_string : List ℕ

-- `at_most` is the operator `<=` of T.
unfoldable pub extended_write :
    Template → (List ℕ → List ℕ → Bool) → ExtendedField → List ℕ → Option (ExtendedField × Result)
extended_write t at_most f input =
    if t.readonly
    then some (f, Result.field_read_only)
    else (load t.width input >>= λ buffer. some (
        if at_most f.min_value buffer && at_most buffer f.max_value
        then (record f { value = buffer }, Result.success)
        else (f, Result.field_range_error)))

unfoldable pub extended_field : Template → (List ℕ → List ℕ → Bool) → AbstractField ExtendedField
extended_field t at_most = record {
  dimension = λ f. t.elements;
  flags = λ f. value_flags t;
  max = λ f. f.max_value;
  min = λ f. f.min_value;
  name = λ f. f.name_string;
  read = λ f. (Result.success, f.value);
  scale = λ f. t.magnitude;
  field_type = λ f. t.type_value;
  unit = λ f. f.unit_string;
  write = extended_write t at_most;
}

-- BlankField.hpp: a subclass reads, here from its name.
unfoldable pub blank_write : Template → List ℕ → List ℕ → Option (List ℕ × Result)
blank_write t f input =
    some (f, if t.readonly then Result.field_read_only else Result.field_unavailable)

unfoldable pub blank_field : Template → (List ℕ → Result × List ℕ) → AbstractField (List ℕ)
blank_field t read = record {
  dimension = λ f. t.elements;
  flags = λ f. value_flags t;
  max = λ f. t.highest;
  min = λ f. t.lowest;
  name = λ f. f;
  read = read;
  scale = λ f. t.magnitude;
  field_type = λ f. t.type_value;
  unit = λ f. [];
  write = blank_write t;
}

-- FunctorField.hpp: a field over a context, with functions that may be null.
pub record FunctorField {ℓ} (C : Type ℓ) : Type ℓ where
  pub name_string : List ℕ
  pub context : C
  pub read_func : Option (C → Result × List ℕ)
  pub write_func : Option (C → List ℕ → Option (C × Result))

abbrev is_some {ℓ} : {A : Type ℓ} → Option A → Bool
is_some none = false
is_some (some a) = true

module _ {ℓ} {C : Type ℓ} where
  unfoldable pub functor_flags : Template → FunctorField C → ℕ
  functor_flags t f =
      (if t.important then field_important else 0)
      + (if is_some f.read_func then field_readable else 0)
      + (if is_some f.write_func then field_writable else 0)

  unfoldable pub read_with : Option (C → Result × List ℕ) → C → Result × List ℕ
  read_with none c = (Result.command_error, [])
  read_with (some func) c = func c

  unfoldable pub write_with :
      Option (C → List ℕ → Option (C × Result))
      → FunctorField C
      → List ℕ
      → Option (FunctorField C × Result)
  write_with none f input = some (f, Result.field_read_only)
  write_with (some func) f input =
      func f.context input >>= λ r. some (record f { context = r.0 }, r.1)

  unfoldable pub functor_field : Template → AbstractField (FunctorField C)
  functor_field t = record {
    dimension = λ f. t.elements;
    flags = functor_flags t;
    max = λ f. t.highest;
    min = λ f. t.lowest;
    name = λ f. f.name_string;
    read = λ f. read_with f.read_func f.context;
    scale = λ f. t.magnitude;
    field_type = λ f. t.type_value;
    unit = λ f. [];
    write = λ f. write_with f.write_func f;
  }
