-- ===== src/Device/Field/Stored.antt =====
-- What a field holds after a write.
use i2c.Prelude.{
  ℕ, ◌≤◌, ◌≡◌, ◌≢◌, refl, ◌⊎◌, inl, inr, Bool, true, false, ◌&&◌, some, List, length, take, arith,
  Bool-cases,
}
use i2c.Core.{Result}
use i2c.Device.Field.{
  Template, load, VolatileField, volatile_write, volatile_field, ExtendedField, extended_write,
  extended_field,
}

pub load_lem :
    (width : ℕ) (input : List ℕ) → width ≤ length input → load width input ≡ some (take width input)
unfolding load
load_lem width input h = ground arith

-- A field that is not read-only reads back what was written last: the first `sizeof(T)` bytes of the
-- caller's memory.
pub read-write :
    (t : Template) (f : VolatileField) (input : List ℕ)
    → t.readonly ≡ false
    → t.width ≤ length input
    → (f' : VolatileField) × ((volatile_field t).write f input ≡ some (f', Result.success))
      × ((volatile_field t).read f' ≡ (Result.success, take t.width input))
unfolding volatile_field volatile_write
read-write t f input open_field h =
    (record f { value = take t.width input }, rw (open_field, load_lem t.width input h), refl)

-- The value of an extended field stays between its limits under every write, and a value outside of
-- them is refused and changes nothing.
pub extended_write_bounds :
    (t : Template) (at_most : List ℕ → List ℕ → Bool) (f : ExtendedField) (input : List ℕ)
    → at_most f.min_value f.value ≡ true
    → at_most f.value f.max_value ≡ true
    → t.width ≤ length input
    → (f' : ExtendedField) × (result : Result) × ((extended_field t at_most).write f input
        ≡ some (f', result))
      × (at_most f'.min_value f'.value ≡ true)
      × (at_most f'.value f'.max_value ≡ true)
      × (((f'.value ≡ take t.width input) × (result ≡ Result.success))
          ⊎ ((f' ≡ f) × (result ≢ Result.success)))
unfolding extended_field extended_write
extended_write_bounds t at_most f input low high h = elim (Bool-cases t.readonly) [
  | inl closed ↦ (f, Result.field_read_only, rw closed, low, high, inr (refl, λ e. cc))
  | inr open_field ↦
      let value = take t.width input in
      elim (Bool-cases (at_most f.min_value value && at_most value f.max_value)) [
        | inl inside ↦ (
          record f { value = value },
          Result.success,
          rw (open_field, load_lem t.width input h, inside),
          ground (arith, inside),
          ground (arith, inside),
          inl (refl, refl),
        )
        | inr outside ↦ (
          f,
          Result.field_range_error,
          rw (open_field, load_lem t.width input h, outside),
          low,
          high,
          inr (refl, λ e. cc),
        )
      ]
]
