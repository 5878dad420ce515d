-- ===== src/Can/Tests.antt =====
-- A bus with two devices, and conversions of a few values.
use i2c.Prelude.{
  ℕ, ◌+◌, ◌<◌, ◌≡◌, refl, zero, suc, ◌⊎◌, true, false, if◌then◌else◌, ◌==◌, Option, none, some,
  List, [], ◌∷◌, ◌++◌, arith, replicate,
}
use i2c.Core.{FieldType, from_bytes, size_of_field_type}
use i2c.Device.Field.{load}
use i2c.Can.Nodes.{attach, detach, get_node_count, is_address_free, is_next_allocatee}
use i2c.Can.Nodes.Allocation.{Absent, detach-attach, next_allocatee_lem}
use i2c.Can.Convert.{upconvert_integer, limit_bytes, pack_field_info_impl}
use i2c.Can.Convert.Signs.{from_bytes-upconvert_integer}
use i2c.Can.Convert.Packed.{pack_field_info_impl_lem}

abbrev bus : List (Option ℕ)
bus = some 3 ∷ none ∷ some 5 ∷ []

-- Device 5 has no address yet.
abbrev address_of : ℕ → ℕ
address_of device = if device == 5 then 0 else device + 10

Absent-four : Absent 4 bus
Absent-four zero e = cc
Absent-four (suc zero) e = cc
Absent-four (suc (suc zero)) e = cc
Absent-four (suc (suc (suc i))) e = cc

detach-attach_example :
    (((attach 4 bus).0 ≡ true)
      × (get_node_count bus < 3)
      × (get_node_count (attach 4 bus).1 ≡ get_node_count bus + 1)
      × (detach 4 (attach 4 bus).1 ≡ bus))
    ⊎ (((attach 4 bus).0 ≡ false) × (get_node_count bus ≡ 3) × ((attach 4 bus).1 ≡ bus))
detach-attach_example = detach-attach 4 bus Absent-four

next_allocatee_lem_example :
    (device : ℕ) × (is_next_allocatee address_of device bus ≡ true)
    × (address_of device ≡ 0)
    × ((other : ℕ) → is_next_allocatee address_of other bus ≡ true → other ≡ device)
unfolding is_address_free
next_allocatee_lem_example = next_allocatee_lem address_of bus refl

-- The value -2 as an int16_t.
from_bytes-upconvert_integer_example :
    from_bytes (upconvert_integer (254 ∷ 255 ∷ []) FieldType.int16) ≡ 65534
unfolding size_of_field_type
from_bytes-upconvert_integer_example =
    from_bytes-upconvert_integer (254 ∷ 255 ∷ []) FieldType.int16 (omega arith, (omega arith, tt))
      (omega arith)

pack_field_info_impl_lem_example :
    pack_field_info_impl 2 (replicate 12 9) (some (110 ∷ 97 ∷ [])) none (some (1 ∷ 0 ∷ 7 ∷ [])) none
    ≡ some (7, (2 ∷ 1 ∷ 0 ∷ 0 ∷ 0 ∷ 110 ∷ 97 ∷ []) ++ replicate 5 9)
unfolding limit_bytes load
pack_field_info_impl_lem_example =
    pack_field_info_impl_lem 2 (replicate 12 9) (some (110 ∷ 97 ∷ [])) none (some (1 ∷ 0 ∷ 7 ∷ []))
      none (1 ∷ 0 ∷ []) [] refl refl (omega arith) (omega arith) (omega arith)
