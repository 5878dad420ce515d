-- ===== src/Core/Tests.antt =====
-- The sizes of the field types.
use i2c.Prelude.{◌≡◌, refl, true, [], ◌∷◌}
use i2c.Core.{FieldType, size_of_field_type, is_signed_type, from_bytes, to_bytes}

size_run : size_of_field_type FieldType.uint16 ≡ 2
unfolding size_of_field_type
size_run = refl

signed_run : is_signed_type FieldType.int64 ≡ true
unfolding is_signed_type
signed_run = refl

bytes_run : to_bytes 4 (from_bytes (1 ∷ 2 ∷ 3 ∷ 4 ∷ [])) ≡ 1 ∷ 2 ∷ 3 ∷ 4 ∷ []
bytes_run = refl
