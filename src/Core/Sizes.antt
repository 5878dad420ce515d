-- ===== src/Core/Sizes.antt =====
-- The classes of field types, and numbers as bytes.
use i2c.Prelude.{
  ℕ, zero, suc, ◌+◌, ◌*◌, ◌/◌, ◌^◌, ◌≤◌, ◌<◌, ◌≡◌, refl, ap, ◌∙◌, false, ◌&&◌, ◌||◌, List, [], ◌∷◌,
  arith, length, Bytes,
}
use i2c.Core.{
  FieldType, field_max_size, size_of_field_type, is_integer_type, is_signed_type, is_unsigned_type,
  to_bytes, from_bytes,
}
use native.Mathlib.Nat.{pow-suc, div-add-mod'}

-- No type is longer than the buffers for a field's value.
pub size_of_field_type_le : (t : FieldType) → size_of_field_type t ≤ field_max_size
unfolding size_of_field_type
size_of_field_type_le FieldType.bool = omega arith
size_of_field_type_le _ = omega arith

-- An integer type is signed or unsigned, never both, and no other type is either.
pub is_integer_type_lem :
    (t : FieldType)
    → (is_integer_type t ≡ (is_signed_type t || is_unsigned_type t))
      × ((is_signed_type t && is_unsigned_type t) ≡ false)
unfolding is_integer_type is_signed_type is_unsigned_type
is_integer_type_lem FieldType.bool = (refl, refl)
is_integer_type_lem _ = (refl, refl)

pub length-to_bytes : (n v : ℕ) → length (to_bytes n v) ≡ n
length-to_bytes zero v = refl
length-to_bytes (suc n) v = ap suc (length-to_bytes n (v / 256))

pub to_bytes-Bytes : (n v : ℕ) → Bytes (to_bytes n v)
to_bytes-Bytes zero v = tt
to_bytes-Bytes (suc n) v = (omega arith, to_bytes-Bytes n (v / 256))

pub from_bytes-lt : (bytes : List ℕ) → Bytes bytes → from_bytes bytes < 256 ^ length bytes
from_bytes-lt [] b = omega arith
from_bytes-lt (x ∷ xs) b = omega (arith, from_bytes-lt xs b.1, b.0, pow-suc 256 (length xs))

-- Bytes, as a number and back.
pub to_bytes-from_bytes :
    (bytes : List ℕ) → Bytes bytes → to_bytes (length bytes) (from_bytes bytes) ≡ bytes
to_bytes-from_bytes [] b = refl
to_bytes-from_bytes (x ∷ xs) b =
    ap (λ d. d ∷ to_bytes (length xs) ((x + 256 * from_bytes xs) / 256)) (omega (arith, b.0))
    ∙ ap (λ v. x ∷ to_bytes (length xs) v) (omega (arith, b.0))
    ∙ ap (◌∷◌ x) (to_bytes-from_bytes xs b.1)

-- A number that fits, as bytes and back.
pub from_bytes-to_bytes : (n v : ℕ) → v < 256 ^ n → from_bytes (to_bytes n v) ≡ v
from_bytes-to_bytes zero v h = omega arith
from_bytes-to_bytes (suc n) v h =
    omega
      (arith, from_bytes-to_bytes n (v / 256) (omega (arith, h, pow-suc 256 n)), div-add-mod' v 256)
