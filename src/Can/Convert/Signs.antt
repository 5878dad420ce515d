-- ===== src/Can/Convert/Signs.antt =====
-- What the conversions of integers keep.
use i2c.Prelude.{
  ℕ, zero, suc, subst, ◌*◌, ◌/◌, ◌%◌, ◌^◌, ◌≤◌, ◌<◌, ◌≡◌, refl, sym, ap, ◌∙◌, bit_and, Bool, true,
  false, ◌&&◌, List, [], ◌∷◌, arith, length, length-take, take, ltb, nonzero, if◌then◌else◌, Bytes,
}
use native.Mathlib.Nat.{div-eq_of_lt}
use i2c.Bits.Masks.{and-bit}
use i2c.Core.{FieldType, size_of_field_type, is_signed_type, to_bytes, from_bytes}
use i2c.Core.Sizes.{size_of_field_type_le, from_bytes-lt, from_bytes-to_bytes, to_bytes-from_bytes}
use i2c.Can.Convert.{upconvert_integer, downconvert_integer}

no_bit : (k value : ℕ) → value < 2 ^ k → nonzero (bit_and value (2 ^ k)) ≡ false
no_bit k value h =
    let none_above : value / 2 ^ k ≡ 0 = div-eq_of_lt h in
    rw (and-bit k value, none_above) (ground arith)

size_pow : (t : FieldType) → 256 ^ size_of_field_type t ≡ 2 ^ (size_of_field_type t * 8)
unfolding size_of_field_type
size_pow FieldType.bool = refl
size_pow _ = refl

Bytes-take : (n : ℕ) (xs : List ℕ) → Bytes xs → Bytes (take n xs)
Bytes-take zero xs h = tt
Bytes-take (suc n) [] h = tt
Bytes-take (suc n) (x ∷ xs) h = (h.0, Bytes-take n xs h.1)

value_lt :
    (input : List ℕ) (t : FieldType)
    → Bytes input
    → size_of_field_type t ≤ length input
    → from_bytes (take (size_of_field_type t) input) < 256 ^ size_of_field_type t
value_lt input t bytes long =
    subst (λ n. from_bytes (take (size_of_field_type t) input) < 256 ^ n)
      (length-take (size_of_field_type t) input ∙ omega (arith, long))
      (from_bytes-lt (take (size_of_field_type t) input)
        (Bytes-take (size_of_field_type t) input bytes))

-- The conversion up never sets the bytes behind the value's own: they are 0 for every type and every
-- value, negative ones included.
upconvert_integer_lem :
    (input : List ℕ) (t : FieldType)
    → Bytes input
    → size_of_field_type t ≤ length input
    → upconvert_integer input t ≡ to_bytes 8 (from_bytes (take (size_of_field_type t) input))
unfolding upconvert_integer
upconvert_integer_lem input t bytes long =
    let small =
      subst (λ n. from_bytes (take (size_of_field_type t) input) < n) (size_pow t)
        (value_lt input t bytes long) in
    rw (no_bit (size_of_field_type t * 8) (from_bytes (take (size_of_field_type t) input)) small) (
      ap (to_bytes 8) (
        same (ltb (size_of_field_type t) 8 && is_signed_type t)
          (from_bytes (take (size_of_field_type t) input))))
  where
    same : (b : Bool) (v : ℕ) → (if b then v else v) ≡ v
    same true v = refl
    same false v = refl

pow_size_le : (t : FieldType) → 256 ^ size_of_field_type t ≤ 256 ^ 8
unfolding size_of_field_type
pow_size_le FieldType.bool = omega arith
pow_size_le _ = omega arith

-- The number that 8 converted bytes stand for is the value read without a sign, for signed types too:
-- a negative value of a type of less than 8 bytes becomes a positive one.
pub from_bytes-upconvert_integer :
    (input : List ℕ) (t : FieldType)
    → Bytes input
    → size_of_field_type t ≤ length input
    → from_bytes (upconvert_integer input t) ≡ from_bytes (take (size_of_field_type t) input)
from_bytes-upconvert_integer input t bytes long =
    ap from_bytes (upconvert_integer_lem input t bytes long)
    ∙ from_bytes-to_bytes 8 (from_bytes (take (size_of_field_type t) input))
        (omega (arith, value_lt input t bytes long, pow_size_le t))

take-to_bytes : (n m v : ℕ) → n ≤ m → take n (to_bytes m v) ≡ to_bytes n v
take-to_bytes zero m v h = refl
take-to_bytes (suc n) zero v h = absurd (omega (arith, h))
take-to_bytes (suc n) (suc m) v h =
    ap (λ xs. v % 256 ∷ xs) (take-to_bytes n m (v / 256) (omega (arith, h)))

-- A value that is converted up and down again is the same.
pub downconvert_integer-upconvert_integer :
    (input : List ℕ) (t : FieldType)
    → Bytes input
    → size_of_field_type t ≤ length input
    → downconvert_integer (upconvert_integer input t) t ≡ take (size_of_field_type t) input
unfolding downconvert_integer
downconvert_integer-upconvert_integer input t bytes long =
    let value = take (size_of_field_type t) input in
    let size : length value ≡ size_of_field_type t =
      length-take (size_of_field_type t) input ∙ omega (arith, long) in
    ap (take (size_of_field_type t)) (upconvert_integer_lem input t bytes long)
    ∙ take-to_bytes (size_of_field_type t) 8 (from_bytes value) (size_of_field_type_le t)
    ∙ ap (λ n. to_bytes n (from_bytes value)) (sym size)
    ∙ to_bytes-from_bytes value (Bytes-take (size_of_field_type t) input bytes)
