-- ===== src/Can/Convert/Packed.antt =====
-- Where the parts of a packed description of a field stand.
use i2c.Prelude.{
  ℕ, ◌+◌, ◌≤◌, ◌≡◌, refl, sym, ap, ap₂, ◌∙◌, false, ◌||◌, Option, some, List, [], ◌∷◌, ◌++◌, arith,
  length, length-append, drop, ltb, ◌>>=◌, inl, inr, Option-cases, >>=-eq-some,
}
use i2c.Memory.{store, copy_to, copy_to_lem}
use i2c.Can.Convert.{
  text, limit_bytes, put_part, pack_parts, pack_field_info_impl, max_field_name_length,
  max_unit_name_length,
}

-- A copy of two stretches is two copies.
copy_to-append :
    (buffer xs ys : List ℕ) (i : ℕ)
    → (copy_to buffer i xs >>= λ filled. copy_to filled (i + length xs) ys)
      ≡ copy_to buffer i (xs ++ ys)
unfolding copy_to
copy_to-append buffer [] ys i = ap (λ j. copy_to buffer j ys) (omega arith)
copy_to-append buffer (x ∷ xs) ys i = elim (Option-cases (store buffer i x)) [
  | inl outside ↦ rw outside refl
  | inr (filled, ran) ↦ rw ran (
      ap (λ j. copy_to filled (i + 1) xs >>= λ b. copy_to b j ys) (omega arith)
      ∙ copy_to-append filled xs ys (i + 1))
]

-- The parts behind each other, each but the last with its length before it.
abbrev pub packed : List ℕ → List ℕ → List ℕ → List ℕ → List ℕ
packed name unit min max =
    (length min ∷ min) ++ ((length max ∷ max) ++ ((length unit ∷ unit) ++ name))

split_copy :
    (buffer xs ys : List ℕ) (i j : ℕ) (final : List ℕ)
    → i + length xs ≡ j
    → copy_to buffer i (xs ++ ys) ≡ some final
    → (mid : List ℕ) × (copy_to buffer i xs ≡ some mid) × (copy_to mid j ys ≡ some final)
split_copy buffer xs ys i j final at e =
    let (mid, first, rest) =
      >>=-eq-some (copy_to buffer i xs) (λ filled. copy_to filled (i + length xs) ys) final
        (copy_to-append buffer xs ys i ∙ e) in
    (mid, first, ap (λ k. copy_to mid k ys) (sym at) ∙ rest)

length-packed :
    (name unit min max : List ℕ)
    → length (packed name unit min max) ≡ 3 + length min + length max + length unit + length name
length-packed name unit min max = omega (
  arith,
  length-append (length min ∷ min) ((length max ∷ max) ++ ((length unit ∷ unit) ++ name)),
  length-append (length max ∷ max) ((length unit ∷ unit) ++ name),
  length-append (length unit ∷ unit) name,
)

pack_parts_lem :
    (buffer name unit min max : List ℕ)
    → length (packed name unit min max) ≤ length buffer
    → pack_parts buffer name unit min max
      ≡ some (
        length (packed name unit min max),
        packed name unit min max ++ drop (length (packed name unit min max)) buffer,
      )
unfolding pack_parts put_part
pack_parts_lem buffer name unit min max room =
    let whole = copy_to_lem (packed name unit min max) buffer 0 (omega (arith, room)) in
    let (one, first, rest) =
      split_copy buffer (length min ∷ min) _ 0 (1 + length min) _ (omega arith) whole in
    let (two, second, rest2) =
      split_copy one (length max ∷ max) _ (1 + length min) (1 + length min + (1 + length max)) _
        (omega arith) rest in
    let (three, third, fourth) =
      split_copy two (length unit ∷ unit) name (1 + length min + (1 + length max))
        (1 + length min + (1 + length max) + (1 + length unit)) _ (omega arith) rest2 in
    rw (first, second, third, fourth)
      (ap₂ (λ n k. some (n, packed name unit min max ++ drop k buffer))
        (sym (length-packed name unit min max)) same)
  where
    same : 0 + length (packed name unit min max) ≡ length (packed name unit min max)
    same = omega arith

-- With room in the buffer, a unit of at most 16 and a name of at most 24 characters, a field is
-- described by its limits and its unit, each with its length before it, and its name; the length
-- returned is that of the description, and the rest of the buffer stays as it is.
pub pack_field_info_impl_lem :
    (size : ℕ) (buffer : List ℕ) (name unit min max : Option (List ℕ)) (low high : List ℕ)
    → limit_bytes size min ≡ some low
    → limit_bytes size max ≡ some high
    → length (text unit) ≤ 16
    → length (text name) ≤ 24
    → length (packed (text name) (text unit) low high) ≤ length buffer
    → pack_field_info_impl size buffer name unit min max
      ≡ some (
        length (packed (text name) (text unit) low high),
        packed (text name) (text unit) low high
            ++ drop (length (packed (text name) (text unit) low high)) buffer,
      )
unfolding pack_field_info_impl
pack_field_info_impl_lem size buffer name unit min max low high got_low got_high short short' room =
    let guard : (ltb max_unit_name_length (length (text unit))
          || ltb max_field_name_length (length (text name)))
        ≡ false =
      ground arith in
    rw (guard, got_low, got_high) (pack_parts_lem buffer (text name) (text unit) low high room)
