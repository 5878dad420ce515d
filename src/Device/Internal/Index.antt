-- ===== src/Device/Internal/Index.antt =====
-- The search of a field by its name, whose index is one byte.
use i2c.Prelude.{
  ℕ, zero, suc, ◌+◌, ◌-◌, ◌≤◌, ◌<◌, ◌≡◌, ◌≢◌, refl, sym, ap, ap₂, ◌∙◌, ◌⊎◌, inl, inr, true, false,
  none, some, List, [], ◌∷◌, arith, length, get_elem?, get_elem?-lt, ltb, ltb_iff, ◌==◌, ==_iff,
  Bool-cases, both, u8,
}
use i2c.Core.{field_reserved_id}
use i2c.Device.Field.{AbstractField}
use i2c.Device.Internal.{AbstractFile, same_string, find_index}

same_string-true : (a b : List ℕ) → same_string a b ≡ true → a ≡ b
unfolding same_string
same_string-true [] [] e = refl
same_string-true [] (y ∷ ys) e = cc
same_string-true (x ∷ xs) [] e = cc
same_string-true (x ∷ xs) (y ∷ ys) e =
    let (first, rest) = both (x == y) (same_string xs ys) e in
    ap₂ (λ x xs. x ∷ xs) ((==_iff x y).0 first) (same_string-true xs ys rest)

same_string_refl : (a : List ℕ) → same_string a a ≡ true
unfolding same_string
same_string_refl [] = refl
same_string_refl (x ∷ xs) = rw ((==_iff x x).1 refl, same_string_refl xs) refl

module _ {F G : Type 0} (field_of : AbstractField F) (file_of : AbstractFile G) (name : List ℕ)
    (fields : List F) where
  -- None of the first `n` fields has the name.
  abbrev pub Unnamed : ℕ → Type 0
  Unnamed n = (j : ℕ) (f : F) → j < n → get_elem? fields j ≡ some f → field_of.name f ≢ name

  -- The place of the first field with the name, or the reserved index if there is none.
  abbrev pub IsFirst : ℕ → Type 0
  IsFirst k =
      ((f : F) × (get_elem? fields k ≡ some f) × (field_of.name f ≡ name) × Unnamed k)
      ⊎ ((k ≡ field_reserved_id) × Unnamed (length fields))

  other_name : (f : F) → same_string (field_of.name f) name ≡ false → field_of.name f ≢ name
  other_name f e same =
      let wrong : true ≡ false =
        sym (same_string_refl name) ∙ ap (λ n. same_string n name) (sym same) ∙ e in
      cc

  one_more :
      (i : ℕ) (f : F)
      → get_elem? fields i ≡ some f
      → field_of.name f ≢ name
      → Unnamed i
      → Unnamed (i + 1)
  one_more i f at other before j g h found = elim (Bool-cases (j == i)) [
    | inr earlier ↦ before j g (ground arith) found
    | inl now ↦
        let same : g ≡ f =
          found_once g (sym found ∙ ap (λ k. get_elem? fields k) ((==_iff j i).0 now) ∙ at) in
        λ e. other (ap field_of.name (sym same) ∙ e)
  ]
    where
      found_once : (g : F) → some g ≡ some f → g ≡ f
      found_once g e = cc

  find_from :
      (rounds i : ℕ)
      → length fields ≤ 255
      → i ≤ length fields
      → length fields - i < rounds
      → Unnamed i
      → (k : ℕ) × (find_index field_of file_of rounds i name fields ≡ some k) × IsFirst k
  unfolding find_index
  find_from zero i small inside enough before = absurd (omega arith)
  find_from (suc rounds) i small inside enough before = elim (Bool-cases (ltb i (length fields))) [
    | inr out ↦
        (field_reserved_id, rw out refl, inr (refl, λ j f h found. before j f (ground arith) found))
    | inl more ↦
        let (f, at) = get_elem?-lt fields i ((ltb_iff _ _).0 more) in
        elim (Bool-cases (same_string (field_of.name f) name)) [
          | inl same ↦ (
            i,
            rw (more, at, same) refl,
            inl (f, at, same_string-true (field_of.name f) name same, before),
          )
          | inr other ↦
              let (k, ran, first) =
                find_from rounds (i + 1) small (ground arith) (ground arith)
                  (one_more i f at (other_name f other) before) in
              let next : u8 (i + 1) ≡ i + 1 = ground arith in
              (k, rw (more, at, other, next) ran, first)
        ]
  ]

  -- With at most 255 fields the search by name ends, and gives the place of the first field with that
  -- name, or the reserved index 255 if no field has it.
  pub find_index_lem :
      length fields ≤ 255
      → (k : ℕ) × (find_index field_of file_of (length fields + 1) 0 name fields ≡ some k)
        × IsFirst k
  find_index_lem small =
      find_from (length fields + 1) 0 small (omega arith) (omega arith)
        (λ j f h found. absurd (omega (arith, h)))

  -- With 256 fields or more none of which has the name, the search never ends: however many rounds
  -- it is given, from whichever index it starts.
  pub find_index_endless :
      256 ≤ length fields
      → Unnamed (length fields)
      → (rounds i : ℕ) → i < 256
      → find_index field_of file_of rounds i name fields ≡ none
  unfolding find_index
  find_index_endless many nowhere zero i h = refl
  find_index_endless many nowhere (suc rounds) i h =
      let (f, at) = get_elem?-lt fields i (omega (arith, h, many)) in
      let more : ltb i (length fields) ≡ true = (ltb_iff _ _).1 (omega (arith, h, many)) in
      elim (Bool-cases (same_string (field_of.name f) name)) [
        | inl same ↦
            absurd (
              nowhere i f (omega (arith, h, many)) at
                (same_string-true (field_of.name f) name same))
        | inr other ↦
            rw (more, at, other) (find_index_endless many nowhere rounds (u8 (i + 1)) (omega arith))
      ]
