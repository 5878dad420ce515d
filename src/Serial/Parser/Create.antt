-- ===== src/Serial/Parser/Create.antt =====
-- `create` on the memory that it is given: the frame that it writes, and when it leaves the array.
use i2c.Prelude.{
  ℕ, suc, ◌+◌, ◌≤◌, ◌<◌, ◌≡◌, sym, ap, ap₂, ◌∙◌, false, none, some, List, [], ◌∷◌, ◌++◌,
  append_assoc, arith, length, set, take, drop, length-set, drop-set_self, ◌⊎◌, inl, inr, ltb, ◌||◌,
  ◌==◌, u8, sub_size,
}
use i2c.Serial.Parser.{start_character, initial_checksum, prefix_length, write_frame, create}
use i2c.Serial.Parser.Frames.{frame}
use i2c.Memory.{store_in, store_out, copy_to_lem}

-- What the guard of `create` lets through.
accepts :
    (buffer payload : List ℕ)
    → 1 ≤ length payload
    → length payload ≤ length buffer
    → (length buffer == 0 || (length payload == 0 || ltb (length buffer) (length payload))) ≡ false
accepts buffer payload h fits = ground arith

module _ (crc : ℕ → List ℕ → ℕ) where
  write_frame_lem :
      (b₀ b₁ : ℕ) (tail payload : List ℕ)
      → suc (length payload) ≤ length tail
      → write_frame crc (b₀ ∷ b₁ ∷ tail) payload
        ≡ some (
          length payload + 3,
          start_character ∷ u8 (sub_size (length payload) 1) ∷ payload
              ++ crc initial_checksum payload ∷ drop (suc (length payload)) tail,
        )
  unfolding write_frame
  write_frame_lem b₀ b₁ tail payload h =
      rw
        (
          store_in (b₀ ∷ b₁ ∷ tail) 0 start_character (omega arith),
          store_in (start_character ∷ b₁ ∷ tail) 1 size (omega arith),
          store_in sized (prefix_length + length payload) sum (omega arith),
          copy_to_lem payload (set sized (prefix_length + length payload) sum) 2
              (omega (arith, length-set sized (prefix_length + length payload) sum)),
        )
        (ap₂ (λ n b. some (n, b)) (omega arith) (placed ∙ ending))
    where
      size : ℕ
      size = u8 (sub_size (length payload) 1)

      sum : ℕ
      sum = crc initial_checksum payload

      sized : List ℕ
      sized = start_character ∷ size ∷ tail

      placed :
          take 2 (set sized (2 + length payload) sum)
            ++ (payload ++ drop (2 + length payload) (set sized (2 + length payload) sum))
          ≡ start_character ∷ size ∷ payload
            ++ drop (length payload) (set tail (length payload) sum)
      placed =
          ap (λ j. take 2 (set sized j sum) ++ (payload ++ drop j (set sized j sum)))
            {y = suc (suc (length payload))} (omega arith)

      ending :
          start_character ∷ size ∷ payload ++ drop (length payload) (set tail (length payload) sum)
          ≡ start_character ∷ size ∷ payload ++ sum ∷ drop (suc (length payload)) tail
      ending =
          ap (λ r. start_character ∷ size ∷ payload ++ r)
            (drop-set_self tail (length payload) sum h)

  -- With room for the frame, a payload that is not empty is written as its frame at the start of the
  -- buffer, the rest of the buffer stays, and the frame's size is returned.
  pub create_lem :
      (buffer payload : List ℕ)
      → 1 ≤ length payload
      → length payload + 3 ≤ length buffer
      → create crc buffer (some payload)
        ≡ some (length payload + 3, frame crc payload ++ drop (length payload + 3) buffer)
  unfolding create frame
  create_lem [] payload h r = absurd (omega arith)
  create_lem (b₀ ∷ []) payload h r = absurd (omega arith)
  create_lem (b₀ ∷ b₁ ∷ tail) [] h r = absurd (omega arith)
  create_lem (b₀ ∷ b₁ ∷ tail) (x ∷ xs) h r =
      rw (accepts (b₀ ∷ b₁ ∷ tail) (x ∷ xs) h (omega arith)) (
        write_frame_lem b₀ b₁ tail (x ∷ xs) (omega arith)
        ∙ ap some (
            ap₂ (λ (v : ℕ) (r : List ℕ). (suc (length xs) + 3, start_character ∷ v ∷ x ∷ r))
              (omega arith) same))
    where
      sum : ℕ
      sum = crc initial_checksum (x ∷ xs)

      same :
          xs ++ sum ∷ drop (suc (suc (length xs))) tail
          ≡ (xs ++ sum ∷ []) ++ drop (suc (length xs) + 3) (b₀ ∷ b₁ ∷ tail)
      same =
          ap (λ j. xs ++ sum ∷ drop j (b₀ ∷ b₁ ∷ tail)) {x = suc (suc (suc (suc (length xs))))}
            (omega arith)
          ∙ sym (append_assoc xs (sum ∷ []) (drop (suc (length xs) + 3) (b₀ ∷ b₁ ∷ tail)))

  -- The guard looks at the payload alone: where the payload fits the buffer and its frame does not,
  -- `create` writes behind the end of the buffer.
  pub create_overrun :
      (buffer payload : List ℕ)
      → 1 ≤ length payload
      → length payload ≤ length buffer
      → length buffer < length payload + 3
      → create crc buffer (some payload) ≡ none
  unfolding create write_frame
  create_overrun [] payload h fits short = absurd (omega arith)
  create_overrun (b₀ ∷ []) payload h fits short = rw (
    accepts (b₀ ∷ []) payload h fits,
    store_in (b₀ ∷ []) 0 start_character (omega arith),
    store_out (start_character ∷ []) 1 (u8 (sub_size (length payload) 1)) (omega arith),
  )
  create_overrun (b₀ ∷ b₁ ∷ tail) payload h fits short =
      let size : ℕ = u8 (sub_size (length payload) 1) in
      rw (
        accepts (b₀ ∷ b₁ ∷ tail) payload h fits,
        store_in (b₀ ∷ b₁ ∷ tail) 0 start_character (omega arith),
        store_in (start_character ∷ b₁ ∷ tail) 1 size (omega arith),
        store_out (start_character ∷ size ∷ tail) (prefix_length + length payload)
            (crc initial_checksum payload) (omega arith),
      )

  -- A payload that is longer than the buffer, or empty, is refused and nothing is written.
  pub create_refused :
      (buffer payload : List ℕ)
      → (length payload ≡ 0) ⊎ (length buffer < length payload)
      → create crc buffer (some payload) ≡ some (0, buffer)
  unfolding create
  create_refused buffer payload (inl e) = ground arith
  create_refused buffer payload (inr e) = ground arith
