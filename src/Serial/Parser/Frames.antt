-- ===== src/Serial/Parser/Frames.antt =====
-- What `create` writes, `update` reads back.
use i2c.Prelude.{
  ℕ, suc, ◌+◌, ◌-◌, ◌≤◌, ◌<◌, ◌≡◌, refl, ap, ap₂, subst, ◌∙◌, false, List, [], ◌∷◌, ◌++◌,
  append_assoc, arith, length, set, take, length-set, size_mod, ◌==◌, u8, if◌then◌else◌,
}
use i2c.Memory.{take-set_next}
use i2c.Serial.State.{State}
use i2c.Serial.Parser.{
  Parser, start_character, initial_checksum, buffer_length, finished, accept, update_loop,
}

-- The bytes of a frame: start character, length less one, payload, checksum.
unfoldable pub frame : (ℕ → List ℕ → ℕ) → List ℕ → List ℕ
frame crc payload =
    start_character ∷ u8 (length payload - 1) ∷ payload ++ crc initial_checksum payload ∷ []

-- A parser from its parts.
abbrev pub at : List ℕ → ℕ → ℕ → State → Parser
at buffer n position s = record {
  buffer = buffer;
  message_length = n;
  message_position = position;
  parser_state = s;
}

module _ (limit : ℕ) (crc : ℕ → List ℕ → ℕ) where
  -- One round of the loop.
  pub loop_step :
      (value : ℕ) (input : List ℕ) (i : ℕ) (p : Parser)
      → finished p ≡ false
      → update_loop limit crc (value ∷ input) i p
        ≡ update_loop limit crc input (i + 1) (accept limit crc p value)
  unfolding update_loop
  loop_step value input i p going = rw going

  payload_more :
      (buffer : List ℕ) (n k x : ℕ)
      → n < size_mod
      → k + 1 < n
      → accept limit crc (at buffer n k State.payload) x
        ≡ at (set buffer k x) n (k + 1) State.payload
  unfolding accept
  payload_more buffer n k x b h = ground arith

  payload_last :
      (buffer : List ℕ) (n k x : ℕ)
      → n < size_mod
      → k + 1 ≡ n
      → accept limit crc (at buffer n k State.payload) x ≡ at (set buffer k x) n n State.checksum
  unfolding accept
  payload_last buffer n k x b h = ground arith

  -- The payload is stored byte by byte, and the checksum is awaited behind its last byte.
  payload_loop :
      (buffer : List ℕ) (n k : ℕ) (stored : List ℕ) (x : ℕ) (xs rest : List ℕ) (i : ℕ)
      → n < size_mod
      → n ≤ length buffer
      → k + suc (length xs) ≡ n
      → take k buffer ≡ stored
      → (buffer' : List ℕ) × (update_loop limit crc (x ∷ xs ++ rest) i (at buffer n k State.payload)
          ≡ update_loop limit crc rest (i + suc (length xs)) (at buffer' n n State.checksum))
        × (take n buffer' ≡ stored ++ x ∷ xs)
        × (length buffer' ≡ length buffer)
  unfolding finished
  payload_loop buffer n k stored x [] rest i b room count held = (
    set buffer k x,
    loop_step x rest i (at buffer n k State.payload) refl
        ∙ ap (update_loop limit crc rest (i + 1)) (payload_last buffer n k x b count),
    subst (λ m. take m (set buffer k x) ≡ stored ++ x ∷ []) count
        (take-set_next buffer k x stored (omega arith) held),
    length-set buffer k x,
  )
  payload_loop buffer n k stored x (y ∷ ys) rest i b room count held =
      let (buffer', ran, kept, sized) =
        payload_loop (set buffer k x) n (k + 1) (stored ++ x ∷ []) y ys rest (i + 1) b
          (omega (arith, length-set buffer k x)) (omega arith)
          (take-set_next buffer k x stored (omega arith) held) in
      (
        buffer',
        loop_step x (y ∷ ys ++ rest) i (at buffer n k State.payload) refl
            ∙ ap (update_loop limit crc (y ∷ ys ++ rest) (i + 1))
                (payload_more buffer n k x b (omega arith))
            ∙ ran
            ∙ ap (λ j. update_loop limit crc rest j (at buffer' n n State.checksum)) (omega arith),
        kept ∙ append_assoc stored (x ∷ []) (y ∷ ys),
        sized ∙ length-set buffer k x,
      )

  start_byte :
      (buffer : List ℕ) (n k : ℕ)
      → accept limit crc (at buffer n k State.idle) start_character ≡ at buffer n k State.length
  unfolding accept
  start_byte buffer n k = refl

  length_byte :
      (buffer : List ℕ) (m k value : ℕ)
      → value < limit
      → accept limit crc (at buffer m k State.length) value ≡ at buffer (value + 1) 0 State.payload
  unfolding accept
  length_byte buffer m k value h = ground arith

  checksum_byte :
      (buffer : List ℕ) (n k value : ℕ)
      → accept limit crc (at buffer n k State.checksum) value
        ≡ at buffer n k (
            if crc initial_checksum (take n buffer) == value
            then State.done
            else State.error_checksum)
  unfolding accept
  checksum_byte buffer n k value = refl

  -- The parser behind a frame that stored this payload and ended with this byte.
  abbrev pub closed : List ℕ → ℕ → List ℕ → ℕ → Parser
  closed buffer n payload sum =
      at buffer n n
        (if crc initial_checksum payload == sum then State.done else State.error_checksum)

  -- The loop on a whole frame with any checksum byte, from an idle parser.
  pub frame_loop :
      (buffer : List ℕ) (m k x : ℕ) (xs : List ℕ) (sum : ℕ) (rest : List ℕ) (i : ℕ)
      → suc (length xs) ≤ limit
      → limit ≤ 256
      → length buffer ≡ buffer_length limit
      → (buffer' : List ℕ) × (update_loop limit crc
            (start_character ∷ u8 (suc (length xs) - 1) ∷ (x ∷ xs ++ (sum ∷ rest)))
            i
            (at buffer m k State.idle)
          ≡ update_loop limit crc rest
              (i + suc (length xs) + 3)
              (closed buffer' (suc (length xs)) (x ∷ xs) sum))
        × (take (suc (length xs)) buffer' ≡ x ∷ xs)
        × (length buffer' ≡ buffer_length limit)
  unfolding finished
  frame_loop buffer m k x xs sum rest i fits small sized =
      let n = suc (length xs) in
      let (buffer', ran, kept, sized') =
        payload_loop buffer n 0 [] x xs (sum ∷ rest) (i + 1 + 1) (omega arith) (omega arith)
          (omega arith) refl in
      (
        buffer',
        loop_step start_character _ i (at buffer m k State.idle) refl
            ∙ ap (update_loop limit crc (u8 (n - 1) ∷ (x ∷ xs ++ (sum ∷ rest))) (i + 1))
                (start_byte buffer m k)
            ∙ loop_step (u8 (n - 1)) _ (i + 1) (at buffer m k State.length) refl
            ∙ ap (update_loop limit crc (x ∷ xs ++ (sum ∷ rest)) (i + 1 + 1)) (
                length_byte buffer m k (u8 (n - 1)) (omega arith)
                ∙ ap (λ j. at buffer j 0 State.payload) (omega arith))
            ∙ ran
            ∙ loop_step sum rest (i + 1 + 1 + n) (at buffer' n n State.checksum) refl
            ∙ ap (update_loop limit crc rest (i + 1 + 1 + n + 1)) (checksum_byte buffer' n n sum)
            ∙ ap₂ (λ j t. update_loop limit crc rest j (closed buffer' n t sum)) (omega arith) kept,
        kept,
        sized' ∙ sized,
      )
