-- ===== src/Serial/Parser/RoundTrip.antt =====
-- `create` and `update` are inverse: a frame is read back as its payload, and a frame with a wrong
-- checksum is refused.
use i2c.Prelude.{
  ℕ, suc, ◌+◌, ◌-◌, ◌≤◌, ◌≡◌, ◌≢◌, refl, sym, ap, subst, ◌∙◌, ◌⊎◌, inl, inr, true, some, List, [],
  ◌∷◌, ◌++◌, append-nil, append_assoc, arith, length, take, drop, length-append, take-length-append,
  ◌==◌, u8, if◌then◌else◌,
}
use i2c.Serial.State.{State}
use i2c.Serial.Parser.{
  Parser, start_character, initial_checksum, message, finished, reset, update, update_loop, create,
}
use i2c.Serial.Parser.Invariant.{IsValid, update-IsValid}
use i2c.Serial.Parser.Frames.{frame, at, closed, frame_loop}
use i2c.Serial.Parser.Create.{create_lem}

-- A parser that starts a new frame with the next byte.
abbrev pub IsReady : Parser → Type 0
IsReady p = (finished p ≡ true) ⊎ (p.parser_state ≡ State.idle)

-- A frame's bytes with any checksum byte.
abbrev pub framed : List ℕ → ℕ → List ℕ → List ℕ
framed payload sum rest = start_character ∷ u8 (length payload - 1) ∷ (payload ++ sum ∷ rest)

module _ (limit : ℕ) (crc : ℕ → List ℕ → ℕ) where
  -- A call of `update` on a ready parser runs the loop on an idle one.
  update_ready :
      (p : Parser) (input : List ℕ)
      → IsReady p
      → update limit crc p input
        ≡ update_loop limit crc input 0 (at p.buffer p.message_length p.message_position State.idle)
  unfolding update reset finished
  update_ready p input (inl over) = rw over
  update_ready p input (inr idle) = rw idle

  pub loop_final :
      (input : List ℕ) (i : ℕ) (p : Parser)
      → finished p ≡ true
      → update_loop limit crc input i p ≡ (i, p)
  unfolding update_loop
  loop_final [] i p over = refl
  loop_final (value ∷ input) i p over = rw over

  -- What `update` makes of a frame with this checksum byte.
  record Read (payload : List ℕ) (sum : ℕ) (out : ℕ × Parser) : Type 0 where
    count : out.0 ≡ length payload + 3
    verdict :
        out.1.parser_state
        ≡ (if crc initial_checksum payload == sum then State.done else State.error_checksum)
    content : message out.1 ≡ payload

  closed_final :
      (buffer payload : List ℕ) (n sum : ℕ)
      → finished (closed limit crc buffer n payload sum) ≡ true
  unfolding finished
  closed_final buffer payload n sum = ground arith

  update-Read :
      (p : Parser) (payload : List ℕ) (sum : ℕ) (rest : List ℕ)
      → IsValid limit p
      → limit ≤ 256
      → IsReady p
      → 1 ≤ length payload
      → length payload ≤ limit
      → Read payload sum (update limit crc p (framed payload sum rest))
  update-Read p [] sum rest v small ready h fits = absurd (omega arith)
  update-Read p (x ∷ xs) sum rest v small ready h fits =
      let (buffer', ran, kept, sized) =
        frame_loop limit crc p.buffer p.message_length p.message_position x xs sum rest 0 fits small
          v.sized in
      let n = suc (length xs) in
      let q = closed limit crc buffer' n (x ∷ xs) sum in
      subst (Read (x ∷ xs) sum)
        (sym (
          update_ready p (framed (x ∷ xs) sum rest) ready
          ∙ ran
          ∙ loop_final rest (0 + n + 3) q (closed_final buffer' (x ∷ xs) n sum)))
        (record { count = omega arith; verdict = refl; content = unfold message in kept })

  -- A valid parser that starts a new frame (`limit` at most 256) reads a frame of 1 to `limit` payload
  -- bytes, whatever follows it, as its payload: it consumes exactly the frame and stops in the state
  -- DONE with the payload as its message, and stays valid.
  pub update-frame :
      (p : Parser) (payload rest : List ℕ)
      → IsValid limit p
      → limit ≤ 256
      → IsReady p
      → 1 ≤ length payload
      → length payload ≤ limit
      → let (n, q) = update limit crc p (frame crc payload ++ rest) in
        (n ≡ length payload + 3)
        × (q.parser_state ≡ State.done)
        × (message q ≡ payload)
        × IsValid limit q
  update-frame p payload rest v small ready h fits = (
    ap (λ t. (update limit crc p t).0) shape ∙ read.count,
    ap (λ t. (update limit crc p t).1.parser_state) shape ∙ read.verdict ∙ accepted,
    ap (λ t. message (update limit crc p t).1) shape ∙ read.content,
    update-IsValid limit crc p (frame crc payload ++ rest) v,
  )
    where
      sum : ℕ
      sum = crc initial_checksum payload

      read : Read payload sum (update limit crc p (framed payload sum rest))
      read = update-Read p payload sum rest v small ready h fits

      shape : frame crc payload ++ rest ≡ framed payload sum rest
      shape =
          unfold frame in
          ap (λ t. start_character ∷ u8 (length payload - 1) ∷ t)
            (append_assoc payload (sum ∷ []) rest)

      accepted : (if sum == sum then State.done else State.error_checksum) ≡ State.done
      accepted = ground arith

  -- A valid parser that starts a new frame (`limit` at most 256) refuses a frame of 1 to `limit`
  -- payload bytes whose last byte is not the checksum of the payload: it consumes the frame and stops in
  -- the state ERROR_CHECKSUM.
  pub update_bad_checksum :
      (p : Parser) (payload : List ℕ) (sum : ℕ) (rest : List ℕ)
      → IsValid limit p
      → limit ≤ 256
      → IsReady p
      → 1 ≤ length payload
      → length payload ≤ limit
      → crc initial_checksum payload ≢ sum
      → let (n, q) = update limit crc p (framed payload sum rest) in
        (n ≡ length payload + 3) × (q.parser_state ≡ State.error_checksum)
  update_bad_checksum p payload sum rest v small ready h fits wrong =
      let read = update-Read p payload sum rest v small ready h fits in
      (read.count, read.verdict ∙ refused)
    where
      refused :
          (if crc initial_checksum payload == sum then State.done else State.error_checksum)
          ≡ State.error_checksum
      refused = ground arith

  -- For a payload of 1 to `limit` bytes (`limit` at most 256) and a buffer with room for 3 more,
  -- `create` writes a frame from which a valid parser that starts a new frame reads the payload: it
  -- consumes exactly the bytes that `create` returned as the size, stops in the state DONE, and its
  -- message is the payload.
  pub update-create :
      (p : Parser) (buffer payload : List ℕ)
      → IsValid limit p
      → limit ≤ 256
      → IsReady p
      → 1 ≤ length payload
      → length payload ≤ limit
      → length payload + 3 ≤ length buffer
      → (n : ℕ) × (memory : List ℕ) × (create crc buffer (some payload) ≡ some (n, memory))
        × (let (read, q) = update limit crc p (take n memory) in
            (read ≡ n) × (q.parser_state ≡ State.done) × (message q ≡ payload))
  update-create p buffer payload v small ready h fits room = (
    length payload + 3,
    frame crc payload ++ drop (length payload + 3) buffer,
    create_lem crc buffer payload h room,
    subst
        (λ t.
          let (read, q) = update limit crc p t in
          (read ≡ length payload + 3) × (q.parser_state ≡ State.done) × (message q ≡ payload))
        (sym (taken ∙ sym (append-nil (frame crc payload))))
        (let (count, state, content, valid) = update-frame p payload [] v small ready h fits in
          (count, state, content)),
  )
    where
      size : length (frame crc payload) ≡ length payload + 3
      size =
          unfold frame in omega (arith, length-append payload (crc initial_checksum payload ∷ []))

      taken :
          take (length payload + 3) (frame crc payload ++ drop (length payload + 3) buffer)
          ≡ frame crc payload
      taken =
          ap (λ k. take k (frame crc payload ++ drop (length payload + 3) buffer)) (sym size)
          ∙ take-length-append (frame crc payload) (drop (length payload + 3) buffer)
