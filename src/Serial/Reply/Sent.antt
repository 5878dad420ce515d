-- ===== src/Serial/Reply/Sent.antt =====
-- What reaches the interface, and what a client's parser reads.
use i2c.Prelude.{
  ℕ, ◌+◌, ◌≤◌, ◌<◌, ◌≡◌, ◌↔◌, refl, sym, ap, ◌∙◌, none, some, List, [], ◌∷◌, ◌++◌, append-nil,
  arith, length, length-append, take, drop, take-length-append, nonzero, if◌then◌else◌, u8, ◌>>=◌,
  true,
}
use i2c.Serial.State.{State}
use i2c.Serial.Parser.{Parser, buffer_length, initial_checksum, message, update}
use i2c.Serial.Parser.Invariant.{IsValid}
use i2c.Serial.Parser.Frames.{frame}
use i2c.Serial.Parser.Create.{create_lem, create_overrun}
use i2c.Serial.Parser.RoundTrip.{IsReady, update-frame}
use i2c.Core.{Result}
use i2c.Serial.Reply.{convert_command_result, header, send_message, send_result}

module _ (limit : ℕ) (crc : ℕ → List ℕ → ℕ) where
  -- A response of 1 to `limit` bytes is written as its frame, and nothing else is.
  pub send_message_lem :
      (memory response : List ℕ)
      → length memory ≡ buffer_length limit
      → 1 ≤ length response
      → length response ≤ limit
      → send_message crc memory response ≡ some (frame crc response)
  unfolding send_message
  send_message_lem memory response sized h fits =
      ap (λ o. o >>= λ r. some (if nonzero r.0 then take r.0 r.1 else []))
        (create_lem crc memory response h (omega (arith, sized)))
      ∙ ap (λ b. some (if b then take (length response + 3) written else [])) some_bytes
      ∙ ap (λ k. some (take k written)) (sym size)
      ∙ ap some (take-length-append (frame crc response) (drop (length response + 3) memory))
    where
      written : List ℕ
      written = frame crc response ++ drop (length response + 3) memory

      some_bytes : nonzero (length response + 3) ≡ true
      some_bytes = ground arith

      size : length (frame crc response) ≡ length response + 3
      size =
          unfold frame in omega (arith, length-append response (crc initial_checksum response ∷ []))

  -- A response of 1 to 3 bytes more than `limit` is written over the end of the buffer.
  pub send_message_overrun :
      (memory response : List ℕ)
      → length memory ≡ buffer_length limit
      → limit < length response
      → length response ≤ limit + 3
      → send_message crc memory response ≡ none
  unfolding send_message
  send_message_overrun memory response sized long fits =
      ap (λ o. o >>= λ r. some (if nonzero r.0 then take r.0 r.1 else []))
        (create_overrun crc memory response (omega arith) (omega (arith, sized))
          (omega (arith, sized)))

  -- A client whose valid parser starts a new frame (`limit` between 3 and 256) reads a result that the
  -- handler sends as the request's number, the device's address as a byte and the code of the result.
  pub update-send_result :
      (memory : List ℕ) (number device : ℕ) (error : Result) (p : Parser)
      → length memory ≡ buffer_length limit
      → 3 ≤ limit
      → limit ≤ 256
      → IsValid limit p
      → IsReady p
      → (sent : List ℕ) × (send_result crc memory number device error ≡ some sent)
        × ((update limit crc p sent).1.parser_state ≡ State.done)
        × (message (update limit crc p sent).1
            ≡ header number (u8 device) (convert_command_result error))
  unfolding send_result
  update-send_result memory number device error p sized wide small v ready =
      let reply = header number (u8 device) (convert_command_result error) in
      let (count, state, content, valid) =
        update-frame limit crc p reply [] v small ready (omega arith) (omega arith) in
      (
        frame crc reply,
        send_message_lem memory reply sized (omega arith) (omega arith),
        ap (λ t. (update limit crc p t).1.parser_state) (sym (append-nil (frame crc reply)))
            ∙ state,
        ap (λ t. message (update limit crc p t).1) (sym (append-nil (frame crc reply))) ∙ content,
      )

success_only : (error : Result) → convert_command_result error ≡ 0 → error ≡ Result.success
unfolding convert_command_result
success_only Result.success e = refl
success_only _ e = absurd (omega arith)

-- A client sees the code 0 for SUCCESS and for no other result.
pub convert_command_result_zero :
    (error : Result) → (convert_command_result error ≡ 0) ↔ (error ≡ Result.success)
unfolding convert_command_result
convert_command_result_zero error = (success_only error, λ e. ap convert_command_result e)
