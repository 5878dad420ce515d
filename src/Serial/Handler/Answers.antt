-- ===== src/Serial/Handler/Answers.antt =====
-- What an answer writes, and that it gives the request's descriptor back.
use i2c.Prelude.{
  ℕ, ◌*◌, ◌≤◌, ◌≡◌, refl, append-nil, sym, ap, subst, ◌∙◌, Option, none, some, List, [], ◌∷◌, ◌++◌,
  arith, length, length-append, length-take, get_elem?, inl, inr, Option-cases, u8, take,
}
use i2c.Core.{size_of_field_type, to_bytes}
use i2c.Core.Sizes.{length-to_bytes}
use i2c.Device.{
  Event, on_field_info_received, on_field_received, on_file_read_end, on_file_info_received,
}
use i2c.Pool.{RequestPool}
use i2c.Pool.Ownership.{Owns}
use i2c.Serial.Parser.{buffer_length}
use i2c.Serial.Parser.Frames.{frame}
use i2c.Serial.Reply.{make_default_header}
use i2c.Serial.Reply.Sent.{send_message_lem}
use i2c.Serial.Handler.{
  Descriptor, Handler, max_pending_requests, response, append_sent, write_response, answer,
  on_event,
}
use i2c.Serial.Handler.Requests.{Sound, returned}

module _ (limit : ℕ) (crc : ℕ → List ℕ → ℕ) (stack : List ℕ) where
  -- What a response adds to what is written.
  abbrev pub framed_response : Option (List ℕ) → List (List ℕ)
  framed_response none = []
  framed_response (some reply) = frame crc reply ∷ []

  abbrev pub IsShort : Option (List ℕ) → Type 0
  IsShort none = Unit
  IsShort (some reply) = (1 ≤ length reply) × (length reply ≤ limit)

  append_frame :
      (written : List (List ℕ)) (reply : List ℕ)
      → append_sent crc stack written (frame crc reply) ≡ written ++ frame crc reply ∷ []
  unfolding append_sent frame
  append_frame written reply = refl

  write_response_lem :
      (reply : Option (List ℕ)) (h : Handler)
      → length stack ≡ buffer_length limit
      → IsShort reply
      → write_response crc stack reply h
        ≡ some (record h { written = h.written ++ framed_response reply })
  unfolding write_response
  write_response_lem none h sized short =
      ap (λ w. some (record h { written = w })) (sym (append-nil h.written))
  write_response_lem (some reply) h sized short =
      rw
        (send_message_lem limit crc stack reply sized short.0 short.1, append_frame h.written reply)

  -- A device's answer to a request that waits, with a response that `limit` leaves room for: the
  -- response is written as its frame and nothing else is, and the descriptor is free again.
  pub on_event_lem :
      (token : ℕ) (event : Event) (d : Descriptor) (reply : Option (List ℕ)) (h : Handler)
      (unused before later : List ℕ)
      → length stack ≡ buffer_length limit
      → Sound h unused (before ++ token ∷ later)
      → get_elem? h.pool.pool token ≡ some d
      → response event d ≡ some reply
      → IsShort reply
      → (after : Handler) × (on_event crc stack token event h ≡ some after)
        × (after.written ≡ h.written ++ framed_response reply)
        × Sound after (unused ++ token ∷ []) (before ++ later)
  unfolding on_event answer
  on_event_lem token event d reply h unused before later sized s at built short =
      let (pool, ran, sound) = returned h token d unused before later s at in
      (
        record { pool = pool; written = h.written ++ framed_response reply },
        rw (at, built, write_response_lem reply h sized short, ran),
        refl,
        record { owns = sound.owns; unshared = sound.unshared },
      )

-- What is left of a handler when a token's request was answered.
abbrev pub Answered : List ℕ → Option Handler → Type 0
Answered waiting none = Unit
Answered waiting (some h) = (unused : List ℕ) × Sound h unused waiting

module _ (crc : ℕ → List ℕ → ℕ) (stack : List ℕ) where
  -- Whatever is written, the pool stays as it is until the descriptor goes back.
  write_response-pool :
      (reply : Option (List ℕ)) (h h' : Handler)
      → write_response crc stack reply h ≡ some h'
      → h'.pool ≡ h.pool
  unfolding write_response
  write_response-pool none h h' e = ground arith
  write_response-pool (some reply) h h' e = ground arith

  answer-Answered :
      (token : ℕ) (reply : Option (List ℕ)) (d : Descriptor) (h : Handler)
      (unused before later : List ℕ)
      → Sound h unused (before ++ token ∷ later)
      → get_elem? h.pool.pool token ≡ some d
      → Answered (before ++ later) (answer crc stack token reply h)
  unfolding answer
  answer-Answered token reply d h unused before later s at =
      elim (Option-cases (write_response crc stack reply h)) [
        | inl outside ↦ rw outside tt
        | inr (h', written) ↦
            let same = write_response-pool reply h h' written in
            let s' : Sound h' unused (before ++ token ∷ later) = record {
              owns =
                  subst (λ pool. Owns max_pending_requests pool unused (before ++ token ∷ later))
                    (sym same) s.owns;
              unshared = λ i d' waits found.
                  s.unshared i d' waits
                    (sym (ap (λ (p : RequestPool Descriptor). get_elem? p.pool i) same) ∙ found);
            } in
            let (pool, ran, sound) =
              returned h' token d unused before later s'
                (ap (λ (p : RequestPool Descriptor). get_elem? p.pool token) same ∙ at) in
            rw (written, ran)
              (unused ++ token ∷ [], record { owns = sound.owns; unshared = sound.unshared })
      ]

  pub on_event-Answered :
      (token : ℕ) (event : Event) (h : Handler) (unused before later : List ℕ)
      → Sound h unused (before ++ token ∷ later)
      → Answered (before ++ later) (on_event crc stack token event h)
  unfolding on_event
  on_event-Answered token event h unused before later s =
      elim (Option-cases (get_elem? h.pool.pool token)) [
        | inl outside ↦ rw outside tt
        | inr (d, at) ↦ rw at (elim (Option-cases (response event d)) [
          | inl outside ↦ rw outside tt
          | inr (reply, built) ↦ rw built (answer-Answered token reply d h unused before later s at)
        ])
      ]

-- The answer names its request: every response starts with the request's number and the device's
-- address as a byte.
pub take-response :
    (event : Event) (d : Descriptor) (reply : List ℕ)
    → response event d ≡ some (some reply)
    → take 2 reply ≡ d.number ∷ u8 d.destination ∷ []
unfolding response make_default_header
take-response (on_field_info_received i value) d reply e = ground arith
take-response (on_field_received field value t dimension) d reply e = ground arith
take-response (on_file_read_end file offset bytes result) d reply e = ground arith
take-response _ d reply e = ground arith

-- No response is longer than the header and a chunk of a file.
pub response_le :
    (event : Event) (d : Descriptor) (reply : List ℕ)
    → response event d ≡ some (some reply)
    → (3 ≤ length reply) × (length reply ≤ 243)
unfolding response make_default_header
response_le (on_field_info_received i value) d reply e = ground arith
response_le (on_field_received field value t dimension) d reply e =
    ground (arith, length-take (size_of_field_type t * dimension) value)
response_le (on_file_info_received i) d reply e = ground (
  arith,
  length-append (to_bytes 4 i.size) (to_bytes 4 i.checksum),
  length-to_bytes 4 i.size,
  length-to_bytes 4 i.checksum,
)
response_le (on_file_read_end file offset bytes result) d reply e = ground arith
response_le _ d reply e = ground arith
