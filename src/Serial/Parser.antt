-- ===== src/Serial/Parser.antt =====
-- PayloadProtocol/SerialParser.hpp: framing of messages on a byte stream. A frame is the start
-- character, the payload's length less one, the payload and its checksum.
pub mod Invariant
pub mod Frames
pub mod Create
pub mod RoundTrip
pub mod Noise
use i2c.Prelude.{
  ℕ, zero, suc, ◌+◌, ◌-◌, ◌≤◌, Bool, ◌&&◌, ◌||◌, not, Option, none, some, List, [], ◌∷◌, ◌++◌,
  length, set, take, drop, ltb, leb, ◌==◌, if◌then◌else◌, ◌>>=◌, u8, add_size, sub_size,
}
use i2c.Memory.{store, copy_to}
use i2c.Serial.State.{State, is_final}

-- `kInitialChecksum`, `kStartCharacter`, `kPrefixLength` and `kSuffixLength`
abbrev pub initial_checksum : ℕ
initial_checksum = 0x00

abbrev pub start_character : ℕ
start_character = 0x7E

abbrev pub prefix_length : ℕ
prefix_length = 2

abbrev pub suffix_length : ℕ
suffix_length = 1

-- `kBufferLength`
abbrev pub buffer_length : ℕ → ℕ
buffer_length limit = limit + prefix_length + suffix_length

pub record Parser : Type 0 where
  pub buffer : List ℕ
  pub message_length : ℕ
  pub message_position : ℕ
  pub parser_state : State

-- The constructor; the buffer holds whatever the memory held.
unfoldable pub init : List ℕ → Parser
init buffer = record {
  buffer = buffer;
  message_length = 0;
  message_position = 0;
  parser_state = State.idle;
}

-- What `data()` and `length()` give a client.
unfoldable pub message : Parser → List ℕ
message p = take p.message_length p.buffer

unfoldable pub finished : Parser → Bool
finished p = is_final p.parser_state

unfoldable pub reset : Parser → Parser
reset p = record p { parser_state = State.idle }

module _ (limit : ℕ) (crc : ℕ → List ℕ → ℕ) where
  -- The `switch` of `update` in one state.
  unfoldable pub accept_in : State → Parser → ℕ → Parser
  accept_in State.idle p value =
      if value == start_character then record p { parser_state = State.length } else p
  accept_in State.length p value =
      let n = value + 1 in
      if not (n == 0) && leb n limit
      then record p { message_length = n; message_position = 0; parser_state = State.payload }
      else record p { message_length = n; parser_state = State.error_length }
  accept_in State.payload p value =
      let n = add_size p.message_position 1 in
      record p {
        buffer = set p.buffer p.message_position value;
        message_position = n;
        parser_state = if leb p.message_length n then State.checksum else State.payload;
      }
  accept_in State.checksum p value = record p {
    parser_state =
        if crc initial_checksum (take p.message_length p.buffer) == value
        then State.done
        else State.error_checksum;
  }
  accept_in _ p value = p

  -- One byte of the input.
  unfoldable pub accept : Parser → ℕ → Parser
  unfolding accept_in
  accept p value = accept_in p.parser_state p value

  -- The loop of `update`, at index `i`.
  unfoldable pub update_loop : List ℕ → ℕ → Parser → ℕ × Parser
  update_loop [] i p = (i, p)
  update_loop (value ∷ input) i p =
      if finished p then (i, p) else update_loop input (i + 1) (accept p value)

  -- The number of bytes consumed, and the parser.
  unfoldable pub update : Parser → List ℕ → ℕ × Parser
  update p input = update_loop input 0 (if finished p then reset p else p)

-- `create` on the memory of `aBuffer`, whose length is `aBufferLength`: the size returned and the
-- memory after it. The payload is `none` for a null pointer, which comes with the length 0. A checksum of
-- 8 bits is a byte, which the conversion to `uint8_t` leaves as it is.
module _ (crc : ℕ → List ℕ → ℕ) where
  -- The writes of `create`, after its guard.
  unfoldable pub write_frame : List ℕ → List ℕ → Option (ℕ × List ℕ)
  write_frame buffer payload = do
    started ← store buffer 0 start_character
    sized ← store started 1 (u8 (sub_size (length payload) 1))
    sealed ← store sized (prefix_length + length payload) (crc initial_checksum payload)
    filled ← copy_to sealed prefix_length payload
    some (prefix_length + suffix_length + length payload, filled)

  unfoldable pub create : List ℕ → Option (List ℕ) → Option (ℕ × List ℕ)
  create buffer none = if length buffer == 0 then some (0, buffer) else write_frame buffer []
  create buffer (some payload) =
      if length buffer == 0 || (length payload == 0 || ltb (length buffer) (length payload))
      then some (0, buffer)
      else write_frame buffer payload
