-- ===== src/Serial/Tests.antt =====
-- Runs of the parser and of the handler's loop on small buffers.
use i2c.Prelude.{ℕ, ◌≡◌, ◌≢◌, refl, inr, some, List, [], ◌∷◌, ◌++◌, replicate, arith, ◌>>=◌, take}
use i2c.Serial.State.{State}
use i2c.Memory.{store, copy_to}
use i2c.Serial.Parser.{
  Parser, init, message, update, update_loop, create, initial_checksum, write_frame, finished,
  accept,
}
use i2c.Serial.Parser.Invariant.{IsValid, init-IsValid, update-IsValid}
use i2c.Serial.Parser.Frames.{frame}
use i2c.Serial.Parser.Create.{create_refused}
use i2c.Serial.Parser.RoundTrip.{IsReady, framed, update-frame, update-create}
use i2c.Serial.Parser.Noise.{update_damaged}
use i2c.Serial.Stream.{handle, feed, counted, processed}
use i2c.Serial.Stream.Bytewise.{bytewise, handle-bytewise, handle-append, pieces}
use i2c.Core.{Result}
use i2c.Serial.Reply.{convert_command_result, send_result}
use i2c.Serial.Reply.Sent.{update-send_result}
use i2c.Crc.FastCrc8

-- A parser for messages of up to 5 bytes, as it is made, and one in the middle of a payload.
abbrev memory : List ℕ
memory = replicate 8 0

abbrev start : Parser
start = record {
  buffer = memory;
  message_length = 0;
  message_position = 0;
  parser_state = State.idle;
}

abbrev reading : Parser
reading = record {
  buffer = memory;
  message_length = 3;
  message_position = 1;
  parser_state = State.payload;
}

abbrev hello : List ℕ
hello = 0x48 ∷ 0x69 ∷ 0x21 ∷ []

start-IsValid : IsValid 5 start
start-IsValid = unfold init in init-IsValid 5 memory refl (omega arith)

reading-IsValid : IsValid 5 reading
reading-IsValid = record { sized = refl; bounded = omega arith; counters = omega arith }

start-IsReady : IsReady start
start-IsReady = inr refl

hello_frame :
    create FastCrc8.update (replicate 6 0) (some hello) ≡ some (6, 0x7E ∷ 2 ∷ hello ++ 129 ∷ [])
unfolding create FastCrc8.update write_frame store copy_to FastCrc8.table
hello_frame = refl

-- A frame and one byte of the next, read by a parser as it is made.
update-frame_example :
    let (n, q) = update 5 FastCrc8.update start (frame FastCrc8.update hello ++ 0x7E ∷ []) in
    (n ≡ 6) × (q.parser_state ≡ State.done) × (message q ≡ hello) × IsValid 5 q
update-frame_example =
    update-frame 5 FastCrc8.update start hello (0x7E ∷ []) start-IsValid (omega arith) start-IsReady
      (omega arith) (omega arith)

update-create_example :
    (n : ℕ) × (frames : List ℕ) × (create FastCrc8.update (replicate 7 1) (some hello)
      ≡ some (n, frames))
    × (let (read, q) = update 5 FastCrc8.update start (take n frames) in
        (read ≡ n) × (q.parser_state ≡ State.done) × (message q ≡ hello))
update-create_example =
    update-create 5 FastCrc8.update start (replicate 7 1) hello start-IsValid (omega arith)
      start-IsReady (omega arith) (omega arith) (omega arith)

hello_checksum : FastCrc8.update initial_checksum hello ≢ 7
unfolding FastCrc8.update FastCrc8.table
hello_checksum = omega arith

update_damaged_example :
    (update 5 FastCrc8.update start
      (framed (0x48 ∷ 0x68 ∷ 0x21 ∷ []) (FastCrc8.update initial_checksum hello) [])).1.parser_state
    ≡ State.error_checksum
update_damaged_example =
    update_damaged 5 start (0x48 ∷ []) (0x21 ∷ []) 0x69 0x68 [] start-IsValid (omega arith)
      start-IsReady (omega arith) (omega arith) (omega arith) (omega arith) (omega arith)
      (omega arith)

update-IsValid_example : IsValid 5 (update 5 FastCrc8.update reading hello).1
update-IsValid_example = update-IsValid 5 FastCrc8.update reading hello reading-IsValid

create_refused_example : create FastCrc8.update (replicate 2 0) (some hello) ≡ some (0, 0 ∷ 0 ∷ [])
create_refused_example = create_refused FastCrc8.update (replicate 2 0) hello (inr (omega arith))

-- A client that keeps the messages, the last one first.
abbrev keep : List ℕ → ℕ → List (List ℕ) → List (List ℕ)
keep buffer n kept = take n buffer ∷ kept

handle_run :
    handle 5 FastCrc8.update keep (0x7E ∷ 0 ∷ 7 ∷ FastCrc8.update 0 (7 ∷ []) ∷ []) start []
    ≡ some (
      1,
      record start {
        buffer = 7 ∷ 0 ∷ 0 ∷ 0 ∷ 0 ∷ 0 ∷ 0 ∷ 0 ∷ [];
        message_length = 1;
        message_position = 1;
        parser_state = State.done;
      },
      (7 ∷ []) ∷ [],
    )
unfolding handle FastCrc8.update feed update update_loop finished accept counted FastCrc8.table
    processed message
handle_run = refl

handle-bytewise_example :
    handle 5 FastCrc8.update keep (0x7E ∷ 0 ∷ 7 ∷ []) start []
    ≡ some (bytewise 5 FastCrc8.update keep (0x7E ∷ 0 ∷ 7 ∷ []) 0 start [])
handle-bytewise_example = handle-bytewise 5 FastCrc8.update keep (0x7E ∷ 0 ∷ 7 ∷ []) start []

handle-append_example :
    handle 5 FastCrc8.update keep (0x7E ∷ 0 ∷ 7 ∷ []) start []
    ≡ handle 5 FastCrc8.update keep (0x7E ∷ []) start []
      >>= pieces 5 FastCrc8.update keep (0 ∷ 7 ∷ [])
handle-append_example = handle-append 5 FastCrc8.update keep (0x7E ∷ []) (0 ∷ 7 ∷ []) start []

update-send_result_example :
    (sent : List ℕ) × (send_result FastCrc8.update memory 9 2 Result.file_error ≡ some sent)
    × ((update 5 FastCrc8.update start sent).1.parser_state ≡ State.done)
    × (message (update 5 FastCrc8.update start sent).1 ≡ 9 ∷ 2 ∷ 9 ∷ [])
unfolding convert_command_result
update-send_result_example =
    update-send_result 5 FastCrc8.update memory 9 2 Result.file_error start refl (omega arith)
      (omega arith) start-IsValid start-IsReady
