-- ===== src/Serial/Stream.antt =====
-- PayloadProtocol/SerialHandler.hpp, `update`: the loop that feeds a piece of input to the parser and
-- processes each message that it completes. The number of messages is at most the number of bytes,
-- so its count cannot wrap.
pub mod Bytewise
use i2c.Prelude.{
  ℕ, zero, suc, ◌+◌, Bool, true, false, Option, none, some, List, [], ◌∷◌, length, drop,
  if◌then◌else◌,
}
use i2c.Serial.State.{State}
use i2c.Serial.Parser.{Parser, update}

-- `parser.state() == Parser::State::DONE`
abbrev pub is_done : State → Bool
is_done State.done = true
is_done _ = false

module _ {ℓ} {S : Type ℓ} (limit : ℕ) (crc : ℕ → List ℕ → ℕ) (process : List ℕ → ℕ → S → S) where
  -- `++parsed` and the call of `process` after a round, if the parser is done.
  unfoldable pub counted : Parser → ℕ → ℕ
  counted p parsed = if is_done p.parser_state then parsed + 1 else parsed

  unfoldable pub processed : Parser → S → S
  processed p s = if is_done p.parser_state then process p.buffer p.message_length s else s

  -- The loop, with `rounds` of it at most; `none` if bytes are left then.
  unfoldable pub feed : ℕ → List ℕ → ℕ → Parser → S → Option (ℕ × Parser × S)
  feed rounds [] parsed p s = some (parsed, p, s)
  feed zero (byte ∷ input) parsed p s = none
  feed (suc rounds) (byte ∷ input) parsed p s =
      let (n, q) = update limit crc p (byte ∷ input) in
      feed rounds (drop n (byte ∷ input)) (counted q parsed) q (processed q s)

  -- A call of `update`: the number of messages, the parser, and what processing left behind. Every
  -- round consumes a byte, so there are no more rounds than bytes.
  unfoldable pub handle : List ℕ → Parser → S → Option (ℕ × Parser × S)
  handle input p s = feed (length input) input 0 p s
