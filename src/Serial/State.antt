-- ===== src/Serial/State.antt =====
-- PayloadProtocol/SerialParser.hpp: the states of the parser.
use mathlib.Core.Bool.{Bool, true, false}

-- `SerialParser::State`
pub data State : Type 0 where
  idle length payload checksum done error_checksum error_length : State

-- `finished()` as a function of the state.
abbrev pub is_final : State → Bool
is_final State.done = true
is_final State.error_checksum = true
is_final State.error_length = true
is_final _ = false
