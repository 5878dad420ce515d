-- ===== src/Serial/Parser/Noise.antt =====
-- Bytes between frames, and frames that were damaged on the line.
use i2c.Prelude.{
  ℕ, ◌+◌, ◌≤◌, ◌<◌, ◌≡◌, ◌≢◌, ap, ◌∙◌, List, [], ◌∷◌, ◌++◌, arith, length, All, Bytes,
  length-append,
}
use i2c.Serial.State.{State}
use i2c.Serial.Parser.{
  Parser, start_character, initial_checksum, finished, accept, update, update_loop,
}
use i2c.Serial.Parser.Invariant.{IsValid}
use i2c.Serial.Parser.Frames.{loop_step}
use i2c.Serial.Parser.RoundTrip.{IsReady, framed, update_bad_checksum}
use i2c.Crc.FastCrc8
use i2c.Crc.Detect.{update_detects}

-- A frame in which one byte of the payload arrived as another one is refused, with FastCrc8 as the
-- checksum: `sum` is the checksum of the payload that was sent.
pub update_damaged :
    (limit : ℕ) (p : Parser) (xs ys : List ℕ) (sent received : ℕ) (rest : List ℕ)
    → IsValid limit p
    → limit ≤ 256
    → IsReady p
    → length (xs ++ sent ∷ ys) ≤ limit
    → Bytes xs
    → Bytes ys
    → sent < 256
    → received < 256
    → received ≢ sent
    → let sum = FastCrc8.update initial_checksum (xs ++ sent ∷ ys) in
      (update limit FastCrc8.update p (framed (xs ++ received ∷ ys) sum rest)).1.parser_state
      ≡ State.error_checksum
update_damaged limit p xs ys sent received rest v small ready fits bx by hs hr ne =
    (update_bad_checksum limit FastCrc8.update p (xs ++ received ∷ ys)
      (FastCrc8.update initial_checksum (xs ++ sent ∷ ys)) rest v small ready
      (omega (arith, length-append xs (received ∷ ys)))
      (omega (arith, length-append xs (received ∷ ys), length-append xs (sent ∷ ys)))
      (update_detects initial_checksum xs ys received sent (omega arith) bx by hr hs ne)).1

module _ (limit : ℕ) (crc : ℕ → List ℕ → ℕ) where
  -- An idle parser skips every byte that is not the start character, and stays as it is.
  pub update_loop_skips :
      (noise rest : List ℕ) (i : ℕ) (p : Parser)
      → p.parser_state ≡ State.idle
      → All (λ b. b ≢ start_character) noise
      → update_loop limit crc (noise ++ rest) i p ≡ update_loop limit crc rest (i + length noise) p
  update_loop_skips [] rest i p idle quiet = ap (λ j. update_loop limit crc rest j p) (omega arith)
  update_loop_skips (b ∷ noise) rest i p idle quiet =
      loop_step limit crc b (noise ++ rest) i p (unfold finished in rw idle)
      ∙ ap (update_loop limit crc (noise ++ rest) (i + 1)) same
      ∙ update_loop_skips noise rest (i + 1) p idle quiet.1
      ∙ ap (λ j. update_loop limit crc rest j p) (omega arith)
    where
      same : accept limit crc p b ≡ p
      same = unfold accept in rw idle (ground (arith, quiet.0))
