-- ===== src/Serial/Stream/Bytewise.antt =====
-- The handler's two nested loops are one automaton that takes a byte at a time.
use i2c.Prelude.{
  ℕ, zero, suc, ◌+◌, ◌-◌, ◌≤◌, ◌<◌, ◌≡◌, refl, sym, ap, ap₂, ◌∙◌, true, false, Option, some, List,
  [], ◌∷◌, ◌++◌, arith, length, drop, length-drop, if◌then◌else◌, Bool-cases, inl, inr, ◌>>=◌,
}
use i2c.Serial.State.{State, is_final}
use i2c.Serial.Parser.{Parser, finished, reset, accept, update, update_loop}
use i2c.Serial.Parser.Invariant.{update_progress, update_loop_bounds}
use i2c.Serial.Parser.Frames.{loop_step}
use i2c.Serial.Parser.RoundTrip.{loop_final}
use i2c.Serial.Stream.{is_done, counted, processed, feed, handle}

done-final : (s : State) → is_final s ≡ false → is_done s ≡ false
done-final State.done h = cc
done-final _ h = refl

finished-reset : (p : Parser) → finished (reset p) ≡ false
unfolding finished reset
finished-reset p = refl

drop-nil : (n : ℕ) → drop {A = ℕ} n [] ≡ []
drop-nil zero = refl
drop-nil (suc n) = refl

drop-cons :
    (byte : ℕ) (input : List ℕ) (n i : ℕ)
    → i < n
    → drop (n - (i + 1)) input ≡ drop (n - i) (byte ∷ input)
drop-cons byte input n i h = ap (λ k. drop k (byte ∷ input)) {x = suc (n - (i + 1))} (omega arith)

drop-one : (byte : ℕ) (input : List ℕ) (i : ℕ) → input ≡ drop (i + 1 - i) (byte ∷ input)
drop-one byte input i = ap (λ k. drop k (byte ∷ input)) {x = 1} (omega arith)

module _ {ℓ} {S : Type ℓ} (limit : ℕ) (crc : ℕ → List ℕ → ℕ) (process : List ℕ → ℕ → S → S) where
  -- A parser that has ended a frame starts the next one; then it takes the byte.
  unfoldable pub take_byte : Parser → ℕ → Parser
  take_byte p byte = accept limit crc (if finished p then reset p else p) byte

  -- Byte by byte: a message is processed as soon as its last byte is in.
  unfoldable pub bytewise : List ℕ → ℕ → Parser → S → ℕ × Parser × S
  bytewise [] parsed p s = (parsed, p, s)
  bytewise (byte ∷ input) parsed p s =
      let q = take_byte p byte in
      bytewise input (counted limit crc process q parsed) q (processed limit crc process q s)

  -- What is not done counts nothing.
  still :
      (p : Parser) (parsed : ℕ) (s : S)
      → finished p ≡ false
      → (counted limit crc process p parsed ≡ parsed) × (processed limit crc process p s ≡ s)
  unfolding counted processed finished
  still p parsed s h = let e = done-final p.parser_state h in (rw e, rw e)

  -- The automaton from where a run of the parser's loop, begun at index `i`, has stopped.
  abbrev after : List ℕ → ℕ → ℕ → S → ℕ × Parser → ℕ × Parser × S
  after input i parsed s (n, q) =
      bytewise (drop (n - i) input) (counted limit crc process q parsed) q
        (processed limit crc process q s)

  next_byte :
      (byte : ℕ) (input : List ℕ) (parsed : ℕ) (p : Parser) (s : S)
      → finished p ≡ false
      → let q = accept limit crc p byte in
        bytewise (byte ∷ input) parsed p s
        ≡ bytewise input (counted limit crc process q parsed) q (processed limit crc process q s)
  unfolding bytewise take_byte
  next_byte byte input parsed p s h = rw h

  -- A run of the parser's loop is as many steps of the automaton.
  bytewise-update_loop :
      (input : List ℕ) (i : ℕ) (p : Parser) (parsed : ℕ) (s : S)
      → finished p ≡ false
      → bytewise input parsed p s ≡ after input i parsed s (update_loop limit crc input i p)
  bytewise-update_loop [] i p parsed s h =
      let (count, state) = still p parsed s h in
      sym (
        unfold update_loop in
        ap
          (λ k. bytewise k (counted limit crc process p parsed) p (processed limit crc process p s))
          (drop-nil (i - i))
        ∙ ap₂ (λ c t. bytewise [] c p t) count state)
  bytewise-update_loop (byte ∷ input) i p parsed s h =
      next_byte byte input parsed p s h ∙ elim (Bool-cases (finished q)) [
        | inl over ↦ stop over
        | inr going ↦
            ap₂ (λ c t. bytewise input c q t) (still q parsed s going).0 (still q parsed s going).1
            ∙ bytewise-update_loop input (i + 1) q parsed s going
            ∙ ap
                (λ k.
                  bytewise k
                    (counted limit crc process (update_loop limit crc input (i + 1) q).1 parsed)
                    (update_loop limit crc input (i + 1) q).1
                    (processed limit crc process (update_loop limit crc input (i + 1) q).1 s))
                (drop-cons byte input (update_loop limit crc input (i + 1) q).0 i
                  (omega (arith, (update_loop_bounds limit crc input (i + 1) q).0)))
            ∙ ap (after (byte ∷ input) i parsed s) (sym (loop_step limit crc byte input i p h))
      ]
    where
      q : Parser
      q = accept limit crc p byte

      stop :
          finished q ≡ true
          → bytewise input (counted limit crc process q parsed) q (processed limit crc process q s)
            ≡ after (byte ∷ input) i parsed s (update_loop limit crc (byte ∷ input) i p)
      stop over =
          ap
            (λ k.
              bytewise k (counted limit crc process q parsed) q (processed limit crc process q s))
            (drop-one byte input i)
          ∙ ap (after (byte ∷ input) i parsed s) (
              sym
                (loop_step limit crc byte input i p h ∙ loop_final limit crc input (i + 1) q over))

  -- A call of the parser's `update` too, from whatever state the parser is in.
  bytewise-update :
      (byte : ℕ) (input : List ℕ) (p : Parser) (parsed : ℕ) (s : S)
      → bytewise (byte ∷ input) parsed p s
        ≡ after (byte ∷ input) 0 parsed s (update limit crc p (byte ∷ input))
  unfolding update
  bytewise-update byte input p parsed s = elim (Bool-cases (finished p)) [
    | inl over ↦
        restart over
        ∙ bytewise-update_loop (byte ∷ input) 0 (reset p) parsed s (finished-reset p)
        ∙ rw over
    | inr going ↦ bytewise-update_loop (byte ∷ input) 0 p parsed s going ∙ rw going
  ]
    where
      restart :
          finished p ≡ true
          → bytewise (byte ∷ input) parsed p s ≡ bytewise (byte ∷ input) parsed (reset p) s
      restart over = unfold bytewise take_byte in rw (over, finished-reset p)

  -- With as many rounds as bytes the loop ends, and does what the automaton does.
  pub feed-bytewise :
      (rounds : ℕ) (input : List ℕ) (parsed : ℕ) (p : Parser) (s : S)
      → length input ≤ rounds
      → feed limit crc process rounds input parsed p s ≡ some (bytewise input parsed p s)
  unfolding feed
  feed-bytewise zero [] parsed p s h = unfold bytewise in refl
  feed-bytewise (suc rounds) [] parsed p s h = unfold bytewise in refl
  feed-bytewise zero (byte ∷ input) parsed p s h = absurd (omega arith)
  feed-bytewise (suc rounds) (byte ∷ input) parsed p s h =
      let (n, q) = update limit crc p (byte ∷ input) in
      feed-bytewise rounds (drop n (byte ∷ input)) (counted limit crc process q parsed) q
        (processed limit crc process q s) shorter
      ∙ ap
          (λ k. some (
            bytewise (drop k (byte ∷ input)) (counted limit crc process q parsed) q
              (processed limit crc process q s)))
          {y = n - 0} (omega arith)
      ∙ ap some (sym (bytewise-update byte input p parsed s))
    where
      shorter : length (drop (update limit crc p (byte ∷ input)).0 (byte ∷ input)) ≤ rounds
      shorter = omega (
        arith,
        length-drop (update limit crc p (byte ∷ input)).0 (byte ∷ input),
        (update_progress limit crc p byte input).0,
      )

  -- A call on any input ends, and handles it byte by byte.
  pub handle-bytewise :
      (input : List ℕ) (p : Parser) (s : S)
      → handle limit crc process input p s ≡ some (bytewise input 0 p s)
  unfolding handle
  handle-bytewise input p s = feed-bytewise (length input) input 0 p s (omega arith)

  bytewise-append :
      (xs ys : List ℕ) (parsed : ℕ) (p : Parser) (s : S)
      → bytewise (xs ++ ys) parsed p s
        ≡ (let (k, q, t) = bytewise xs parsed p s in bytewise ys k q t)
  unfolding bytewise
  bytewise-append [] ys parsed p s = refl
  bytewise-append (x ∷ xs) ys parsed p s =
      let q = take_byte p x in
      bytewise-append xs ys (counted limit crc process q parsed) q (processed limit crc process q s)

  -- The count only starts at another number.
  abbrev plus : ℕ → ℕ × Parser × S → ℕ × Parser × S
  plus n (k, q, t) = (n + k, q, t)

  counted_plus :
      (p : Parser) (parsed : ℕ)
      → counted limit crc process p parsed ≡ parsed + counted limit crc process p 0
  unfolding counted
  counted_plus p parsed = ground arith

  bytewise_count :
      (input : List ℕ) (parsed : ℕ) (p : Parser) (s : S)
      → bytewise input parsed p s ≡ plus parsed (bytewise input 0 p s)
  unfolding bytewise
  bytewise_count [] parsed p s = ap (λ n. (n, p, s)) (omega arith)
  bytewise_count (x ∷ xs) parsed p s =
      let q = take_byte p x in
      let t = processed limit crc process q s in
      bytewise_count xs (counted limit crc process q parsed) q t
      ∙ ap (λ n. (n, (bytewise xs 0 q t).1, (bytewise xs 0 q t).2))
          {y = parsed + (counted limit crc process q 0 + (bytewise xs 0 q t).0)}
          (omega (arith, counted_plus q parsed))
      ∙ ap (plus parsed) (sym (bytewise_count xs (counted limit crc process q 0) q t))

  -- A second call of the handler, and the count of both.
  abbrev pub total : ℕ → ℕ × Parser × S → Option (ℕ × Parser × S)
  total j (k, q, t) = some (j + k, q, t)

  abbrev pub pieces : List ℕ → ℕ × Parser × S → Option (ℕ × Parser × S)
  pieces ys (j, q, t) = handle limit crc process ys q t >>= total j

  -- The input may arrive in pieces: two calls of `update` on the pieces process the same messages in
  -- the same order as one call on the whole, leave the same parser, and count as many messages.
  pub handle-append :
      (xs ys : List ℕ) (p : Parser) (s : S)
      → handle limit crc process (xs ++ ys) p s ≡ handle limit crc process xs p s >>= pieces ys
  handle-append xs ys p s =
      let (j, q, t) = bytewise xs 0 p s in
      handle-bytewise (xs ++ ys) p s
      ∙ ap some (bytewise-append xs ys 0 p s ∙ bytewise_count ys j q t)
      ∙ sym (
          ap (λ o. o >>= pieces ys) (handle-bytewise xs p s)
          ∙ ap (λ o. o >>= total j) (handle-bytewise ys q t))
