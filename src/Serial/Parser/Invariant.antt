-- ===== src/Serial/Parser/Invariant.antt =====
-- The parser's buffer is never overrun, and `update` always makes progress.
use i2c.Prelude.{
  ℕ, suc, ◌+◌, ◌≤◌, ◌<◌, ◌≡◌, refl, List, [], ◌∷◌, arith, length, length-set, size_mod, ◌==◌, subst,
  Bool-cases, inl, inr, true, some, ltb, ltb_iff,
}
use i2c.Serial.State.{State}
use i2c.Memory.{store}
use i2c.Serial.Parser.{
  Parser, start_character, buffer_length, init, finished, reset, accept, accept_in, update,
  update_loop,
}

-- What each state promises of the two counters.
abbrev pub Counters : ℕ → State → ℕ → ℕ → Type 0
Counters limit State.payload position n = (position < n) × (n ≤ limit)
Counters limit State.checksum position n = (1 ≤ n) × (n ≤ limit)
Counters limit State.done position n = (1 ≤ n) × (n ≤ limit)
Counters limit _ position n = Unit

pub record IsValid (limit : ℕ) (p : Parser) : Type 0 where
  pub sized : length p.buffer ≡ buffer_length limit
  pub bounded : buffer_length limit < size_mod
  pub counters : Counters limit p.parser_state p.message_position p.message_length

pub init-IsValid :
    (limit : ℕ) (buffer : List ℕ)
    → length buffer ≡ buffer_length limit
    → buffer_length limit < size_mod
    → IsValid limit (init buffer)
unfolding init
init-IsValid limit buffer e b = record { sized = e; bounded = b; counters = tt }

reset-IsValid : (limit : ℕ) (p : Parser) → IsValid limit p → IsValid limit (reset p)
unfolding reset
reset-IsValid limit p v = record { sized = v.sized; bounded = v.bounded; counters = tt }

module _ (limit : ℕ) (crc : ℕ → List ℕ → ℕ) where
  -- In each state the switch keeps the invariant.
  accept_in-IsValid :
      (s : State) (p : Parser) (value : ℕ)
      → p.parser_state ≡ s
      → IsValid limit p
      → IsValid limit (accept_in limit crc s p value)
  unfolding accept_in
  accept_in-IsValid State.idle p value e v = elim (Bool-cases (value == start_character)) [
    | inl start ↦ rw start (record { sized = v.sized; bounded = v.bounded; counters = tt })
    | inr other ↦ rw other v
  ]
  accept_in-IsValid State.length p value e v = ground arith
  accept_in-IsValid State.payload p value e v = ground (
    arith,
    subst (λ s. Counters limit s p.message_position p.message_length) e v.counters,
    length-set p.buffer p.message_position value,
  )
  accept_in-IsValid State.checksum p value e v =
      ground (arith, subst (λ s. Counters limit s p.message_position p.message_length) e v.counters)
  accept_in-IsValid _ p value e v = v

  accept-IsValid :
      (p : Parser) (value : ℕ) → IsValid limit p → IsValid limit (accept limit crc p value)
  unfolding accept
  accept-IsValid p value v = accept_in-IsValid p.parser_state p value refl v

  update_loop-IsValid :
      (input : List ℕ) (i : ℕ) (p : Parser)
      → IsValid limit p
      → IsValid limit (update_loop limit crc input i p).1
  unfolding update_loop
  update_loop-IsValid [] i p v = v
  update_loop-IsValid (value ∷ input) i p v = elim (Bool-cases (finished p)) [
    | inl over ↦ rw over v
    | inr going ↦
        rw going
          (update_loop-IsValid input (i + 1) (accept limit crc p value) (accept-IsValid p value v))
  ]

  -- The index returned lies between the start and the end of the input.
  pub update_loop_bounds :
      (input : List ℕ) (i : ℕ) (p : Parser)
      → let n = (update_loop limit crc input i p).0 in (i ≤ n) × (n ≤ i + length input)
  unfolding update_loop
  update_loop_bounds [] i p = omega arith
  update_loop_bounds (value ∷ input) i p = elim (Bool-cases (finished p)) [
    | inl over ↦ rw over (omega arith)
    | inr going ↦ rw going (
        let bounds = update_loop_bounds input (i + 1) (accept limit crc p value) in
        (omega (arith, bounds.0), omega (arith, bounds.1)))
  ]

  -- A call of `update` keeps the invariant.
  pub update-IsValid :
      (p : Parser) (input : List ℕ) → IsValid limit p → IsValid limit (update limit crc p input).1
  unfolding update
  update-IsValid p input v = elim (Bool-cases (finished p)) [
    | inl over ↦ rw over (update_loop-IsValid input 0 (reset p) (reset-IsValid limit p v))
    | inr going ↦ rw going (update_loop-IsValid input 0 p v)
  ]

  -- A call of `update` consumes no more than its input, and at least one byte if there is one.
  pub update_progress :
      (p : Parser) (value : ℕ) (input : List ℕ)
      → let n = (update limit crc p (value ∷ input)).0 in (1 ≤ n) × (n ≤ length (value ∷ input))
  unfolding update update_loop finished reset
  update_progress p value input = elim (Bool-cases (finished p)) [
    | inl over ↦ rw over (from_start (reset p))
    | inr going ↦ rw (going, going) (from_start p)
  ]
    where
      from_start :
          (q : Parser)
          → let n = (update_loop limit crc input 1 (accept limit crc q value)).0 in
            (1 ≤ n) × (n ≤ suc (length input))
      from_start q =
          let bounds = update_loop_bounds input 1 (accept limit crc q value) in
          (omega (arith, bounds.0), omega (arith, bounds.1))

  -- Under the invariant, the write that `accept` makes in the state PAYLOAD is a write inside of the
  -- buffer, whatever the byte is.
  pub store-accept :
      (p : Parser) (value : ℕ)
      → IsValid limit p
      → p.parser_state ≡ State.payload
      → store p.buffer p.message_position value ≡ some (accept limit crc p value).buffer
  unfolding store accept
  store-accept p value v e =
      let counters =
        subst (λ s. Counters limit s p.message_position p.message_length) e v.counters in
      rw (e, inside (omega (arith, counters.0, counters.1, v.sized)))
    where
      inside :
          p.message_position < length p.buffer → ltb p.message_position (length p.buffer) ≡ true
      inside = (ltb_iff p.message_position (length p.buffer)).1
