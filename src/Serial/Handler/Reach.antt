-- ===== src/Serial/Handler/Reach.antt =====
-- The handler between its client and its devices: messages and answers in any order.
use i2c.Prelude.{
  ℕ, ◌+◌, ◌≤◌, ◌≡◌, ◌≢◌, refl, sym, subst, ◌∙◌, Option, none, some, List, [], ◌∷◌, ◌++◌, arith,
  length, get_elem?, get_elem?-lt, Option-cases, inl, inr, ◌>>=◌,
}
use i2c.Queue.{size}
use i2c.Pool.{RequestPool, make, count, alloc}
use i2c.Pool.Ownership.{Owns, range, occurrences, make-Owns, alloc-Owns, alloc_empty}
use i2c.Device.{Event}
use i2c.Core.{file_max_chunk_length}
use i2c.Serial.Parser.{buffer_length}
use i2c.Serial.Packet.{Command, Query, query, command, word_at, file_write_base}
use i2c.Serial.Handler.{
  Descriptor, descriptor, Handler, Call, max_pending_requests, finish, process_with, process,
  response, on_event,
}
use i2c.Serial.Handler.Requests.{
  Sound, waiting_with, Ensures, process-Ensures, returned, allocated-Sound,
}
use i2c.Serial.Handler.Answers.{
  Answered, on_event-Answered, on_event_lem, framed_response, IsShort, response_le,
}

-- The handler, and the tokens of the requests that wait for an answer.
pub record System : Type 0 where
  pub handler : Handler
  pub waiting : List ℕ

-- A handler as its constructor leaves it.
abbrev pub started : RequestPool Descriptor → System
started pool = record { handler = record { pool = pool; written = [] }; waiting = [] }

module _ (crc : ℕ → List ℕ → ℕ) (stack : List ℕ) where
  -- A message arrives, or a device answers a request that waits.
  pub data Step : System → System → Type 0 where
    message :
        (h h' : Handler) (waiting buffer : List ℕ) (n : ℕ) (call : Option Call)
        → process buffer n h ≡ some (h', call)
        → Step
            (record { handler = h; waiting = waiting })
            (record { handler = h'; waiting = waiting_with call waiting })
    answered :
        (h h' : Handler) (before later : List ℕ) (token : ℕ) (event : Event)
        → on_event crc stack token event h ≡ some h'
        → Step
            (record { handler = h; waiting = before ++ token ∷ later })
            (record { handler = h'; waiting = before ++ later })

  pub data Reach (s : System) : System → Type 0 where
    here : Reach s s
    next : {t u : System} → Reach s t → Step t u → Reach s u

  abbrev pub IsSound : System → Type 0
  IsSound s = (unused : List ℕ) × Sound s.handler unused s.waiting

  Step-IsSound : {s t : System} → Step s t → IsSound s → IsSound t
  Step-IsSound (message h h' waiting buffer n call e) (unused, sound) =
      subst (Ensures waiting) e (process-Ensures buffer n h unused waiting sound)
  Step-IsSound (answered h h' before later token event e) (unused, sound) =
      subst (Answered (before ++ later)) e
        (on_event-Answered crc stack token event h unused before later sound)

  pub Reach-IsSound : {s t : System} → Reach s t → IsSound s → IsSound t
  Reach-IsSound here sound = sound
  Reach-IsSound (next r step) sound = Step-IsSound step (Reach-IsSound r sound)

  pub started-Sound :
      (p : RequestPool Descriptor) (pool : List Descriptor) (memory : List ℕ)
      → length pool ≡ max_pending_requests
      → length memory ≡ max_pending_requests
      → make max_pending_requests pool memory ≡ some p
      → Sound (record { pool = p; written = [] }) (range 0 max_pending_requests) []
  started-Sound p pool memory sized sized' made =
      let (q, ran, owns) =
        make-Owns max_pending_requests pool memory sized sized' (omega arith) (omega arith) in
      record {
        owns =
            subst (λ p. Owns max_pending_requests p (range 0 max_pending_requests) [])
              (same q (sym ran ∙ made)) owns;
        unshared = λ i d waits found. absurd (waits refl);
      }
    where
      same : (q : RequestPool Descriptor) → some q ≡ some p → q ≡ p
      same q e = cc

  pub started-IsSound :
      (p : RequestPool Descriptor) (pool : List Descriptor) (memory : List ℕ)
      → length pool ≡ max_pending_requests
      → length memory ≡ max_pending_requests
      → make max_pending_requests pool memory ≡ some p
      → IsSound (started p)
  started-IsSound p pool memory sized sized' made =
      (range 0 max_pending_requests, started-Sound p pool memory sized sized' made)

  -- From a handler with a pool as its constructor leaves it, after any messages and answers to field
  -- and file requests in any order, each of the 8 descriptors is free or waits for one answer: the free
  -- ones and the waiting ones are 8 together, and no token waits twice.
  pub Reach-conserves :
      (p : RequestPool Descriptor) (pool : List Descriptor) (memory : List ℕ) (t : System)
      → length pool ≡ max_pending_requests
      → length memory ≡ max_pending_requests
      → make max_pending_requests pool memory ≡ some p
      → Reach (started p) t
      → (count t.handler.pool + length t.waiting ≡ max_pending_requests)
        × ((i : ℕ) → occurrences i t.waiting ≤ 1)
  unfolding count size
  Reach-conserves p pool memory t sized sized' made r =
      let (unused, sound) = Reach-IsSound r (started-IsSound p pool memory sized sized' made) in
      (
        omega (arith, sound.owns.all, sound.owns.queued.count),
        λ i. ground (arith, sound.owns.once i),
      )

-- With a `limit` of 243 or more, every request that waits in a state reached from the constructor's by
-- messages and answers to field and file requests, in any order, can be answered by any event whose
-- response can be built: exactly the response's frame is written, and the next state is reached
-- without the request.
pub Reach-answers :
    (limit : ℕ) (crc : ℕ → List ℕ → ℕ) (stack : List ℕ) (p : RequestPool Descriptor)
    (pool : List Descriptor) (memory : List ℕ) (h : Handler) (before later : List ℕ) (token : ℕ)
    (event : Event) (d : Descriptor) (reply : Option (List ℕ))
    → 243 ≤ limit
    → length stack ≡ buffer_length limit
    → length pool ≡ max_pending_requests
    → length memory ≡ max_pending_requests
    → make max_pending_requests pool memory ≡ some p
    → Reach crc stack (started p) (record { handler = h; waiting = before ++ token ∷ later })
    → get_elem? h.pool.pool token ≡ some d
    → response event d ≡ some reply
    → (after : Handler) × (on_event crc stack token event h ≡ some after)
      × (after.written ≡ h.written ++ framed_response limit crc stack reply)
      × Reach crc stack (started p) (record { handler = after; waiting = before ++ later })
Reach-answers limit crc stack p pool memory h before later token event d reply wide fits sized
      sized' made r at built =
    let (unused, sound) =
      Reach-IsSound crc stack r (started-IsSound crc stack p pool memory sized sized' made) in
    let (after, ran, wrote, kept) =
      on_event_lem limit crc stack token event d reply h unused before later fits sound at built
        (short reply built) in
    (after, ran, wrote, next r (answered h after before later token event ran))
  where
    short :
        (reply : Option (List ℕ)) → response event d ≡ some reply → IsShort limit crc stack reply
    short none e = tt
    short (some bytes) e =
        let bounds = response_le event d bytes e in
        (omega (arith, bounds.0), omega (arith, bounds.1))

word_at-lt : (buffer : List ℕ) → 13 ≤ length buffer → word_at buffer 4 ≢ none
unfolding word_at
word_at-lt buffer h e = ground arith

-- No command reads behind a buffer of 13 bytes or more, and none but a long WRITE_FILE_CHUNK copies
-- too much.
query_total :
    (c : Command) (buffer : List ℕ) (n : ℕ)
    → 13 ≤ length buffer
    → n ≤ length buffer
    → n ≤ file_write_base + file_max_chunk_length
    → query c buffer n ≢ none
unfolding query
query_total Command.get_device_info buffer n h within small e = cc
query_total _ buffer n h within small e = ground (
  arith,
  (get_elem?-lt buffer 3 (omega arith)).1,
  (get_elem?-lt buffer 4 (omega arith)).1,
  (get_elem?-lt buffer 8 (omega arith)).1,
  word_at-lt buffer h,
)

finish_total :
    (token address : ℕ) (asked : Option Query) (d : Descriptor) (h : Handler)
    (unused waiting : List ℕ)
    → Sound h unused (token ∷ waiting)
    → get_elem? h.pool.pool token ≡ some d
    → finish token address asked h ≢ none
unfolding finish
finish_total token address (some asked) d h unused waiting s at = λ e. cc
finish_total token address none d h unused waiting s at =
    let (pool, ran, sound) = returned h token d unused [] waiting s at in rw ran (λ e. cc)

module _ (buffer : List ℕ) (n : ℕ) (long : 13 ≤ length buffer) (within : n ≤ length buffer)
    (fits : n ≤ file_write_base + file_max_chunk_length) where
  process_with_total :
      (token address : ℕ) (d : Descriptor) (h : Handler) (unused waiting : List ℕ)
      → Sound h unused (token ∷ waiting)
      → get_elem? h.pool.pool token ≡ some d
      → process_with (some token) buffer n address h ≢ none
  unfolding process_with
  process_with_total token address d h unused waiting s at =
      let (keyword, read) = get_elem?-lt buffer 2 (omega arith) in
      rw read (elim (Option-cases (query (command keyword) buffer n)) [
        | inl outside ↦ absurd (query_total (command keyword) buffer n long within fits outside)
        | inr (asked, known) ↦ rw known (finish_total token address asked d h unused waiting s at)
      ])

  allocation_total :
      (address : ℕ) (d : Descriptor) (h : Handler) (unused waiting : List ℕ)
      → Sound h unused waiting
      → d.refs ≡ 0
      → (alloc max_pending_requests d h.pool >>= λ r.
          process_with r.0 buffer n address (record h { pool = r.1 }))
        ≢ none
  allocation_total address d h [] waiting s zero_refs =
      rw (alloc_empty max_pending_requests d h.pool waiting s.owns) (unfold process_with in λ e. cc)
  allocation_total address d h (x ∷ unused) waiting s zero_refs =
      let (pool, ran, owns, fresh, new, others) =
        alloc-Owns max_pending_requests d h.pool x unused waiting s.owns in
      rw ran (
        process_with_total x address d (record h { pool = pool }) unused waiting
          (allocated-Sound h x d unused waiting pool s zero_refs owns new others) new)

  -- In a state where every descriptor is free or waits, a message of at most 248 bytes inside of a buffer
  -- of 13 or more is processed without an access outside of an array and without a failed assertion,
  -- whatever is in the buffer.
  pub process_total :
      (h : Handler) (unused waiting : List ℕ) → Sound h unused waiting → process buffer n h ≢ none
  unfolding process descriptor
  process_total h unused waiting s =
      let (number, first) = get_elem?-lt buffer 0 (omega arith) in
      let (address, second) = get_elem?-lt buffer 1 (omega arith) in
      rw (first, second)
        (allocation_total address (descriptor number address) h unused waiting s refl)
