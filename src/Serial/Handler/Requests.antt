-- ===== src/Serial/Handler/Requests.antt =====
-- What handling a message and answering a request do to the pool.
use i2c.Prelude.{
  ℕ, ◌≡◌, ◌≢◌, refl, sym, ap, ◌∙◌, Option, none, some, List, [], ◌∷◌, ◌++◌, arith, get_elem?, ◌==◌,
  ==_iff, Bool-cases, inl, inr, Option-cases, ◌>>=◌,
}
use i2c.Pool.{RequestPool, alloc, free}
use i2c.Pool.Ownership.{Owns, occurrences, occurrences-append, alloc-Owns, alloc_empty, free-Owns}
use i2c.Serial.Packet.{Query, query, command}
use i2c.Serial.Handler.{
  Descriptor, descriptor, Handler, Call, max_pending_requests, finish, process_with, process,
}

-- The pool's descriptors are free or waiting for an answer, and no waiting one is shared.
pub record Sound (h : Handler) (unused waiting : List ℕ) : Type 0 where
  pub owns : Owns max_pending_requests h.pool unused waiting
  pub unshared :
      (i : ℕ) (d : Descriptor)
      → occurrences i waiting ≢ 0
      → get_elem? h.pool.pool i ≡ some d
      → d.refs ≡ 0

-- The tokens that wait after a message.
abbrev pub waiting_with : Option Call → List ℕ → List ℕ
waiting_with none waiting = waiting
waiting_with (some call) waiting = call.token ∷ waiting

-- What holds of the outcome of a step, if it has one.
abbrev pub Ensures : List ℕ → Option (Handler × Option Call) → Type 0
Ensures waiting none = Unit
Ensures waiting (some (h, call)) = (unused : List ℕ) × Sound h unused (waiting_with call waiting)

-- A descriptor that waits and is not shared goes back to the pool.
pub returned :
    (h : Handler) (token : ℕ) (d : Descriptor) (unused before later : List ℕ)
    → Sound h unused (before ++ token ∷ later)
    → get_elem? h.pool.pool token ≡ some d
    → (pool : RequestPool Descriptor) × (free max_pending_requests (λ d. d.refs) token h.pool
        ≡ some pool)
      × Sound (record h { pool = pool }) (unused ++ token ∷ []) (before ++ later)
returned h token d unused before later s at =
    let (pool, ran, owns, same) =
      free-Owns max_pending_requests (λ d. d.refs) d h.pool token unused before later s.owns at
        (s.unshared token d here at) in
    (
      pool,
      ran,
      record {
        owns = owns;
        unshared = λ i d' waits found.
            s.unshared i d' (kept i waits)
              (sym (ap (λ descriptors. get_elem? descriptors i) same) ∙ found);
      },
    )
  where
    here : occurrences token (before ++ token ∷ later) ≢ 0
    here = ground (arith, occurrences-append token before (token ∷ later))

    kept :
        (i : ℕ) → occurrences i (before ++ later) ≢ 0 → occurrences i (before ++ token ∷ later) ≢ 0
    kept i waits =
        ground
          (arith, occurrences-append i before (token ∷ later), occurrences-append i before later)

finish-Ensures :
    (token address : ℕ) (asked : Option Query) (d : Descriptor) (h : Handler)
    (unused waiting : List ℕ)
    → Sound h unused (token ∷ waiting)
    → get_elem? h.pool.pool token ≡ some d
    → Ensures waiting (finish token address asked h)
unfolding finish
finish-Ensures token address (some asked) d h unused waiting s at = (unused, s)
finish-Ensures token address none d h unused waiting s at =
    let (pool, ran, sound) = returned h token d unused [] waiting s at in
    rw ran (unused ++ token ∷ [], sound)

process_with-Ensures :
    (token : ℕ) (buffer : List ℕ) (n address : ℕ) (d : Descriptor) (h : Handler)
    (unused waiting : List ℕ)
    → Sound h unused (token ∷ waiting)
    → get_elem? h.pool.pool token ≡ some d
    → Ensures waiting (process_with (some token) buffer n address h)
unfolding process_with
process_with-Ensures token buffer n address d h unused waiting s at =
    elim (Option-cases (get_elem? buffer 2)) [
      | inl outside ↦ rw outside tt
      | inr (keyword, read) ↦ rw read (elim (Option-cases (query (command keyword) buffer n)) [
        | inl outside ↦ rw outside tt
        | inr (asked, known) ↦ rw known (finish-Ensures token address asked d h unused waiting s at)
      ])
    ]

-- The descriptor of a request that has just been allocated.
pub allocated-Sound :
    (h : Handler) (x : ℕ) (d : Descriptor) (unused waiting : List ℕ) (pool : RequestPool Descriptor)
    → Sound h (x ∷ unused) waiting
    → d.refs ≡ 0
    → Owns max_pending_requests pool unused (x ∷ waiting)
    → get_elem? pool.pool x ≡ some d
    → ((i : ℕ) → x ≢ i → get_elem? pool.pool i ≡ get_elem? h.pool.pool i)
    → Sound (record h { pool = pool }) unused (x ∷ waiting)
allocated-Sound h x d unused waiting pool s zero_refs owns new others = record {
  owns = owns;
  unshared = unshared;
}
  where
    unshared :
        (i : ℕ) (d' : Descriptor)
        → occurrences i (x ∷ waiting) ≢ 0
        → get_elem? pool.pool i ≡ some d'
        → d'.refs ≡ 0
    unshared i d' waits found = elim (Bool-cases (x == i)) [
      | inl same ↦ ground (arith, (==_iff x i).0 same, new, found, zero_refs)
      | inr other ↦
          s.unshared i d' (ground (arith, other)) (sym (others i (ground (arith, other))) ∙ found)
    ]

allocation-Ensures :
    (buffer : List ℕ) (n address : ℕ) (d : Descriptor) (h : Handler) (unused waiting : List ℕ)
    → Sound h unused waiting
    → d.refs ≡ 0
    → Ensures waiting (
        alloc max_pending_requests d h.pool >>= λ r.
        process_with r.0 buffer n address (record h { pool = r.1 }))
allocation-Ensures buffer n address d h [] waiting s zero_refs =
    rw (alloc_empty max_pending_requests d h.pool waiting s.owns) (unfold process_with in ([], s))
allocation-Ensures buffer n address d h (x ∷ unused) waiting s zero_refs =
    let (pool, ran, owns, fresh, new, others) =
      alloc-Owns max_pending_requests d h.pool x unused waiting s.owns in
    rw ran (
      process_with-Ensures x buffer n address d (record h { pool = pool }) unused waiting
        (allocated-Sound h x d unused waiting pool s zero_refs owns new others) new)

-- A message keeps the pool sound, and makes a call with a descriptor that waits from then on, or none.
pub process-Ensures :
    (buffer : List ℕ) (n : ℕ) (h : Handler) (unused waiting : List ℕ)
    → Sound h unused waiting
    → Ensures waiting (process buffer n h)
unfolding process descriptor
process-Ensures buffer n h unused waiting s = elim (Option-cases (get_elem? buffer 0)) [
  | inl outside ↦ rw outside tt
  | inr (number, first) ↦ rw first (elim (Option-cases (get_elem? buffer 1)) [
    | inl outside ↦ rw outside tt
    | inr (address, second) ↦
        rw second
          (allocation-Ensures buffer n address (descriptor number address) h unused waiting s refl)
  ])
]
