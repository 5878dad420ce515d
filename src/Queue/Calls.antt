-- ===== src/Queue/Calls.antt =====
-- The bulk operations of Queue.hpp, and sequences of calls against a bounded FIFO list.
use i2c.Prelude.{
  ℕ, zero, suc, ◌+◌, ◌-◌, ◌≤◌, min, ◌≡◌, refl, sym, ap, subst, ◌∙◌, Option, none, some, List, [],
  ◌∷◌, ◌++◌, append-nil, append_assoc, ltb, if◌then◌else◌, arith, length, take, drop, length-append,
  add_size, ◌>>=◌, true, false, ltb_iff, Bool-cases, inl, inr,
}
use i2c.Queue.{Queue, push, pop, push_all, pop_all}
use i2c.Queue.Refine.{Represents, push-Represents, push_full, pop-Represents, pop_empty}

module _ {ℓ} {A : Type ℓ} where
  -- The bulk push with `room` places left, counting from `num`.
  push_all_from :
      (capacity : ℕ) (ys : List A) (room num : ℕ) (q : Queue A) (xs : List A)
      → Represents capacity q xs
      → length xs + room ≡ capacity
      → num ≤ length xs
      → (q' : Queue A) × (push_all capacity ys num q ≡ some (num + min (length ys) room, q'))
        × Represents capacity q' (xs ++ take room ys)
  unfolding push_all
  push_all_from capacity [] zero num q xs r e h =
      (q, ground arith, subst (Represents capacity q) (sym (append-nil xs)) r)
  push_all_from capacity [] (suc room) num q xs r e h =
      (q, ground arith, subst (Represents capacity q) (sym (append-nil xs)) r)
  push_all_from capacity (y ∷ ys) zero num q xs r e h = (
    q,
    rw (closed) (ap (λ k. some (k, q)) (omega arith)),
    subst (Represents capacity q) (sym (append-nil xs)) r,
  )
    where
      closed : ltb q.elements capacity ≡ false
      closed = ground (arith, r.count)
  push_all_from capacity (y ∷ ys) (suc room) num q xs r e h =
      let (q', ran, r') = push-Represents capacity y q xs r (omega arith) in
      let (q'', ran', r'') =
        push_all_from capacity ys room (add_size num 1) q' (xs ++ y ∷ []) r'
          (omega (arith, length-append xs (y ∷ []))) (omega (arith, length-append xs (y ∷ []))) in
      (
        q'',
        rw (opened, ran, ran') (ap (λ k. some (k, q'')) (omega (arith, r.bounded, r.fits))),
        subst (Represents capacity q'') (append_assoc xs (y ∷ []) (take room ys)) r'',
      )
    where
      opened : ltb q.elements capacity ≡ true
      opened = ground (arith, r.count)

  -- On a queue that represents a list, the bulk push takes the values that fit, in order, leaves the rest, and returns how many it took.
  pub push_all-Represents :
      (capacity : ℕ) (ys : List A) (q : Queue A) (xs : List A)
      → Represents capacity q xs
      → (q' : Queue A) × (push_all capacity ys 0 q
          ≡ some (min (length ys) (capacity - length xs), q'))
        × Represents capacity q' (xs ++ take (capacity - length xs) ys)
  push_all-Represents capacity ys q xs r =
      let (q', ran, r') =
        push_all_from capacity ys (capacity - length xs) 0 q xs r (omega (arith, r.fits))
          (omega arith) in
      (q', ran ∙ ap (λ k. some (k, q')) (omega arith), r')

  -- On a queue that represents a list, the bulk pop takes out the oldest values, as many as asked for or as there are, in order.
  pub pop_all-Represents :
      (capacity left : ℕ) (q : Queue A) (xs : List A)
      → Represents capacity q xs
      → (q' : Queue A) × (pop_all capacity left q ≡ some (take left xs, q'))
        × Represents capacity q' (drop left xs)
  unfolding pop_all
  pop_all-Represents capacity zero q xs r = (q, refl, r)
  pop_all-Represents capacity (suc left) q [] r = (q, rw stopped, r)
    where
      stopped : ltb 0 q.elements ≡ false
      stopped = ground (arith, r.count)
  pop_all-Represents capacity (suc left) q (x ∷ xs) r =
      let (q', ran, r') = pop-Represents capacity q x xs r in
      let (q'', ran', r'') = pop_all-Represents capacity left q' xs r' in
      (q'', rw (going, ran, ran'), r'')
    where
      going : ltb 0 q.elements ≡ true
      going = ground (arith, r.count)

-- What a client asks of a queue.
pub data Call {ℓ} (A : Type ℓ) : Type ℓ where
  put : A → Call A
  get : Call A

module _ {ℓ} {A : Type ℓ} where
  -- The values that a sequence of calls gets, or `none` if one of them fails its assertion.
  unfoldable pub run : ℕ → List (Call A) → Queue A → Option (List A)
  run capacity [] q = some []
  run capacity (put x ∷ calls) q = push capacity x q >>= run capacity calls
  run capacity (get ∷ calls) q = do
    (x, q') ← pop capacity q
    rest ← run capacity calls q'
    some (x ∷ rest)

  -- The same of a list that never holds more than `capacity` values.
  unfoldable pub run_list : ℕ → List (Call A) → List A → Option (List A)
  run_list capacity [] xs = some []
  run_list capacity (put x ∷ calls) xs =
      let rest = run_list capacity calls (xs ++ x ∷ []) in
      if ltb (length xs) capacity then rest else none
  run_list capacity (get ∷ calls) [] = none
  run_list capacity (get ∷ calls) (x ∷ xs) = do rest ← run_list capacity calls xs; some (x ∷ rest)

  -- No sequence of pushes and pops tells a queue from the bounded list that it represents: the same
  -- values come out in the same order, and the same sequences fail an assertion.
  pub run_refines :
      (capacity : ℕ) (calls : List (Call A)) (q : Queue A) (xs : List A)
      → Represents capacity q xs
      → run capacity calls q ≡ run_list capacity calls xs
  unfolding run run_list
  run_refines capacity [] q xs r = refl
  run_refines capacity (put x ∷ calls) q xs r = elim (Bool-cases (ltb (length xs) capacity)) [
    | inl room ↦
        let (q', ran, r') = push-Represents capacity x q xs r ((ltb_iff _ _).0 room) in
        rw (ran, room) (run_refines capacity calls q' (xs ++ x ∷ []) r')
    | inr full ↦ rw (push_full capacity x q xs r (ground (arith, r.fits)), full)
  ]
  run_refines capacity (get ∷ calls) q [] r = rw (pop_empty capacity q r)
  run_refines capacity (get ∷ calls) q (x ∷ xs) r =
      let (q', ran, r') = pop-Represents capacity q x xs r in
      rw (ran, run_refines capacity calls q' xs r')
