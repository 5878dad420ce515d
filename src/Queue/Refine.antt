-- ===== src/Queue/Refine.antt =====
-- The array behaves as a list of at most `capacity` values, oldest first.
use i2c.Prelude.{
  ℕ, suc, ◌+◌, ◌-◌, ◌≤◌, ◌<◌, ◌≡◌, ◌≢◌, refl, none, some, List, [], ◌∷◌, ◌++◌, ltb, arith,
  if◌then◌else◌, length, get_elem?, set, length-set, length-append, get_elem?-set_self,
  get_elem?-set_ne, size_mod, add_size, sym, ap, subst, ◌∙◌,
}
use i2c.Queue.{Queue, advance, fresh, clear, push, pop, front}

-- The place that is `n` steps behind `h` on the ring.
unfoldable pub slot : ℕ → ℕ → ℕ → ℕ
slot capacity h n = if ltb (h + n) capacity then h + n else h + n - capacity

module _ {ℓ} {A : Type ℓ} where
  -- The array holds the list from index `h` on, going round at the capacity.
  abbrev pub Window : List A → ℕ → ℕ → List A → Type ℓ
  Window storage capacity h [] = Unit
  Window storage capacity h (x ∷ xs) =
      (get_elem? storage h ≡ some x) × Window storage capacity (advance capacity h) xs

  -- The queue is well formed and holds exactly the list.
  pub record Represents (capacity : ℕ) (q : Queue A) (xs : List A) : Type ℓ where
    pub sized : length q.storage ≡ capacity
    pub bounded : capacity < size_mod
    pub head_in : q.head < capacity
    pub count : q.elements ≡ length xs
    pub fits : length xs ≤ capacity
    pub tail_at : q.tail ≡ slot capacity q.head (length xs)
    pub window : Window q.storage capacity q.head xs

advance-lt : (capacity h : ℕ) → capacity < size_mod → h < capacity → advance capacity h < capacity
unfolding advance
advance-lt capacity h b p = ground arith

slot-advance :
    (capacity h n : ℕ)
    → capacity < size_mod
    → h < capacity
    → suc n ≤ capacity
    → slot capacity (advance capacity h) n ≡ slot capacity h (suc n)
unfolding advance slot
slot-advance capacity h n b p q = ground arith

advance-slot :
    (capacity h n : ℕ)
    → capacity < size_mod
    → h < capacity
    → n < capacity
    → advance capacity (slot capacity h n) ≡ slot capacity h (suc n)
unfolding advance slot
advance-slot capacity h n b p q = ground arith

slot-zero : (capacity h : ℕ) → h < capacity → slot capacity h 0 ≡ h
unfolding slot
slot-zero capacity h p = ground arith

slot-ne : (capacity h n : ℕ) → h < capacity → suc n < capacity → slot capacity h (suc n) ≢ h
unfolding slot
slot-ne capacity h n p q = ground arith

module _ {ℓ} {A : Type ℓ} where
  -- Writing to the place behind the window extends it.
  Window-set :
      (storage : List A) (capacity h : ℕ) (xs : List A) (x : A)
      → length storage ≡ capacity
      → capacity < size_mod
      → h < capacity
      → length xs < capacity
      → Window storage capacity h xs
      → Window (set storage (slot capacity h (length xs)) x) capacity h (xs ++ x ∷ [])
  Window-set storage capacity h [] x s b p q w =
      (rw (slot-zero capacity h p) (get_elem?-set_self storage h x (omega arith)), tt)
  Window-set storage capacity h (y ∷ ys) x s b p q w = (
    kept,
    subst (λ k. Window (set storage k x) capacity (advance capacity h) (ys ++ x ∷ []))
        (slot-advance capacity h (length ys) b p (omega arith))
        (Window-set storage capacity (advance capacity h) ys x s b (advance-lt capacity h b p)
          (omega arith) w.1),
  )
    where
      apart : slot capacity h (suc (length ys)) ≢ h
      apart = slot-ne capacity h (length ys) p q

      kept : get_elem? (set storage (slot capacity h (suc (length ys))) x) h ≡ some y
      kept = rw (get_elem?-set_ne storage (slot capacity h (suc (length ys))) h x apart) w.0

  -- An empty queue over an array of the capacity's length holds nothing.
  pub fresh-Represents :
      (capacity : ℕ) (storage : List A)
      → length storage ≡ capacity
      → 0 < capacity
      → capacity < size_mod
      → Represents capacity (fresh storage) []
  unfolding fresh
  fresh-Represents capacity storage s p b = record {
    sized = s;
    bounded = b;
    head_in = p;
    count = refl;
    fits = omega arith;
    tail_at = sym (slot-zero capacity 0 p);
    window = tt;
  }

  -- A push below the capacity puts its value behind the others.
  pub push-Represents :
      (capacity : ℕ) (x : A) (q : Queue A) (xs : List A)
      → Represents capacity q xs
      → length xs < capacity
      → (q' : Queue A) × (push capacity x q ≡ some q') × Represents capacity q' (xs ++ x ∷ [])
  unfolding push
  push-Represents capacity x q xs r room = (after, run, held)
    where
      after : Queue A
      after = record q {
        storage = set q.storage q.tail x;
        tail = advance capacity q.tail;
        elements = add_size q.elements 1;
      }

      run : push capacity x q ≡ some after
      run = ground (arith, r.count)

      moved : Window (set q.storage q.tail x) capacity q.head (xs ++ x ∷ [])
      moved =
          rw r.tail_at
            (Window-set q.storage capacity q.head xs x r.sized r.bounded r.head_in room r.window)

      held : Represents capacity after (xs ++ x ∷ [])
      held = record {
        sized = length-set q.storage q.tail x ∙ r.sized;
        bounded = r.bounded;
        head_in = r.head_in;
        count = omega (arith, length-append xs (x ∷ []), r.count, r.bounded);
        fits = omega (arith, length-append xs (x ∷ []));
        tail_at =
            rw (r.tail_at, advance-slot capacity q.head (length xs) r.bounded r.head_in room)
              (ap (slot capacity q.head) (omega (arith, length-append xs (x ∷ []))));
        window = moved;
      }

  -- A push at the capacity is refused.
  pub push_full :
      (capacity : ℕ) (x : A) (q : Queue A) (xs : List A)
      → Represents capacity q xs
      → length xs ≡ capacity
      → push capacity x q ≡ none
  unfolding push
  push_full capacity x q xs r full = ground (arith, r.count)

  -- A pop of a queue that holds something takes the oldest value out.
  pub pop-Represents :
      (capacity : ℕ) (q : Queue A) (x : A) (xs : List A)
      → Represents capacity q (x ∷ xs)
      → (q' : Queue A) × (pop capacity q ≡ some (x, q')) × Represents capacity q' xs
  unfolding pop
  pop-Represents capacity q x xs r = (after, run, held)
    where
      after : Queue A
      after = record q { head = advance capacity q.head; elements = q.elements - 1 }

      run : pop capacity q ≡ some (x, after)
      run = ground (arith, r.count, r.window.0)

      held : Represents capacity after xs
      held = record {
        sized = r.sized;
        bounded = r.bounded;
        head_in = advance-lt capacity q.head r.bounded r.head_in;
        count = omega (arith, r.count);
        fits = omega (arith, r.fits);
        tail_at =
            r.tail_at ∙ sym (slot-advance capacity q.head (length xs) r.bounded r.head_in r.fits);
        window = r.window.1;
      }

  -- A pop of an empty queue is refused.
  pub pop_empty : (capacity : ℕ) (q : Queue A) → Represents capacity q [] → pop capacity q ≡ none
  unfolding pop
  pop_empty capacity q r = ground (arith, r.count)

  -- `front` is the oldest value.
  pub front-Represents :
      (capacity : ℕ) (q : Queue A) (x : A) (xs : List A)
      → Represents capacity q (x ∷ xs)
      → front q ≡ some x
  unfolding front
  front-Represents capacity q x xs r = ground (arith, r.count, r.window.0)

  -- `clear` leaves an empty queue.
  pub clear-Represents :
      (capacity : ℕ) (q : Queue A) (xs : List A)
      → Represents capacity q xs
      → Represents capacity (clear q) []
  unfolding clear
  clear-Represents capacity q xs r = record {
    sized = r.sized;
    bounded = r.bounded;
    head_in = omega (arith, r.head_in);
    count = refl;
    fits = omega arith;
    tail_at = sym (slot-zero capacity 0 (omega (arith, r.head_in)));
    window = tt;
  }
