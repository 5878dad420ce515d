-- ===== src/Pool/Ownership.antt =====
-- Every descriptor is either free or handed out, and to one owner.
use i2c.Prelude.{
  ℕ, zero, suc, size_mod, leb, ltb, ◌&&◌, append-nil, append_assoc, ◌+◌, ◌≤◌, ◌<◌, ◌≡◌, ◌≢◌, refl,
  sym, ap, subst, ◌∙◌, none, some, List, [], ◌∷◌, ◌++◌, arith, length, length-append, length-set,
  set, get_elem?, get_elem?-set_self, get_elem?-set_ne, ◌==◌, if◌then◌else◌, false,
}
use i2c.Queue.{Queue, fresh, is_empty}
use i2c.Queue.Refine.{Represents, fresh-Represents, push-Represents, pop-Represents}
use i2c.Pool.{RequestPool, push_elements, make, alloc, free}

-- How often an index stands in a list.
abbrev pub occurrences : ℕ → List ℕ → ℕ
occurrences i [] = 0
occurrences i (x ∷ xs) = let n = occurrences i xs in if x == i then n + 1 else n

pub occurrences-append :
    (i : ℕ) (xs ys : List ℕ) → occurrences i (xs ++ ys) ≡ occurrences i xs + occurrences i ys
occurrences-append i [] ys = omega arith
occurrences-append i (x ∷ xs) ys = ground (arith, occurrences-append i xs ys)

-- The free descriptors, oldest first, and those handed out: each index below the capacity stands in one
-- of the lists, once, and no other index does.
pub record Owns {ℓ} {A : Type ℓ} (capacity : ℕ) (p : RequestPool A) (unused used : List ℕ)
    : Type ℓ where
  pub sized : length p.pool ≡ capacity
  pub queued : Represents capacity p.requests unused
  pub all : length unused + length used ≡ capacity
  pub once : (i : ℕ) → occurrences i unused + occurrences i used ≡ (if ltb i capacity then 1 else 0)

-- `n` indices from `i` on.
abbrev pub range : ℕ → ℕ → List ℕ
range i zero = []
range i (suc n) = i ∷ range (i + 1) n

length-range : (i n : ℕ) → length (range i n) ≡ n
length-range i zero = refl
length-range i (suc n) = ap suc (length-range (i + 1) n)

occurrences-range :
    (j i n : ℕ) → occurrences j (range i n) ≡ (if leb i j && ltb j (i + n) then 1 else 0)
occurrences-range j i zero = ground arith
occurrences-range j i (suc n) = ground (arith, occurrences-range j (i + 1) n)

push_elements_lem :
    (capacity n i : ℕ) (q : Queue ℕ) (xs : List ℕ)
    → Represents capacity q xs
    → length xs + n ≤ capacity
    → (after : Queue ℕ) × (push_elements capacity n i q ≡ some after)
      × Represents capacity after (xs ++ range i n)
unfolding push_elements
push_elements_lem capacity zero i q xs r room =
    (q, refl, subst (Represents capacity q) (sym (append-nil xs)) r)
push_elements_lem capacity (suc n) i q xs r room =
    let (next, ran, held) = push-Represents capacity i q xs r (omega arith) in
    let (after, rest, all) =
      push_elements_lem capacity n (i + 1) next (xs ++ i ∷ []) held
        (omega (arith, length-append xs (i ∷ []))) in
    (
      after,
      rw (ran, rest),
      subst (Represents capacity after) (append_assoc xs (i ∷ []) (range (i + 1) n)) all,
    )

module _ {ℓ} {A : Type ℓ} (capacity : ℕ) where
  -- The constructor succeeds, and every descriptor is free then.
  pub make-Owns :
      (pool : List A) (memory : List ℕ)
      → length pool ≡ capacity
      → length memory ≡ capacity
      → 0 < capacity
      → capacity < size_mod
      → (p : RequestPool A) × (make capacity pool memory ≡ some p)
        × Owns capacity p (range 0 capacity) []
  unfolding make
  make-Owns pool memory sized sized' some_room bounded =
      let (q, ran, held) =
        push_elements_lem capacity capacity 0 (fresh memory) []
          (fresh-Represents capacity memory sized' some_room bounded) (omega arith) in
      (
        record { pool = pool; requests = q },
        rw ran,
        record {
          sized = sized;
          queued = held;
          all = omega (arith, length-range 0 capacity);
          once = λ i. ground (arith, occurrences-range i 0 capacity);
        },
      )

  -- With a free descriptor, `alloc` hands out the one that has been free for longest, constructs the
  -- request in it, and leaves every other descriptor as it is; no owner had it before.
  pub alloc-Owns :
      (request : A) (p : RequestPool A) (x : ℕ) (unused used : List ℕ)
      → Owns capacity p (x ∷ unused) used
      → (after : RequestPool A) × (alloc capacity request p ≡ some (some x, after))
        × Owns capacity after unused (x ∷ used)
        × (occurrences x used ≡ 0)
        × (get_elem? after.pool x ≡ some request)
        × ((i : ℕ) → x ≢ i → get_elem? after.pool i ≡ get_elem? p.pool i)
  unfolding alloc is_empty
  alloc-Owns request p x unused used o =
      let (q, ran, held) = pop-Represents capacity p.requests x unused o.queued in
      let after : RequestPool A = record { pool = set p.pool x request; requests = q } in
      (
        after,
        rw (busy, ran),
        record {
          sized = length-set p.pool x request ∙ o.sized;
          queued = held;
          all = omega (arith, o.all);
          once = λ i. ground (arith, o.once i);
        },
        ground (arith, o.once x),
        get_elem?-set_self p.pool x request (ground (arith, o.once x, o.sized)),
        λ i apart. get_elem?-set_ne p.pool x i request apart,
      )
    where
      busy : (p.requests.elements == 0) ≡ false
      busy = ground (arith, o.queued.count)

  -- With no free descriptor, `alloc` returns the null pointer and changes nothing.
  pub alloc_empty :
      (request : A) (p : RequestPool A) (used : List ℕ)
      → Owns capacity p [] used
      → alloc capacity request p ≡ some (none, p)
  unfolding alloc is_empty
  alloc_empty request p used o = ground (arith, o.queued.count)

  -- The return of a descriptor that is handed out and not referenced is never refused: it becomes the
  -- last of the free ones, and the descriptors stay as they are.
  pub free-Owns :
      (refs : A → ℕ) (request : A) (p : RequestPool A) (x : ℕ) (unused before later : List ℕ)
      → Owns capacity p unused (before ++ x ∷ later)
      → get_elem? p.pool x ≡ some request
      → refs request ≡ 0
      → (after : RequestPool A) × (free capacity refs x p ≡ some after)
        × Owns capacity after (unused ++ x ∷ []) (before ++ later)
        × (after.pool ≡ p.pool)
  unfolding free
  free-Owns refs request p x unused before later o found none_left =
      let (q, ran, held) =
        push-Represents capacity x p.requests unused o.queued
          (omega (arith, o.all, length-append before (x ∷ later))) in
      (
        record p { requests = q },
        rw (found, none_left, ran),
        record {
          sized = o.sized;
          queued = held;
          all = omega (
            arith,
            o.all,
            length-append before (x ∷ later),
            length-append before later,
            length-append unused (x ∷ []),
          );
          once = λ i. ground (
            arith,
            o.once i,
            occurrences-append i before (x ∷ later),
            occurrences-append i before later,
            occurrences-append i unused (x ∷ []),
          );
        },
        refl,
      )

  -- A descriptor that is still referenced is kept.
  pub free_shared :
      (refs : A → ℕ) (request : A) (p : RequestPool A) (x : ℕ)
      → get_elem? p.pool x ≡ some request
      → 1 ≤ refs request
      → free capacity refs x p ≡ some p
  unfolding free
  free_shared refs request p x found shared = rw found (ground arith)

  -- The order of the descriptors that are handed out does not matter: the first may be the last.
  pub Owns-last :
      (p : RequestPool A) (x : ℕ) (unused used : List ℕ)
      → Owns capacity p unused (x ∷ used)
      → Owns capacity p unused (used ++ x ∷ [])
  Owns-last p x unused used o = record {
    sized = o.sized;
    queued = o.queued;
    all = omega (arith, o.all, length-append used (x ∷ []));
    once = λ i. ground (arith, o.once i, occurrences-append i used (x ∷ []));
  }
