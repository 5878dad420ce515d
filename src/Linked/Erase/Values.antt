-- ===== src/Linked/Erase/Values.antt =====
-- The erasure of a value, and of all that have a property.
use i2c.Prelude.{
  ℕ, zero, suc, ◌+◌, ◌<◌, ◌≡◌, refl, sym, ap, subst, ◌∙◌, Bool, Option, none, some, List, [], ◌∷◌,
  ◌++◌, append_assoc, arith, length, length-append, get_elem?, inl, inr, Bool-cases, if◌then◌else◌,
  ◌>>=◌,
}
use i2c.Linked.{LinkedList, read_place, seek, unlink, erase, erase_if_from, erase_if}
use i2c.Linked.Chain.{Chain, IsList}
use i2c.Linked.Erase.Unlink.{place_after, place_after-append, read_place_after, unlink-IsList}

module _ {A : Type 0} where
  -- A list without the first value that has a property, and without all that have it.
  abbrev pub remove_first : (A → Bool) → List A → List A
  remove_first p [] = []
  remove_first p (x ∷ xs) = let later = remove_first p xs in if p x then xs else x ∷ later

  abbrev pub remove_if : (A → Bool) → List A → List A
  remove_if p [] = []
  remove_if p (x ∷ xs) = let later = remove_if p xs in if p x then later else x ∷ later

  -- The first node of the rest of a list, moved to the part that is kept.
  kept_on :
      (capacity : ℕ) (l : LinkedList A) (kept : List ℕ) (n : ℕ) (nodes : List ℕ) (before : List A)
      (x : A) (xs : List A)
      → IsList capacity l (kept ++ n ∷ nodes) (before ++ x ∷ xs)
      → IsList capacity l ((kept ++ n ∷ []) ++ nodes) ((before ++ x ∷ []) ++ xs)
  kept_on capacity l kept n nodes before x xs h =
      subst (λ ns. IsList capacity l ns ((before ++ x ∷ []) ++ xs))
        (sym (append_assoc kept (n ∷ []) nodes))
        (subst (IsList capacity l (kept ++ n ∷ nodes)) (sym (append_assoc before (x ∷ []) xs)) h)

  kept_on_sized :
      (kept : List ℕ) (n : ℕ) (before : List A) (x : A)
      → length kept ≡ length before
      → length (kept ++ n ∷ []) ≡ length (before ++ x ∷ [])
  kept_on_sized kept n before x sized =
      omega (arith, sized, length-append kept (n ∷ []), length-append before (x ∷ []))

  -- What a loop reads at a place from which nodes and values follow.
  abbrev AtPlace : LinkedList A → Option ℕ → List ℕ → List A → Type 0
  AtPlace l place [] [] = read_place l place ≡ some none
  AtPlace l place (n ∷ nodes) (x ∷ xs) =
      (read_place l place ≡ some (some n)) × (get_elem? l.values n ≡ some x)
  AtPlace l place _ _ = ⊥

  at_place :
      (capacity : ℕ) (l : LinkedList A) (kept nodes : List ℕ) (before xs : List A)
      → IsList capacity l (kept ++ nodes) (before ++ xs)
      → length kept ≡ length before
      → AtPlace l (place_after none kept) nodes xs
  unfolding read_place
  at_place capacity l kept nodes before xs h sized =
      let (from, read, c) =
        read_place_after l none l.first kept nodes before xs refl h.chain sized in
      from_chain from nodes xs read c
    where
      from_chain :
          (from : Option ℕ) (nodes : List ℕ) (xs : List A)
          → read_place l (place_after none kept) ≡ some from
          → Chain l.links l.values from nodes xs
          → AtPlace l (place_after none kept) nodes xs
      from_chain none [] [] read c = read
      from_chain none [] (x ∷ xs) read c = absurd c
      from_chain none (n ∷ nodes) xs read c = absurd c
      from_chain (some i) [] xs read c = absurd c
      from_chain (some i) (n ∷ nodes) [] read c = absurd c
      from_chain (some i) (n ∷ nodes) (x ∷ xs) read (next, same, at, linked, c) =
          (read ∙ ap (λ j. some (some j)) same, at)

  -- The loop of `erase_if` from the place behind some nodes on.
  erase_if_from-IsList :
      (predicate : A → Bool) (rounds capacity : ℕ) (l : LinkedList A) (kept nodes : List ℕ)
      (before xs : List A)
      → IsList capacity l (kept ++ nodes) (before ++ xs)
      → length kept ≡ length before
      → length nodes < rounds
      → (l' : LinkedList A) × (nodes' : List ℕ) × (erase_if_from predicate rounds l
            (place_after none kept)
          ≡ some l')
        × IsList capacity l' nodes' (before ++ remove_if predicate xs)
  unfolding erase_if_from
  erase_if_from-IsList predicate zero capacity l kept nodes before xs h sized enough =
      absurd (omega (arith, enough))
  erase_if_from-IsList predicate (suc rounds) capacity l kept [] before [] h sized enough =
      (l, kept ++ [], rw (at_place capacity l kept [] before [] h sized) refl, h)
  erase_if_from-IsList predicate (suc rounds) capacity l kept [] before (x ∷ xs) h sized enough =
      absurd (at_place capacity l kept [] before (x ∷ xs) h sized)
  erase_if_from-IsList predicate (suc rounds) capacity l kept (n ∷ nodes) before [] h sized enough =
      absurd (at_place capacity l kept (n ∷ nodes) before [] h sized)
  erase_if_from-IsList predicate (suc rounds) capacity l kept (n ∷ nodes) before (x ∷ xs) h sized
        enough =
      let (read, value) = at_place capacity l kept (n ∷ nodes) before (x ∷ xs) h sized in
      elim (Bool-cases (predicate x)) [
        | inl holds ↦
            let (l₁, unlinked, h₁) = unlink-IsList capacity l kept n nodes before x xs h sized in
            let (l', nodes', ran, h') =
              erase_if_from-IsList predicate rounds capacity l₁ kept nodes before xs h₁ sized
                (omega (arith, enough)) in
            (l', nodes', rw (read, value, holds, unlinked) ran, rw holds h')
        | inr other ↦
            let (l', nodes', ran, h') =
              erase_if_from-IsList predicate rounds capacity l (kept ++ n ∷ []) nodes
                (before ++ x ∷ []) xs (kept_on capacity l kept n nodes before x xs h)
                (kept_on_sized kept n before x sized) (omega (arith, enough)) in
            (
              l',
              nodes',
              rw (read, value, other)
                  (subst (λ place. erase_if_from predicate rounds l place ≡ some l')
                    (place_after-append none kept n) ran),
              rw other (
                  subst (IsList capacity l' nodes')
                    (append_assoc before (x ∷ []) (remove_if predicate xs)) h'),
            )
      ]

  -- `eraseIf` leaves the values that do not have the property, in their order.
  pub erase_if-IsList :
      (predicate : A → Bool) (capacity : ℕ) (l : LinkedList A) (nodes : List ℕ) (xs : List A)
      → IsList capacity l nodes xs
      → (l' : LinkedList A) × (nodes' : List ℕ) × (erase_if predicate l ≡ some l')
        × IsList capacity l' nodes' (remove_if predicate xs)
  unfolding erase_if
  erase_if-IsList predicate capacity l nodes xs h =
      erase_if_from-IsList predicate (length l.values + 1) capacity l [] nodes [] xs h refl
        (omega (arith, h.values_sized, h.room))

  -- The loop of `erase` from the place behind some nodes on, and the unlinking.
  erase_from-IsList :
      (same : A → A → Bool) (v : A) (rounds capacity : ℕ) (l : LinkedList A) (kept nodes : List ℕ)
      (before xs : List A)
      → IsList capacity l (kept ++ nodes) (before ++ xs)
      → length kept ≡ length before
      → length nodes < rounds
      → (l' : LinkedList A) × (nodes' : List ℕ) × ((seek
              (λ node. get_elem? l.values node >>= λ x. some (same x v))
              rounds
              l
              (place_after none kept)
            >>= unlink l)
          ≡ some l')
        × IsList capacity l' nodes' (before ++ remove_first (λ x. same x v) xs)
  unfolding seek
  erase_from-IsList same v zero capacity l kept nodes before xs h sized enough =
      absurd (omega (arith, enough))
  erase_from-IsList same v (suc rounds) capacity l kept [] before [] h sized enough =
      let read = at_place capacity l kept [] before [] h sized in
      (l, kept ++ [], rw read (unfold unlink in rw read refl), h)
  erase_from-IsList same v (suc rounds) capacity l kept [] before (x ∷ xs) h sized enough =
      absurd (at_place capacity l kept [] before (x ∷ xs) h sized)
  erase_from-IsList same v (suc rounds) capacity l kept (n ∷ nodes) before [] h sized enough =
      absurd (at_place capacity l kept (n ∷ nodes) before [] h sized)
  erase_from-IsList same v (suc rounds) capacity l kept (n ∷ nodes) before (x ∷ xs) h sized enough =
      let (read, value) = at_place capacity l kept (n ∷ nodes) before (x ∷ xs) h sized in
      elim (Bool-cases (same x v)) [
        | inl holds ↦
            let (l', unlinked, h') = unlink-IsList capacity l kept n nodes before x xs h sized in
            (l', kept ++ nodes, rw (read, value, holds) unlinked, rw holds h')
        | inr other ↦
            let (l', nodes', ran, h') =
              erase_from-IsList same v rounds capacity l (kept ++ n ∷ []) nodes (before ++ x ∷ [])
                xs (kept_on capacity l kept n nodes before x xs h)
                (kept_on_sized kept n before x sized) (omega (arith, enough)) in
            (
              l',
              nodes',
              rw (read, value, other)
                  (subst
                    (λ place.
                      (seek (λ node. get_elem? l.values node >>= λ y. some (same y v)) rounds l
                          place
                        >>= unlink l)
                      ≡ some l')
                    (place_after-append none kept n) ran),
              rw other (
                  subst (IsList capacity l' nodes')
                    (append_assoc before (x ∷ []) (remove_first (λ y. same y v) xs)) h'),
            )
      ]

  -- `erase` of a value leaves the others in their order, or all if the value is not in the list.
  pub erase-IsList :
      (same : A → A → Bool) (v : A) (capacity : ℕ) (l : LinkedList A) (nodes : List ℕ) (xs : List A)
      → IsList capacity l nodes xs
      → (l' : LinkedList A) × (nodes' : List ℕ) × (erase same v l ≡ some l')
        × IsList capacity l' nodes' (remove_first (λ x. same x v) xs)
  unfolding erase
  erase-IsList same v capacity l nodes xs h =
      erase_from-IsList same v (length l.values + 1) capacity l [] nodes [] xs h refl
        (omega (arith, h.values_sized, h.room))
