-- ===== src/Linked/Find.antt =====
-- The values that a list shows, the search in it, and the empty list.
use i2c.Prelude.{
  ℕ, zero, suc, ◌+◌, ◌<◌, ◌≡◌, refl, ap, ◌∙◌, Bool, true, false, Option, none, some, List, [], ◌∷◌,
  ◌++◌, arith, length, get_elem?, Bool-cases, inl, inr, All,
}
use i2c.Linked.{LinkedList, visited, for_each, clear, indices, find_from, find_if}
use i2c.Linked.Chain.{Chain, IsList}

module _ {A : Type 0} where
  visited_lem :
      (rounds : ℕ) (l : LinkedList A) (from : Option ℕ) (nodes : List ℕ) (xs : List A)
      → Chain l.links l.values from nodes xs
      → length nodes < rounds
      → visited rounds l from ≡ some xs
  unfolding visited
  visited_lem zero l from nodes xs c enough = absurd (omega (arith, enough))
  visited_lem (suc rounds) l none [] [] c enough = refl
  visited_lem (suc rounds) l none [] (x ∷ xs) c enough = absurd c
  visited_lem (suc rounds) l none (m ∷ nodes) xs c enough = absurd c
  visited_lem (suc rounds) l (some n) [] xs c enough = absurd c
  visited_lem (suc rounds) l (some n) (m ∷ nodes) [] c enough = absurd c
  visited_lem (suc rounds) l (some n) (m ∷ nodes) (x ∷ xs) (next, same, at, linked, rest) enough =
      rw
        (
          ap (get_elem? l.values) same ∙ at,
          ap (get_elem? l.links) same ∙ linked,
          visited_lem rounds l next nodes xs rest (omega (arith, enough)),
        )
        refl

  -- `forEach` visits the values of the list, in order.
  pub for_each_lem :
      (capacity : ℕ) (l : LinkedList A) (nodes : List ℕ) (xs : List A)
      → IsList capacity l nodes xs
      → for_each l ≡ some xs
  unfolding for_each
  for_each_lem capacity l nodes xs h =
      visited_lem (length l.values + 1) l l.first nodes xs h.chain
        (omega (arith, h.values_sized, h.room))

length-indices : (i n : ℕ) → length (indices i n) ≡ n
length-indices i zero = refl
length-indices i (suc n) = ap suc (length-indices (i + 1) n)

get_elem?-indices :
    (i n k node : ℕ) → get_elem? (indices i n) k ≡ some node → (node ≡ i + k) × (k < n)
get_elem?-indices i zero k node found = cc
get_elem?-indices i (suc n) zero node found =
    let same : i ≡ node = cc in (omega (arith, same), omega arith)
get_elem?-indices i (suc n) (suc k) node found =
    let (at, inside) = get_elem?-indices (i + 1) n k node found in
    (omega (arith, at), omega (arith, inside))

module _ {A : Type 0} where
  -- `clear` makes the list empty, whatever it was, with every node in the pool.
  pub clear-IsList :
      (capacity : ℕ) (l : LinkedList A)
      → length l.links ≡ capacity
      → length l.values ≡ capacity
      → IsList capacity (clear l) [] []
  unfolding clear
  clear-IsList capacity l links_sized values_sized = record {
    links_sized = links_sized;
    values_sized = values_sized;
    pool_sized = length-indices 0 (length l.values) ∙ values_sized;
    chain = tt;
    distinct = tt;
    room = omega (arith, values_sized);
    apart = λ k node small found.
        let (at, inside) = get_elem?-indices 0 (length l.values) k node found in
        (omega (arith, at, inside, values_sized), tt);
    once = λ j k node small small' found found'.
        let (at, inside) = get_elem?-indices 0 (length l.values) j node found in
        let (at', inside') = get_elem?-indices 0 (length l.values) k node found' in
        omega (arith, at, at');
  }

  -- What `findIf` should come to: no value has the property, or the first that has it is at the node.
  abbrev pub Found : (A → Bool) → List A → List A → Option ℕ → Type 0
  Found predicate values xs none = All (λ x. predicate x ≡ false) xs
  Found predicate values xs (some node) =
      (before : List A) × (x : A) × (later : List A) × (xs ≡ before ++ x ∷ later)
      × All (λ y. predicate y ≡ false) before
      × (predicate x ≡ true)
      × (get_elem? values node ≡ some x)

  Found-later :
      (predicate : A → Bool) (values : List A) (x : A) (xs : List A) (result : Option ℕ)
      → predicate x ≡ false
      → Found predicate values xs result
      → Found predicate values (x ∷ xs) result
  Found-later predicate values x xs none other found = (other, found)
  Found-later predicate values x xs (some node) other
        (before, y, later, split, none_before, holds, at) =
      (x ∷ before, y, later, ap (λ ys. x ∷ ys) split, (other, none_before), holds, at)

  find_from_lem :
      (predicate : A → Bool) (rounds : ℕ) (l : LinkedList A) (from : Option ℕ) (nodes : List ℕ)
      (xs : List A)
      → Chain l.links l.values from nodes xs
      → length nodes < rounds
      → (result : Option ℕ) × (find_from predicate rounds l from ≡ some result)
        × Found predicate l.values xs result
  unfolding find_from
  find_from_lem predicate zero l from nodes xs c enough = absurd (omega (arith, enough))
  find_from_lem predicate (suc rounds) l none [] [] c enough = (none, refl, tt)
  find_from_lem predicate (suc rounds) l none [] (x ∷ xs) c enough = absurd c
  find_from_lem predicate (suc rounds) l none (m ∷ nodes) xs c enough = absurd c
  find_from_lem predicate (suc rounds) l (some n) [] xs c enough = absurd c
  find_from_lem predicate (suc rounds) l (some n) (m ∷ nodes) [] c enough = absurd c
  find_from_lem predicate (suc rounds) l (some n) (m ∷ nodes) (x ∷ xs)
        (next, same, at, linked, rest) enough =
      let here : get_elem? l.values n ≡ some x = ap (get_elem? l.values) same ∙ at in
      let on : get_elem? l.links n ≡ some next = ap (get_elem? l.links) same ∙ linked in
      elim (Bool-cases (predicate x)) [
        | inl holds ↦ (some n, rw (here, on, holds) refl, ([], x, xs, refl, tt, holds, here))
        | inr other ↦
            let (result, ran, found) =
              find_from_lem predicate rounds l next nodes xs rest (omega (arith, enough)) in
            (
              result,
              rw (here, on, other) ran,
              Found-later predicate l.values x xs result other found,
            )
      ]

  -- `findIf` ends, with the node of the first value that has the property, or the null pointer if
  -- no value has it.
  pub find_if_lem :
      (predicate : A → Bool) (capacity : ℕ) (l : LinkedList A) (nodes : List ℕ) (xs : List A)
      → IsList capacity l nodes xs
      → (result : Option ℕ) × (find_if predicate l ≡ some result)
        × Found predicate l.values xs result
  unfolding find_if
  find_if_lem predicate capacity l nodes xs h =
      find_from_lem predicate (length l.values + 1) l l.first nodes xs h.chain
        (omega (arith, h.values_sized, h.room))
