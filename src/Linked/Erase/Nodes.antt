-- ===== src/Linked/Erase/Nodes.antt =====
-- The erasure of a node.
use i2c.Prelude.{
  ℕ, zero, suc, ◌+◌, ◌<◌, ◌≡◌, refl, ap, ◌∙◌, true, false, Option, none, some, List, [], ◌∷◌, ◌++◌,
  arith, length, length-append, ◌==◌, All,
}
use i2c.Linked.{LinkedList, read_place, seek, erase_node}
use i2c.Linked.Chain.{Absent, Distinct, Chain, IsList}
use i2c.Linked.Erase.Unlink.{place_after, read_place_after, unlink-IsList}

-- A pointer to the first node of a list of nodes.
abbrev pub pointer_to : List ℕ → Option ℕ
pointer_to [] = none
pointer_to (n ∷ nodes) = some n

earlier_differ :
    (before : List ℕ) (n : ℕ) (later : List ℕ)
    → Distinct (before ++ n ∷ later)
    → All (λ m. (m == n) ≡ false) before
earlier_differ [] n later apart = tt
earlier_differ (m ∷ before) n later apart =
    (other before apart.0, earlier_differ before n later apart.1)
  where
    other : (before : List ℕ) → Absent m (before ++ n ∷ later) → (m == n) ≡ false
    other [] away = let differ = away.0 in ground arith
    other (k ∷ before) away = other before away.1

module _ {A : Type 0} where
  pub Chain-pointer :
      (links : List (Option ℕ)) (values : List A) (from : Option ℕ) (nodes : List ℕ) (xs : List A)
      → Chain links values from nodes xs
      → from ≡ pointer_to nodes
  Chain-pointer links values none [] [] c = refl
  Chain-pointer links values none [] (x ∷ xs) c = absurd c
  Chain-pointer links values none (n ∷ nodes) xs c = absurd c
  Chain-pointer links values (some i) [] xs c = absurd c
  Chain-pointer links values (some i) (n ∷ nodes) [] c = absurd c
  Chain-pointer links values (some i) (n ∷ nodes) (x ∷ xs) (next, same, at, linked, c) =
      ap some same

  seek_node :
      (rounds : ℕ) (l : LinkedList A) (start from : Option ℕ) (before : List ℕ) (n : ℕ)
      (later : List ℕ) (xs : List A)
      → read_place l start ≡ some from
      → Chain l.links l.values from (before ++ n ∷ later) xs
      → All (λ m. (m == n) ≡ false) before
      → length before < rounds
      → seek (λ node. some (node == n)) rounds l start ≡ some (place_after start before)
  unfolding seek read_place
  seek_node zero l start from before n later xs read c differ enough =
      absurd (omega (arith, enough))
  seek_node (suc rounds) l start none [] n later xs read c differ enough = absurd c
  seek_node (suc rounds) l start none (m ∷ before) n later xs read c differ enough = absurd c
  seek_node (suc rounds) l start (some i) [] n later [] read c differ enough = absurd c
  seek_node (suc rounds) l start (some i) (m ∷ before) n later [] read c differ enough = absurd c
  seek_node (suc rounds) l start (some i) [] n later (x ∷ xs) read (next, same, at, linked, c)
        differ enough =
      let equal : (i == n) ≡ true = ground (arith, same) in rw (read, equal) refl
  seek_node (suc rounds) l start (some i) (m ∷ before) n later (x ∷ xs) read
        (next, same, at, linked, c) differ enough =
      let other : (i == n) ≡ false = ap (λ j. j == n) same ∙ differ.0 in
      rw (read, other)
        (ap (λ j. seek (λ node. some (node == n)) rounds l (some j)) same
          ∙ seek_node rounds l (some m) next before n later xs linked c differ.1
              (omega (arith, enough)))

  -- `erase` of a node of the list takes it out, and returns the pointer to the one behind it.
  pub erase_node-IsList :
      (capacity : ℕ) (l : LinkedList A) (before : List ℕ) (n : ℕ) (later : List ℕ) (xs : List A)
      (x : A) (ys : List A)
      → IsList capacity l (before ++ n ∷ later) (xs ++ x ∷ ys)
      → length before ≡ length xs
      → (l' : LinkedList A) × (erase_node n l ≡ some (pointer_to later, l'))
        × IsList capacity l' (before ++ later) (xs ++ ys)
  unfolding erase_node
  erase_node-IsList capacity l before n later xs x ys h sized =
      let (l', unlinked, h') = unlink-IsList capacity l before n later xs x ys h sized in
      let found =
        seek_node (length l.values + 1) l none l.first before n later (xs ++ x ∷ ys)
          (unfold read_place in refl) h.chain (earlier_differ before n later h.distinct)
          (omega (arith, h.values_sized, h.room, length-append before (n ∷ later))) in
      let (rest, read, c) =
        read_place_after l' none l'.first before later xs ys (unfold read_place in refl) h'.chain
          sized in
      let pointer = Chain-pointer l'.links l'.values rest later ys c in
      (l', rw (found, unlinked, read, pointer) refl, h')
