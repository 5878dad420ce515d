-- ===== src/Linked/Erase/Unlink.antt =====
-- The node behind a prefix of the chain leaves the list.
use i2c.Prelude.{
  ℕ, ◌+◌, ◌<◌, ◌≡◌, ◌≢◌, refl, sym, ap, subst, ◌∙◌, Option, none, some, List, [], ◌∷◌, ◌++◌, arith,
  length, length-append, length-set, get_elem?, set, get_elem?-set_self, get_elem?-set_ne,
  lt_of_get_elem?, inl, inr, ◌⊎◌, ltb, true, ==_iff, ◌==◌, Bool-cases,
}
use i2c.Linked.{LinkedList, read_place, write_place, release, unlink}
use i2c.Linked.Chain.{Absent, Distinct, Chain, IsList}

-- The place behind some nodes.
abbrev pub place_after : Option ℕ → List ℕ → Option ℕ
place_after place [] = place
place_after place (n ∷ nodes) = place_after (some n) nodes

pub place_after-append :
    (place : Option ℕ) (nodes : List ℕ) (n : ℕ) → place_after place (nodes ++ n ∷ []) ≡ some n
place_after-append place [] n = refl
place_after-append place (m ∷ nodes) n = place_after-append (some m) nodes n

-- The place is not in one of the nodes.
abbrev Outside : Option ℕ → List ℕ → Type 0
Outside none nodes = Unit
Outside (some i) nodes = Absent i nodes

Absent-drop :
    (i n : ℕ) (before later : List ℕ)
    → Absent i (before ++ n ∷ later)
    → (i ≢ n) × Absent i (before ++ later)
Absent-drop i n [] later away = away
Absent-drop i n (m ∷ before) later away =
    let (apart, rest) = Absent-drop i n before later away.1 in (apart, (away.0, rest))

Distinct-drop :
    (n : ℕ) (before later : List ℕ)
    → Distinct (before ++ n ∷ later)
    → Distinct (before ++ later) × Absent n (before ++ later)
Distinct-drop n [] later apart = (apart.1, apart.0)
Distinct-drop n (m ∷ before) later apart =
    let (rest, away) = Distinct-drop n before later apart.1 in
    let (other, first) = Absent-drop m n before later apart.0 in
    ((first, rest), (λ e. other (sym e), away))

-- A place outside of the nodes is not the one behind them.
place_after_ne :
    (start : Option ℕ) (n : ℕ) (before nodes : List ℕ)
    → Outside start (n ∷ before ++ nodes)
    → place_after (some n) before ≢ start
place_after_ne none n [] nodes away e = cc
place_after_ne (some i) n [] nodes away e = let same : n ≡ i = cc in away.0 (sym same)
place_after_ne none n (m ∷ before) nodes away e = place_after_ne none m before nodes tt e
place_after_ne (some i) n (m ∷ before) nodes away e =
    place_after_ne (some i) m before nodes away.1 e

Outside-tail :
    (start : Option ℕ) (n : ℕ) (nodes : List ℕ) → Outside start (n ∷ nodes) → Outside start nodes
Outside-tail none n nodes away = tt
Outside-tail (some i) n nodes away = away.1

module _ {A : Type 0} where
  -- Every place is readable behind the nodes before it, and the rest of the chain starts there.
  pub read_place_after :
      (l : LinkedList A) (place from : Option ℕ) (before later : List ℕ) (xs ys : List A)
      → read_place l place ≡ some from
      → Chain l.links l.values from (before ++ later) (xs ++ ys)
      → length before ≡ length xs
      → (rest : Option ℕ) × (read_place l (place_after place before) ≡ some rest)
        × Chain l.links l.values rest later ys
  unfolding read_place
  read_place_after l place from [] later [] ys read c sized = (from, read, c)
  read_place_after l place from [] later (x ∷ xs) ys read c sized = absurd (omega (arith, sized))
  read_place_after l place from (n ∷ before) later [] ys read c sized =
      absurd (omega (arith, sized))
  read_place_after l place none (n ∷ before) later (x ∷ xs) ys read c sized = absurd c
  read_place_after l place (some i) (n ∷ before) later (x ∷ xs) ys read (next, same, at, linked, c)
        sized =
      read_place_after l (some n) next before later xs ys linked c (omega (arith, sized))

  -- A write to a place changes no other, and no value.
  read_write_ne :
      (l : LinkedList A) (place other value : Option ℕ)
      → place ≢ other
      → read_place (write_place l place value) other ≡ read_place l other
  unfolding read_place write_place
  read_write_ne l none none value apart = absurd (apart refl)
  read_write_ne l none (some j) value apart = refl
  read_write_ne l (some i) none value apart = refl
  read_write_ne l (some i) (some j) value apart =
      get_elem?-set_ne l.links i j value (λ e. apart (ap some e))

  read_write_self :
      (l : LinkedList A) (place from value : Option ℕ)
      → read_place l place ≡ some from
      → read_place (write_place l place value) place ≡ some value
  unfolding read_place write_place
  read_write_self l none from value read = refl
  read_write_self l (some i) from value read =
      get_elem?-set_self l.links i value (lt_of_get_elem? l.links i from read)

  write_place_keeps :
      (l : LinkedList A) (place value : Option ℕ)
      → (length (write_place l place value).links ≡ length l.links)
        × ((write_place l place value).values ≡ l.values)
        × ((write_place l place value).pool ≡ l.pool)
        × ((write_place l place value).available ≡ l.available)
  unfolding write_place
  write_place_keeps l none value = (refl, refl, refl, refl)
  write_place_keeps l (some i) value = (length-set l.links i value, refl, refl, refl)

  -- A chain stays as it is when a place outside of it is written.
  Chain-write :
      (l : LinkedList A) (place value from : Option ℕ) (nodes : List ℕ) (xs : List A)
      → Outside place nodes
      → Chain l.links l.values from nodes xs
      → Chain (write_place l place value).links (write_place l place value).values from nodes xs
  unfolding write_place
  Chain-write l none value from nodes xs away c = c
  Chain-write l (some i) value none [] [] away c = tt
  Chain-write l (some i) value none [] (x ∷ xs) away c = absurd c
  Chain-write l (some i) value none (n ∷ nodes) xs away c = absurd c
  Chain-write l (some i) value (some j) [] xs away c = absurd c
  Chain-write l (some i) value (some j) (n ∷ nodes) [] away c = absurd c
  Chain-write l (some i) value (some j) (n ∷ nodes) (x ∷ xs) away (next, same, at, linked, c) = (
    next,
    same,
    at,
    get_elem?-set_ne l.links i n value away.0 ∙ linked,
    Chain-write l (some i) value next nodes xs away.1 c,
  )

  -- What unlinking comes to: the place points to the node, and after the write the chain goes on behind
  -- it.
  abbrev Unlinks : LinkedList A → Option ℕ → Option ℕ → ℕ → List ℕ → List A → Type 0
  Unlinks l place start n nodes xs =
      (next : Option ℕ) × (read_place l place ≡ some (some n))
      × (get_elem? l.links n ≡ some next)
      × (from : Option ℕ) × (read_place (write_place l place next) start ≡ some from)
      × Chain (write_place l place next).links (write_place l place next).values from nodes xs

  unlinks :
      (l : LinkedList A) (start from : Option ℕ) (before : List ℕ) (n : ℕ) (later : List ℕ)
      (xs : List A) (x : A) (ys : List A)
      → read_place l start ≡ some from
      → Chain l.links l.values from (before ++ n ∷ later) (xs ++ x ∷ ys)
      → Distinct (before ++ n ∷ later)
      → Outside start (before ++ n ∷ later)
      → length before ≡ length xs
      → Unlinks l (place_after start before) start n (before ++ later) (xs ++ ys)
  unfolding read_place
  unlinks l start from [] n later (x' ∷ xs) x ys read c apart away sized =
      absurd (omega (arith, sized))
  unlinks l start from (m ∷ before) n later [] x ys read c apart away sized =
      absurd (omega (arith, sized))
  unlinks l start none [] n later [] x ys read c apart away sized = absurd c
  unlinks l start none (m ∷ before) n later (y ∷ xs) x ys read c apart away sized = absurd c
  unlinks l start (some i) [] n later [] x ys read (next, same, at, linked, c) apart away sized = (
    next,
    read ∙ ap (λ j. some (some j)) same,
    linked,
    next,
    read_write_self l start (some i) next read,
    Chain-write l start next next later ys (Outside-tail start n later away) c,
  )
  unlinks l start (some i) (m ∷ before) n later (y ∷ xs) x ys read (next, same, at, linked, c) apart
        away sized =
      let place = place_after (some m) before in
      let (after, points, on, from, read', c') =
        unlinks l (some m) next before n later xs x ys linked c apart.1 apart.0
          (omega (arith, sized)) in
      let (_, values_same, _, _) = write_place_keeps l place after in
      (
        after,
        points,
        on,
        some i,
        read_write_ne l place start after (place_after_ne start m before (n ∷ later) away) ∙ read,
        (from, same, ap (λ v. get_elem? v m) values_same ∙ at, read', c'),
      )

  -- The release of a node that is neither in the list nor in the pool.
  release-IsList :
      (capacity : ℕ) (w : LinkedList A) (n : ℕ) (nodes : List ℕ) (xs : List A)
      → length w.links ≡ capacity
      → length w.values ≡ capacity
      → length w.pool ≡ capacity
      → Chain w.links w.values w.first nodes xs
      → Distinct nodes
      → Absent n nodes
      → n < capacity
      → w.available + length nodes + 1 ≡ capacity
      → ((k node : ℕ)
          → k < w.available
          → get_elem? w.pool k ≡ some node
          → (node < capacity) × Absent node nodes × (node ≢ n))
      → ((j k node : ℕ)
          → j < w.available
          → k < w.available
          → get_elem? w.pool j ≡ some node
          → get_elem? w.pool k ≡ some node
          → j ≡ k)
      → (l' : LinkedList A) × (release n w ≡ some l') × IsList capacity l' nodes xs
  unfolding release
  release-IsList capacity w n nodes xs links_sized values_sized pool_sized chain distinct away
        inside room apart once =
      (
        record w { pool = set w.pool w.available n; available = w.available + 1 },
        rw space refl,
        record {
          links_sized = links_sized;
          values_sized = values_sized;
          pool_sized = length-set w.pool w.available n ∙ pool_sized;
          chain = chain;
          distinct = distinct;
          room = omega (arith, room);
          apart = λ k node small found. elim (new k node small found) [
            | inl (_, same) ↦ rw same (inside, away)
            | inr (small', found') ↦
                let (below, other, _) = apart k node small' found' in (below, other)
          ];
          once = λ j k node small small' found found'. elim (new j node small found) [
            | inl (at, same) ↦ elim (new k node small' found') [
              | inl (at', _) ↦ at ∙ sym at'
              | inr (old, found_old) ↦ absurd ((apart k node old found_old).2 same)
            ]
            | inr (old, found_old) ↦ elim (new k node small' found') [
              | inl (_, same) ↦ absurd ((apart j node old found_old).2 same)
              | inr (old', found_old') ↦ once j k node old old' found_old found_old'
            ]
          ];
        },
      )
    where
      space : ltb w.available (length w.values) ≡ true
      space = ground (arith, values_sized, room)

      new :
          (k node : ℕ)
          → k < w.available + 1
          → get_elem? (set w.pool w.available n) k ≡ some node
          → ((k ≡ w.available) × (node ≡ n))
            ⊎ ((k < w.available) × (get_elem? w.pool k ≡ some node))
      new k node small found = elim (Bool-cases (k == w.available)) [
        | inl same ↦
            let at : k ≡ w.available = (==_iff k w.available).0 same in
            let stored =
              ap (get_elem? (set w.pool w.available n)) at
              ∙ get_elem?-set_self w.pool w.available n (omega (arith, pool_sized, room)) in
            let equal : node ≡ n = cc in inl (at, equal)
        | inr other ↦ inr (
          ground (arith, other, small),
          sym (get_elem?-set_ne w.pool w.available k n (ground (arith, other))) ∙ found,
        )
      ]

  -- The node of a list behind some others is unlinked, and goes to the pool.
  pub unlink-IsList :
      (capacity : ℕ) (l : LinkedList A) (before : List ℕ) (n : ℕ) (later : List ℕ) (xs : List A)
      (x : A) (ys : List A)
      → IsList capacity l (before ++ n ∷ later) (xs ++ x ∷ ys)
      → length before ≡ length xs
      → (l' : LinkedList A) × (unlink l (place_after none before) ≡ some l')
        × IsList capacity l' (before ++ later) (xs ++ ys)
  unfolding unlink read_place
  unlink-IsList capacity l before n later xs x ys h sized =
      let place = place_after none before in
      let (next, points, on, from, read, chain) =
        unlinks l none l.first before n later xs x ys refl h.chain h.distinct tt sized in
      let (links_same, values_same, pool_same, available_same) = write_place_keeps l place next in
      let w = write_place l place next in
      let (rest, away) = Distinct-drop n before later h.distinct in
      let first : from ≡ w.first = cc in
      let (l', ran, list) =
        release-IsList capacity w n (before ++ later) (xs ++ ys) (links_same ∙ h.links_sized)
          (ap length values_same ∙ h.values_sized) (ap length pool_same ∙ h.pool_sized)
          (subst (λ f. Chain w.links w.values f (before ++ later) (xs ++ ys)) first chain) rest away
          (omega (arith, lt_of_get_elem? l.links n next on, h.links_sized))
          (omega (
            arith,
            available_same,
            h.room,
            length-append before (n ∷ later),
            length-append before later,
          ))
          (λ k node small found.
            let (inside, other) =
              h.apart k node (omega (arith, small, available_same))
                (ap (λ p. get_elem? p k) (sym pool_same) ∙ found) in
            let (different, absent) = Absent-drop node n before later other in
            (inside, absent, different))
          (λ j k node small small' found found'.
            h.once j k node (omega (arith, small, available_same))
              (omega (arith, small', available_same))
              (ap (λ p. get_elem? p j) (sym pool_same) ∙ found)
              (ap (λ p. get_elem? p k) (sym pool_same) ∙ found')) in
      (l', rw (points, on) ran, list)
