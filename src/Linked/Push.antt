-- ===== src/Linked/Push.antt =====
-- A value behind the last one.
use i2c.Prelude.{
  ℕ, zero, suc, ◌-◌, ◌≤◌, ◌<◌, ◌≡◌, ◌≢◌, refl, sym, ap, ◌∙◌, true, Option, none, some, List, [],
  ◌∷◌, ◌++◌, arith, length, length-append, length-set, get_elem?, set, get_elem?-set_self,
  get_elem?-set_ne, lt_of_get_elem?, get_elem?-lt, ltb,
}
use i2c.Linked.{LinkedList, allocate, last_from, append_node, push_back}
use i2c.Linked.Chain.{Absent, Distinct, Chain, Chain-set, IsList, Absent-append, Distinct-append}

module _ {A : Type 0} where
  -- The last node of a chain is found, and a node behind it makes the chain longer.
  extend :
      (rounds : ℕ) (links : List (Option ℕ)) (values : List A) (first : ℕ) (nodes : List ℕ)
      (xs : List A) (node : ℕ) (v : A)
      → Chain links values (some first) nodes xs
      → Distinct nodes
      → Absent node nodes
      → get_elem? links node ≡ some none
      → get_elem? values node ≡ some v
      → length nodes ≤ rounds
      → (last : ℕ) × (last_from rounds links first ≡ some last)
        × ((i : ℕ) → Absent i nodes → i ≢ last)
        × Chain (set links last (some node)) values (some first) (nodes ++ node ∷ []) (xs ++ v ∷ [])
  unfolding last_from
  extend rounds links values first [] xs node v c apart away open_end held enough = absurd c
  extend rounds links values first (m ∷ nodes) [] node v c apart away open_end held enough =
      absurd c
  extend zero links values first (m ∷ nodes) (x ∷ xs) node v c apart away open_end held enough =
      absurd (omega (arith, enough))
  extend (suc rounds) links values first (m ∷ []) (x ∷ []) node v (none, same, at, linked, rest)
        apart away open_end held enough =
      (
        first,
        rw (ap (get_elem? links) same ∙ linked) refl,
        λ i absent e. absent.0 (e ∙ same),
        (
          some node,
          same,
          at,
          ap (λ k. get_elem? (set links k (some node)) m) same
              ∙ get_elem?-set_self links m (some node) (lt_of_get_elem? links m none linked),
          (
            none,
            refl,
            held,
            get_elem?-set_ne links first node (some node) (λ e. away.0 (sym e ∙ same)) ∙ open_end,
            tt,
          ),
        ),
      )
  extend (suc rounds) links values first (m ∷ nodes) (x ∷ xs) node v
        (some n, same, at, linked, rest) apart away open_end held enough =
      let (last, ran, within, longer) =
        extend rounds links values n nodes xs node v rest apart.1 away.1 open_end held
          (omega (arith, enough)) in
      (
        last,
        rw (ap (get_elem? links) same ∙ linked) ran,
        λ i absent. within i absent.1,
        (
          some n,
          same,
          at,
          get_elem?-set_ne links last m (some node) (λ e. within m apart.0 (sym e)) ∙ linked,
          longer,
        ),
      )
  extend (suc rounds) links values first (m ∷ []) (x ∷ y ∷ xs) node v (none, same, at, linked, rest)
        apart away open_end held enough =
      absurd rest
  extend (suc rounds) links values first (m ∷ k ∷ nodes) (x ∷ xs) node v
        (none, same, at, linked, rest) apart away open_end held enough =
      absurd rest

  -- The node that is taken out of the pool, with its new value.
  taken_lem :
      (capacity : ℕ) (l : LinkedList A) (nodes : List ℕ) (xs : List A)
      → IsList capacity l nodes xs
      → length nodes < capacity
      → (node : ℕ) × (get_elem? l.pool (l.available - 1) ≡ some node)
        × (node < capacity)
        × Absent node nodes
  taken_lem capacity l nodes xs h more =
      let (node, at) =
        get_elem?-lt l.pool (l.available - 1) (omega (arith, h.pool_sized, h.room, more)) in
      let (inside, away) = h.apart (l.available - 1) node (omega (arith, h.room, more)) at in
      (node, at, inside, away)

  -- A node behind the chain of a list.
  append_node_lem :
      (links : List (Option ℕ)) (values : List A) (pool : List ℕ) (available : ℕ) (from : Option ℕ)
      (nodes : List ℕ) (xs : List A) (node : ℕ) (v : A)
      → Chain links values from nodes xs
      → Distinct nodes
      → Absent node nodes
      → get_elem? links node ≡ some none
      → get_elem? values node ≡ some v
      → length nodes ≤ length values
      → (l' : LinkedList A) × (append_node node (record {
        first = from;
        links = links;
        values = values;
        pool = pool;
        available = available;
      })
          ≡ some l')
        × (length l'.links ≡ length links)
        × (l'.values ≡ values)
        × (l'.pool ≡ pool)
        × (l'.available ≡ available)
        × Chain l'.links l'.values l'.first (nodes ++ node ∷ []) (xs ++ v ∷ [])
  unfolding append_node
  append_node_lem links values pool available none [] [] node v c apart away open_end held enough =
      (_, refl, refl, refl, refl, refl, (none, refl, held, open_end, tt))
  append_node_lem links values pool available none [] (x ∷ xs) node v c apart away open_end held
        enough =
      absurd c
  append_node_lem links values pool available none (m ∷ nodes) xs node v c apart away open_end held
        enough =
      absurd c
  append_node_lem links values pool available (some first) nodes xs node v c apart away open_end
        held enough =
      let (last, ran, within, longer) =
        extend (length values) links values first nodes xs node v c apart away open_end held
          enough in
      let l' : LinkedList A = record {
        first = some first;
        links = set links last (some node);
        values = values;
        pool = pool;
        available = available;
      } in
      (l', rw ran refl, length-set links last (some node), refl, refl, refl, longer)

  -- With a node to be had, `pushBack` succeeds, and the value stands behind the others.
  pub push_back-IsList :
      (capacity : ℕ) (l : LinkedList A) (nodes : List ℕ) (xs : List A) (v : A)
      → IsList capacity l nodes xs
      → length nodes < capacity
      → (l' : LinkedList A) × (node : ℕ) × (push_back v l ≡ some l')
        × IsList capacity l' (nodes ++ node ∷ []) (xs ++ v ∷ [])
  unfolding push_back allocate
  push_back-IsList capacity l nodes xs v h more =
      let (node, at, inside, away) = taken_lem capacity l nodes xs h more in
      let links = set l.links node none in
      let values = set l.values node v in
      let (l', ran, links_same, values_same, pool_same, available_same, chain) =
        append_node_lem links values l.pool (l.available - 1) l.first nodes xs node v
          (Chain-set l.links l.values l.first nodes xs node none v away h.chain) h.distinct away
          (get_elem?-set_self l.links node none (omega (arith, inside, h.links_sized)))
          (get_elem?-set_self l.values node v (omega (arith, inside, h.values_sized)))
          (omega (arith, length-set l.values node v, h.values_sized, h.room)) in
      let left : ltb 0 l.available ≡ true = ground (arith, h.room) in
      let taken : (k : ℕ) → k < l.available - 1 → get_elem? l.pool k ≢ some node = λ k small found.
        let end : k ≡ l.available - 1 =
          h.once k (l.available - 1) node (omega (arith, small)) (omega (arith, small)) found at in
        absurd (omega (arith, small, end)) in
      (
        l',
        node,
        rw (left, at) ran,
        record {
          links_sized = links_same ∙ length-set l.links node none ∙ h.links_sized;
          values_sized = ap length values_same ∙ length-set l.values node v ∙ h.values_sized;
          pool_sized = ap length pool_same ∙ h.pool_sized;
          chain = chain;
          distinct = Distinct-append nodes node h.distinct away;
          room = omega (arith, available_same, h.room, more, length-append nodes (node ∷ []));
          apart = λ k other small found.
              let found' = ap (λ p. get_elem? p k) (sym pool_same) ∙ found in
              let small' : k < l.available - 1 = omega (arith, small, available_same) in
              let (inside', away') = h.apart k other (omega (arith, small')) found' in
              (
                inside',
                Absent-append other nodes node away' (λ e. taken k small' (found' ∙ ap some e)),
              );
          once = λ j k other small small' found found'.
              h.once j k other (omega (arith, small, available_same))
                (omega (arith, small', available_same))
                (ap (λ p. get_elem? p j) (sym pool_same) ∙ found)
                (ap (λ p. get_elem? p k) (sym pool_same) ∙ found');
        },
      )
