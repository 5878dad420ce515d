-- ===== src/Linked/Tests.antt =====
-- A list of two values in three nodes.
use i2c.Prelude.{ℕ, zero, suc, ◌<◌, ◌≡◌, refl, none, some, List, [], ◌∷◌, arith, ◌==◌, get_elem?}
use i2c.Linked.{
  LinkedList, push_back, erase, erase_if, erase_node, seek, unlink, read_place, write_place,
  release,
}
use i2c.Linked.Erase.Values.{erase-IsList, remove_first, erase_if-IsList, remove_if}
use i2c.Linked.Chain.{IsList, Absent}
use i2c.Linked.Push.{push_back-IsList}

abbrev two : LinkedList ℕ
two = record {
  first = some 1;
  links = none ∷ some 0 ∷ none ∷ [];
  values = 8 ∷ 7 ∷ 0 ∷ [];
  pool = 2 ∷ 0 ∷ 1 ∷ [];
  available = 1;
}

two-apart :
    (k node : ℕ)
    → k < 1
    → get_elem? (2 ∷ 0 ∷ 1 ∷ []) k ≡ some node
    → (node < 3) × Absent node (1 ∷ 0 ∷ [])
two-apart zero node small found =
    let same : 2 ≡ node = cc in
    (
      omega (arith, same),
      (λ e. absurd (omega (arith, same, e)), (λ e. absurd (omega (arith, same, e)), tt)),
    )
two-apart (suc k) node small found = absurd (omega (arith, small))

two-IsList : IsList 3 two (1 ∷ 0 ∷ []) (7 ∷ 8 ∷ [])
two-IsList = record {
  links_sized = refl;
  values_sized = refl;
  pool_sized = refl;
  chain = (some 0, refl, refl, refl, (none, refl, refl, refl, tt));
  distinct = ((λ e. absurd (omega (arith, e)), tt), (tt, tt));
  room = refl;
  apart = two-apart;
  once = λ j k node small small' found found'. omega (arith, small, small');
}

push_back-IsList_example :
    (l' : LinkedList ℕ) × (node : ℕ) × (push_back 9 two ≡ some l')
    × IsList 3 l' (1 ∷ 0 ∷ node ∷ []) (7 ∷ 8 ∷ 9 ∷ [])
push_back-IsList_example =
    push_back-IsList 3 two (1 ∷ 0 ∷ []) (7 ∷ 8 ∷ []) 9 two-IsList (omega arith)

erase-IsList_example :
    (l' : LinkedList ℕ) × (nodes' : List ℕ) × (erase ◌==◌ 8 two ≡ some l')
    × IsList 3 l' nodes' (remove_first (λ x. x == 8) (7 ∷ 8 ∷ []))
erase-IsList_example = erase-IsList ◌==◌ 8 3 two (1 ∷ 0 ∷ []) (7 ∷ 8 ∷ []) two-IsList

erase_if-IsList_example :
    (l' : LinkedList ℕ) × (nodes' : List ℕ) × (erase_if (λ x. x == 7) two ≡ some l')
    × IsList 3 l' nodes' (remove_if (λ x. x == 7) (7 ∷ 8 ∷ []))
erase_if-IsList_example = erase_if-IsList (λ x. x == 7) 3 two (1 ∷ 0 ∷ []) (7 ∷ 8 ∷ []) two-IsList

-- The second node leaves the list, and nothing is behind it.
erase_node_run :
    erase_node 0 two
    ≡ some
        (none, record two { links = none ∷ none ∷ none ∷ []; pool = 2 ∷ 0 ∷ 1 ∷ []; available = 2 })
unfolding erase_node seek unlink read_place write_place release
erase_node_run = refl
