-- ===== src/Linked.antt =====
-- DroneDevice/Include/DroneDevice/List.hpp: a linked list over an array of nodes. A pointer to a node is
-- its index, and none the null pointer; `none` outside is a failed assertion or an access outside of an
-- array.
pub mod Chain
pub mod Push
pub mod Find
pub mod Erase
mod Tests
use i2c.Prelude.{
  ℕ, zero, suc, ◌+◌, ◌-◌, ◌≤◌, ◌≡◌, Bool, true, false, ◌&&◌, Option, none, some, List, [], ◌∷◌,
  length, get_elem?, set, ltb, ◌==◌, if◌then◌else◌, ◌>>=◌,
}

-- `first`, the fields `next` and `data` of the nodes in `arena`, `pool` and `available`
pub record LinkedList {ℓ} (A : Type ℓ) : Type ℓ where
  pub first : Option ℕ
  pub links : List (Option ℕ)
  pub values : List A
  pub pool : List ℕ
  pub available : ℕ

abbrev is_null : Option ℕ → Bool
is_null none = true
is_null (some node) = false

-- The loop of `pushBack` to the last node; `none` if the rounds do not suffice.
unfoldable pub last_from : ℕ → List (Option ℕ) → ℕ → Option ℕ
last_from zero links place = none
last_from (suc rounds) links place = get_elem? links place >>= λ next. elim next [
  | none ↦ some place
  | some following ↦ last_from rounds links following
]

-- The pool as the loop of `clear` leaves it, from place `i` on.
abbrev pub indices : ℕ → ℕ → List ℕ
indices i zero = []
indices i (suc n) = i ∷ indices (i + 1) n

module _ {ℓ} {A : Type ℓ} where
  unfoldable pub clear : LinkedList A → LinkedList A
  clear l = record l {
    first = none;
    available = length l.values;
    pool = indices 0 (length l.values);
  }

  unfoldable pub is_empty : LinkedList A → Bool
  is_empty l = is_null l.first

  unfoldable pub is_full : LinkedList A → Bool
  is_full l = l.available == 0

  unfoldable pub size : LinkedList A → ℕ
  size l = length l.values - l.available

  unfoldable pub allocate : LinkedList A → Option (ℕ × LinkedList A)
  allocate l =
      if ltb 0 l.available
      then (get_elem? l.pool (l.available - 1) >>= λ node.
          some (node, record l { available = l.available - 1 }))
      else none

  unfoldable pub release : ℕ → LinkedList A → Option (LinkedList A)
  release node l =
      if ltb l.available (length l.values)
      then some (record l { pool = set l.pool l.available node; available = l.available + 1 })
      else none

  -- The new node behind the last one, or as the first one.
  unfoldable pub append_node : ℕ → LinkedList A → Option (LinkedList A)
  append_node node l = elim l.first [
    | none ↦ some (record l { first = some node })
    | some first ↦ last_from (length l.values) l.links first >>= λ last.
        some (record l { links = set l.links last (some node) })
  ]

  unfoldable pub push_back : A → LinkedList A → Option (LinkedList A)
  push_back value l = allocate l >>= λ r.
      append_node r.0
        (record r.1 { values = set r.1.values r.0 value; links = set r.1.links r.0 none })

  -- The values that `forEach` visits; `none` if the rounds do not suffice.
  unfoldable pub visited : ℕ → LinkedList A → Option ℕ → Option (List A)
  visited zero l place = none
  visited (suc rounds) l none = some []
  visited (suc rounds) l (some place) = get_elem? l.values place >>= λ value.
      get_elem? l.links place >>= λ next. visited rounds l next >>= λ later. some (value ∷ later)

  unfoldable pub for_each : LinkedList A → Option (List A)
  for_each l = visited (length l.values + 1) l l.first

  -- `findIf`: the node, or none for the null pointer; `none` outside if the rounds do not suffice.
  unfoldable pub find_from : (A → Bool) → ℕ → LinkedList A → Option ℕ → Option (Option ℕ)
  find_from predicate zero l place = none
  find_from predicate (suc rounds) l none = some none
  find_from predicate (suc rounds) l (some place) = get_elem? l.values place >>= λ value.
      get_elem? l.links place >>= λ next.
      let later = find_from predicate rounds l next in
      if predicate value then some (some place) else later

  unfoldable pub find_if : (A → Bool) → LinkedList A → Option (Option ℕ)
  find_if predicate l = find_from predicate (length l.values + 1) l l.first

  -- A pointer to a pointer: none is the address of `first`, and a node that of its field `next`.
  unfoldable pub read_place : LinkedList A → Option ℕ → Option (Option ℕ)
  read_place l none = some l.first
  read_place l (some node) = get_elem? l.links node

  unfoldable pub write_place : LinkedList A → Option ℕ → Option ℕ → LinkedList A
  write_place l none value = record l { first = value }
  write_place l (some node) value = record l { links = set l.links node value }

  -- The loop of `erase` from a place on: the place of the first node that it stops at, or the end.
  unfoldable pub seek : (ℕ → Option Bool) → ℕ → LinkedList A → Option ℕ → Option (Option ℕ)
  seek stop zero l place = none
  seek stop (suc rounds) l place = read_place l place >>= λ pointer. elim pointer [
    | none ↦ some place
    | some node ↦ stop node >>= λ found. elim found [
      | true ↦ some place
      | false ↦ seek stop rounds l (some node)
    ]
  ]

  -- The node that a place points to leaves the list, for the pool.
  unfoldable pub unlink : LinkedList A → Option ℕ → Option (LinkedList A)
  unlink l place = read_place l place >>= λ pointer. elim pointer [
    | none ↦ some l
    | some target ↦ get_elem? l.links target >>= λ next. release target (write_place l place next)
  ]

  -- `erase` of a node: what the place points to in the end, and the list.
  unfoldable pub erase_node : ℕ → LinkedList A → Option (Option ℕ × LinkedList A)
  erase_node target l = do
    place ← seek (λ node. some (node == target)) (length l.values + 1) l none
    l' ← unlink l place
    rest ← read_place l' place
    some (rest, l')

  -- `erase` of a value, `same` being the test `==` of its type.
  unfoldable pub erase : (A → A → Bool) → A → LinkedList A → Option (LinkedList A)
  erase same value l = do
    place ←
        seek (λ node. get_elem? l.values node >>= λ x. some (same x value)) (length l.values + 1) l
          none
    unlink l place

  -- The loop of `eraseIf` from a place on.
  unfoldable pub erase_if_from : (A → Bool) → ℕ → LinkedList A → Option ℕ → Option (LinkedList A)
  erase_if_from predicate zero l place = none
  erase_if_from predicate (suc rounds) l place = read_place l place >>= λ pointer. elim pointer [
    | none ↦ some l
    | some node ↦ get_elem? l.values node >>= λ x. elim (predicate x) [
      | true ↦ unlink l place >>= λ l'. erase_if_from predicate rounds l' place
      | false ↦ erase_if_from predicate rounds l (some node)
    ]
  ]

  unfoldable pub erase_if : (A → Bool) → LinkedList A → Option (LinkedList A)
  erase_if predicate l = erase_if_from predicate (length l.values + 1) l none
