-- ===== src/Queue.antt =====
-- DroneDevice/Include/DroneDevice/Queue.hpp: a fixed-capacity FIFO on an array with a head index, a
-- tail index and a count. A failed `assert` and a read out of range are `none`.
pub mod Refine
pub mod Calls
mod Tests
use i2c.Prelude.{
  ℕ, zero, suc, ◌-◌, Bool, Option, none, some, List, [], ◌∷◌, ◌==◌, ltb, if◌then◌else◌, get_elem?,
  set, add_size, ◌>>=◌,
}

-- `data`, `elements`, `head` and `tail`
pub record Queue {ℓ} (A : Type ℓ) : Type ℓ where
  pub storage : List A
  pub elements : ℕ
  pub head : ℕ
  pub tail : ℕ

-- An index after `index++` and the test for the end of the array.
unfoldable pub advance : ℕ → ℕ → ℕ
advance capacity i = let j = add_size i 1 in if j == capacity then 0 else j

module _ {ℓ} {A : Type ℓ} where
  -- A queue as the constructor leaves it, over an array with whatever it holds.
  unfoldable pub fresh : List A → Queue A
  fresh storage = record { storage = storage; elements = 0; head = 0; tail = 0 }

  unfoldable pub clear : Queue A → Queue A
  clear q = record q { elements = 0; head = 0; tail = 0 }

  unfoldable pub is_empty : Queue A → Bool
  is_empty q = q.elements == 0

  unfoldable pub full : ℕ → Queue A → Bool
  full capacity q = q.elements == capacity

  unfoldable pub size : Queue A → ℕ
  size q = q.elements

  unfoldable pub front : Queue A → Option A
  front q = if q.elements == 0 then none else get_elem? q.storage q.head

  unfoldable pub push : ℕ → A → Queue A → Option (Queue A)
  unfolding advance
  push capacity value q =
      if ltb q.elements capacity
      then some (record q {
        storage = set q.storage q.tail value;
        tail = advance capacity q.tail;
        elements = add_size q.elements 1;
      })
      else none

  unfoldable pub pop : ℕ → Queue A → Option (A × Queue A)
  unfolding advance
  pop capacity q = if q.elements == 0 then none else do
    value ← get_elem? q.storage q.head
    some (value, record q { head = advance capacity q.head; elements = q.elements - 1 })

  -- `push(aBuffer, aLength)`: the number of values taken, and the queue.
  unfoldable pub push_all : ℕ → List A → ℕ → Queue A → Option (ℕ × Queue A)
  push_all capacity [] num q = some (num, q)
  push_all capacity (x ∷ xs) num q =
      let taken = push capacity x q >>= (λ q'. push_all capacity xs (add_size num 1) q') in
      if ltb q.elements capacity then taken else some (num, q)

  -- `pop(aBuffer, aLength)` with `left` places left in the buffer: the values written, and the queue.
  unfoldable pub pop_all : ℕ → ℕ → Queue A → Option (List A × Queue A)
  pop_all capacity zero q = some ([], q)
  pop_all capacity (suc left) q =
      let taken = (do
        (value, q') ← pop capacity q
        (values, q'') ← pop_all capacity left q'
        some (value ∷ values, q'')) in
      if ltb 0 q.elements then taken else some ([], q)
