-- ===== src/Linked/Chain.antt =====
-- The list that an array of nodes represents.
use i2c.Prelude.{
  ℕ, ◌+◌, ◌<◌, ◌≡◌, ◌≢◌, sym, ◌∙◌, Option, none, some, List, [], ◌∷◌, ◌++◌, length, get_elem?, set,
  get_elem?-set_ne,
}
use i2c.Linked.{LinkedList}

-- The place is none of the nodes.
abbrev pub Absent : ℕ → List ℕ → Type 0
Absent i [] = Unit
Absent i (n ∷ nodes) = (i ≢ n) × Absent i nodes

abbrev pub Distinct : List ℕ → Type 0
Distinct [] = Unit
Distinct (n ∷ nodes) = Absent n nodes × Distinct nodes

-- From the pointer on, the nodes follow each other and hold the values.
abbrev pub Chain : {A : Type 0} → List (Option ℕ) → List A → Option ℕ → List ℕ → List A → Type 0
Chain links values none [] [] = Unit
Chain links values (some i) (n ∷ nodes) (x ∷ xs) =
    (next : Option ℕ) × (i ≡ n)
    × (get_elem? values n ≡ some x)
    × (get_elem? links n ≡ some next)
    × Chain links values next nodes xs
Chain links values _ _ _ = ⊥

module _ {A : Type 0} where
  -- A node that is not in the chain may change.
  pub Chain-set :
      (links : List (Option ℕ)) (values : List A) (from : Option ℕ) (nodes : List ℕ) (xs : List A)
      (i : ℕ) (link : Option ℕ) (v : A)
      → Absent i nodes
      → Chain links values from nodes xs
      → Chain (set links i link) (set values i v) from nodes xs
  Chain-set links values none [] [] i link v away c = tt
  Chain-set links values (some n) (m ∷ nodes) (x ∷ xs) i link v away
        (next, same, at, linked, rest) =
      (
        next,
        same,
        get_elem?-set_ne values i m v away.0 ∙ at,
        get_elem?-set_ne links i m link away.0 ∙ linked,
        Chain-set links values next nodes xs i link v away.1 rest,
      )
  Chain-set links values none [] (x ∷ xs) i link v away c = absurd c
  Chain-set links values none (m ∷ nodes) xs i link v away c = absurd c
  Chain-set links values (some n) [] xs i link v away c = absurd c
  Chain-set links values (some n) (m ∷ nodes) [] i link v away c = absurd c

-- The list `l` over `capacity` nodes represents the values `xs`: `nodes` follow each other from the first
-- one and hold them, and the other nodes are the available ones of the pool, each once.
pub record IsList {A : Type 0} (capacity : ℕ) (l : LinkedList A) (nodes : List ℕ) (xs : List A)
    : Type 0 where
  pub links_sized : length l.links ≡ capacity
  pub values_sized : length l.values ≡ capacity
  pub pool_sized : length l.pool ≡ capacity
  pub chain : Chain l.links l.values l.first nodes xs
  pub distinct : Distinct nodes
  pub room : l.available + length nodes ≡ capacity
  pub apart :
      (k node : ℕ)
      → k < l.available
      → get_elem? l.pool k ≡ some node
      → (node < capacity) × Absent node nodes
  pub once :
      (j k node : ℕ)
      → j < l.available
      → k < l.available
      → get_elem? l.pool j ≡ some node
      → get_elem? l.pool k ≡ some node
      → j ≡ k

pub Absent-append :
    (i : ℕ) (nodes : List ℕ) (node : ℕ) → Absent i nodes → i ≢ node → Absent i (nodes ++ node ∷ [])
Absent-append i [] node away other = (other, tt)
Absent-append i (m ∷ nodes) node away other = (away.0, Absent-append i nodes node away.1 other)

pub Distinct-append :
    (nodes : List ℕ) (node : ℕ) → Distinct nodes → Absent node nodes → Distinct (nodes ++ node ∷ [])
Distinct-append [] node apart away = (tt, tt)
Distinct-append (m ∷ nodes) node apart away = (
  Absent-append m nodes node apart.0 (λ e. away.0 (sym e)),
  Distinct-append nodes node apart.1 away.1,
)
