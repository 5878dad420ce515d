-- ===== src/Can/Proxy/Pending/Find.antt =====
-- The request that an answer belongs to.
use i2c.Prelude.{
  ℕ, zero, suc, ◌+◌, ◌<◌, ◌≡◌, ◌⊎◌, refl, ap, subst, ◌∙◌, true, false, Option, none, some, List, [],
  ◌∷◌, ◌++◌, arith, length, get_elem?, All, inl, inr, Bool-cases,
}
use i2c.Linked.Chain.{Chain}
use i2c.Can.Proxy.State.{Environment, ProxyRequestDescriptor, CanProxy}
use i2c.Can.Proxy.Receive.{answers, find_request_from, find_request_descriptor}
use i2c.Can.Proxy.Pending.{Filled, Holds, Pending}

-- The descriptor `d` with the index `i` waits between others.
abbrev pub At :
    Environment
    → CanProxy
    → List ProxyRequestDescriptor
    → ℕ
    → ProxyRequestDescriptor
    → List ProxyRequestDescriptor
    → Type 0
At e p before i d later =
    (unused : List ℕ) × (first : List ℕ) × (rest : List ℕ) × (nodes : List ℕ) × Holds e p unused
      (first ++ i ∷ rest) nodes (before ++ d ∷ later)
    × (length first ≡ length before)

-- What a search comes to.
abbrev pub Search : CanProxy → ℕ → ℕ → List ℕ → List ProxyRequestDescriptor → Option ℕ → Type 0
Search p type_id transfer_id waiting ds none = All (λ d. answers type_id transfer_id d ≡ false) ds
Search p type_id transfer_id waiting ds (some i) =
    (before : List ProxyRequestDescriptor) × (d : ProxyRequestDescriptor) × (later : List
      ProxyRequestDescriptor)
    × (first : List ℕ) × (rest : List ℕ) × (ds ≡ before ++ d ∷ later)
    × (waiting ≡ first ++ i ∷ rest)
    × (length first ≡ length before)
    × All (λ d. answers type_id transfer_id d ≡ false) before
    × (answers type_id transfer_id d ≡ true)
    × (get_elem? p.pool.pool i ≡ some d)

Search-later :
    (p : CanProxy) (type_id transfer_id i : ℕ) (waiting : List ℕ) (d : ProxyRequestDescriptor)
    (ds : List ProxyRequestDescriptor) (result : Option ℕ)
    → answers type_id transfer_id d ≡ false
    → Search p type_id transfer_id waiting ds result
    → Search p type_id transfer_id (i ∷ waiting) (d ∷ ds) result
Search-later p type_id transfer_id i waiting d ds none other s = (other, s)
Search-later p type_id transfer_id i waiting d ds (some j) other
      (before, d', later, first, rest, split, split', sized, none_before, belongs, at) =
    (
      d ∷ before,
      d',
      later,
      i ∷ first,
      rest,
      ap (λ xs. d ∷ xs) split,
      ap (λ xs. i ∷ xs) split',
      ap suc sized,
      (other, none_before),
      belongs,
      at,
    )

find_request_from_lem :
    (p : CanProxy) (type_id transfer_id rounds : ℕ) (from : Option ℕ) (nodes waiting : List ℕ)
    (ds : List ProxyRequestDescriptor)
    → Chain p.requests.links p.requests.values from nodes waiting
    → Filled p.pool.pool waiting ds
    → length nodes < rounds
    → (result : Option ℕ) × (find_request_from rounds type_id transfer_id p from ≡ some result)
      × Search p type_id transfer_id waiting ds result
unfolding find_request_from
find_request_from_lem p type_id transfer_id zero from nodes waiting ds c f enough =
    absurd (omega (arith, enough))
find_request_from_lem p type_id transfer_id (suc rounds) none [] [] [] c f enough = (none, refl, tt)
find_request_from_lem p type_id transfer_id (suc rounds) none [] [] (d ∷ ds) c f enough = absurd f
find_request_from_lem p type_id transfer_id (suc rounds) none [] (i ∷ waiting) ds c f enough =
    absurd c
find_request_from_lem p type_id transfer_id (suc rounds) none (n ∷ nodes) waiting ds c f enough =
    absurd c
find_request_from_lem p type_id transfer_id (suc rounds) (some m) [] waiting ds c f enough =
    absurd c
find_request_from_lem p type_id transfer_id (suc rounds) (some m) (n ∷ nodes) [] ds c f enough =
    absurd c
find_request_from_lem p type_id transfer_id (suc rounds) (some m) (n ∷ nodes) (i ∷ waiting) [] c f
      enough =
    absurd f
find_request_from_lem p type_id transfer_id (suc rounds) (some m) (n ∷ nodes) (i ∷ waiting) (d ∷ ds)
      (next, same, at, linked, c) f enough =
    let here : get_elem? p.requests.values m ≡ some i =
      ap (get_elem? p.requests.values) same ∙ at in
    let on : get_elem? p.requests.links m ≡ some next =
      ap (get_elem? p.requests.links) same ∙ linked in
    elim (Bool-cases (answers type_id transfer_id d)) [
      | inl belongs ↦ (
        some i,
        rw (here, f.0, belongs) refl,
        ([], d, ds, [], waiting, refl, refl, refl, tt, belongs, f.0),
      )
      | inr other ↦
          let (result, ran, s) =
            find_request_from_lem p type_id transfer_id rounds next nodes waiting ds c f.1
              (omega (arith, enough)) in
          (
            result,
            rw (here, f.0, other, on) ran,
            Search-later p type_id transfer_id i waiting d ds result other s,
          )
    ]

module _ (e : Environment) where
  -- The search ends, with the first request that the answer belongs to, if there is one.
  pub find_request_descriptor_lem :
      (p : CanProxy) (type_id transfer_id : ℕ) (ds : List ProxyRequestDescriptor)
      → Pending e p ds
      → ((find_request_descriptor type_id transfer_id p ≡ some none)
          × All (λ d. answers type_id transfer_id d ≡ false) ds)
        ⊎ ((i : ℕ) × (before : List ProxyRequestDescriptor) × (d : ProxyRequestDescriptor)
            × (later : List ProxyRequestDescriptor) × (find_request_descriptor type_id transfer_id p
                ≡ some (some i))
            × (get_elem? p.pool.pool i ≡ some d)
            × (ds ≡ before ++ d ∷ later)
            × All (λ d. answers type_id transfer_id d ≡ false) before
            × (answers type_id transfer_id d ≡ true)
            × At e p before i d later)
  unfolding find_request_descriptor
  find_request_descriptor_lem p type_id transfer_id ds (unused, waiting, nodes, h) =
      let (result, ran, s) =
        find_request_from_lem p type_id transfer_id (length p.requests.values + 1) p.requests.first
          nodes waiting ds h.listed.chain h.filled
          (omega (arith, h.listed.values_sized, h.listed.room)) in
      from_search result ran s
    where
      from_search :
          (result : Option ℕ)
          → find_request_from (length p.requests.values + 1) type_id transfer_id p p.requests.first
            ≡ some result
          → Search p type_id transfer_id waiting ds result
          → ((find_request_from
                  (length p.requests.values + 1)
                  type_id
                  transfer_id
                  p
                  p.requests.first
                ≡ some none)
              × All (λ d. answers type_id transfer_id d ≡ false) ds)
            ⊎ ((i : ℕ) × (before : List ProxyRequestDescriptor) × (d : ProxyRequestDescriptor)
                × (later : List ProxyRequestDescriptor) × (find_request_from
                      (length p.requests.values + 1)
                      type_id
                      transfer_id
                      p
                      p.requests.first
                    ≡ some (some i))
                × (get_elem? p.pool.pool i ≡ some d)
                × (ds ≡ before ++ d ∷ later)
                × All (λ d. answers type_id transfer_id d ≡ false) before
                × (answers type_id transfer_id d ≡ true)
                × At e p before i d later)
      from_search none ran s = inl (ran, s)
      from_search (some i) ran
            (before, d, later, first, rest, split, split', sized, none_before, belongs, at) =
          inr (
            i,
            before,
            d,
            later,
            ran,
            at,
            split,
            none_before,
            belongs,
            (
              unused,
              first,
              rest,
              nodes,
              subst (λ xs. Holds e p unused xs nodes (before ++ d ∷ later)) split'
                  (subst (Holds e p unused waiting nodes) split h),
              sized,
            ),
          )
