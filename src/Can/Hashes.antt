-- ===== src/Can/Hashes.antt =====
-- PlazCan/HashFinder.hpp, and `findHashById` of PlazCan/UavCanHandler.hpp with the identifiers of
-- PlazCan/UavCanPacket.hpp: the signature of a data type, by its identifier.
use i2c.Prelude.{
  ℕ, zero, suc, ◌+◌, ◌≡◌, refl, sym, ap, ap₂, ◌∙◌, append_assoc, length-append, get_elem?, Bool,
  true, false, not, ◌&&◌, both, Option, none, some, List, [], ◌∷◌, ◌++◌, arith, length, get_or,
  nonzero, ◌==◌, if◌then◌else◌, Bool-cases, inl, inr, leb,
}

-- `HashId`
pub record HashId : Type 0 where
  pub id : ℕ
  pub hash : ℕ

-- `helpImpl`
unfoldable pub help_impl : HashId → List HashId → ℕ → ℕ
help_impl k [] id = if k.id == id then k.hash else 0
help_impl k (k' ∷ ks) id = let later = help_impl k' ks id in if id == k.id then k.hash else later

abbrev pub id_array : List HashId → List ℕ
id_array [] = []
id_array (k ∷ ks) = k.id ∷ id_array ks

abbrev pub hash_array : List HashId → List ℕ
hash_array [] = []
hash_array (k ∷ ks) = k.hash ∷ hash_array ks

-- The loop over the arrays, from the index `i` on; `left` is how many places are left.
unfoldable pub scan : ℕ → ℕ → List ℕ → List ℕ → ℕ → ℕ
scan zero i ids hashes id = 0
scan (suc left) i ids hashes id =
    let later = scan left (i + 1) ids hashes id in
    if get_or ids i 0 == id then get_or hashes i 0 else later

-- `kLengthThreshold`
abbrev pub length_threshold : ℕ
length_threshold = 11

-- `findImpl`
unfoldable pub find_impl : List HashId → ℕ → ℕ
find_impl [] id = 0
find_impl (k ∷ ks) id =
    if leb length_threshold (length (k ∷ ks))
    then scan (length (k ∷ ks)) 0 (id_array (k ∷ ks)) (hash_array (k ∷ ks)) id
    else help_impl k ks id

-- `CanardTransferType`
pub data TransferType : Type 0 where
  response request broadcast : TransferType

abbrev pub is_broadcast : TransferType → Bool
is_broadcast TransferType.broadcast = true
is_broadcast _ = false

-- `MessageFinder` and `ServiceFinder`
abbrev pub message_hashes : List HashId
message_hashes =
    record { id = 0; hash = 0x0B2A812620A11D40 }
    ∷ record { id = 1; hash = 0x0B2A812620A11D40 }
    ∷ record { id = 4; hash = 0x20271116A793C2DB }
    ∷ record { id = 341; hash = 0x0F0868D0C1A7C6F1 }
    ∷ record { id = 20000; hash = 0xC0D0FE11431D2AC1 }
    ∷ []

abbrev pub service_hashes : List HashId
service_hashes =
    record { id = 1; hash = 0xEE468A8121C46A9E }
    ∷ record { id = 4; hash = 0xBE6F76A7EC312B04 }
    ∷ record { id = 5; hash = 0x569E05394A3017F0 }
    ∷ record { id = 11; hash = 0xA7B622F939D1A4D5 }
    ∷ record { id = 200; hash = 0x2583CECACCA99058 }
    ∷ record { id = 201; hash = 0xEA771CFDBB20F747 }
    ∷ record { id = 202; hash = 0x2E94C3535FDA9115 }
    ∷ record { id = 203; hash = 0x0F77ADF1898B26C9 }
    ∷ record { id = 204; hash = 0xB1C21238E6C7883A }
    ∷ record { id = 205; hash = 0x4CE2161B8D089C57 }
    ∷ record { id = 206; hash = 0x0666D4CB855D3403 }
    ∷ []

abbrev known_hashes : TransferType → List HashId
known_hashes kind = if is_broadcast kind then message_hashes else service_hashes

abbrev ask : Option (TransferType → ℕ → ℕ) → TransferType → ℕ → Option ℕ
ask none kind id = none
ask (some finder) kind id = some (finder kind id)

-- `UavCanHandler::findHashById`, with the function that the application gave or none; the result
-- `none` is a failed assertion.
unfoldable pub find_hash_by_id : Option (TransferType → ℕ → ℕ) → TransferType → ℕ → Option ℕ
find_hash_by_id hash_finder kind id =
    let result = find_impl (known_hashes kind) id in
    if nonzero result then some result else ask hash_finder kind id

-- What both forms of the search are for: the hash of the first entry with the identifier, or 0.
abbrev pub lookup : List HashId → ℕ → ℕ
lookup [] id = 0
lookup (k ∷ ks) id = if k.id == id then k.hash else lookup ks id

help_impl_lem : (k : HashId) (ks : List HashId) (id : ℕ) → help_impl k ks id ≡ lookup (k ∷ ks) id
unfolding help_impl
help_impl_lem k [] id = refl
help_impl_lem k (k' ∷ ks) id = ground (arith, help_impl_lem k' ks id)

get_or-append :
    (front : List HashId) (k : HashId) (ks : List HashId)
    → (get_or (id_array (front ++ k ∷ ks)) (length front) 0 ≡ k.id)
      × (get_or (hash_array (front ++ k ∷ ks)) (length front) 0 ≡ k.hash)
get_or-append [] k ks = (refl, refl)
get_or-append (f ∷ front) k ks = get_or-append front k ks

scan_lem :
    (front ks : List HashId) (id : ℕ)
    → scan (length ks) (length front) (id_array (front ++ ks)) (hash_array (front ++ ks)) id
      ≡ lookup ks id
unfolding scan
scan_lem front [] id = refl
scan_lem front (k ∷ ks) id =
    let (at_id, at_hash) = get_or-append front k ks in
    let later : scan (length ks) (length front + 1) (id_array (front ++ k ∷ ks))
          (hash_array (front ++ k ∷ ks)) id
        ≡ lookup ks id =
      ap₂ (λ i all. scan (length ks) i (id_array all) (hash_array all) id)
        (sym (length-append front (k ∷ []))) (sym (append_assoc front (k ∷ []) ks))
      ∙ scan_lem (front ++ k ∷ []) ks id in
    rw (at_id, at_hash, later) refl

-- Both forms of the search, the loop over arrays for 11 entries or more and the recursion for fewer,
-- give the hash of the first entry with the identifier, or 0 if there is none.
pub find_impl_lem : (ks : List HashId) (id : ℕ) → find_impl ks id ≡ lookup ks id
unfolding find_impl
find_impl_lem [] id = refl
find_impl_lem (k ∷ ks) id = elim (Bool-cases (leb length_threshold (length (k ∷ ks)))) [
  | inl many ↦ rw many (scan_lem [] (k ∷ ks) id)
  | inr few ↦ rw few (help_impl_lem k ks id)
]

-- No entry has the identifier.
abbrev absent : ℕ → List HashId → Bool
absent id [] = true
absent id (k ∷ ks) = not (id == k.id) && absent id ks

-- The identifiers differ, and no hash is 0.
abbrev well_formed : List HashId → Bool
well_formed [] = true
well_formed (k ∷ ks) = (absent k.id ks && nonzero k.hash) && well_formed ks

absent_lem :
    (id : ℕ) (ks : List HashId) (i : ℕ) (k : HashId)
    → absent id ks ≡ true
    → get_elem? ks i ≡ some k
    → (id == k.id) ≡ false
absent_lem id [] i k away found = cc
absent_lem id (k' ∷ ks) zero k away found =
    let same : k' ≡ k = cc in ground (arith, ap (λ (k : HashId). k.id) same, away)
absent_lem id (k' ∷ ks) (suc i) k away found =
    absent_lem id ks i k (both (not (id == k'.id)) (absent id ks) away).1 found

lookup_lem :
    (ks : List HashId) (i : ℕ) (k : HashId)
    → well_formed ks ≡ true
    → get_elem? ks i ≡ some k
    → (lookup ks k.id ≡ k.hash) × (nonzero k.hash ≡ true)
lookup_lem [] i k good found = cc
lookup_lem (k' ∷ ks) zero k good found =
    let same : k' ≡ k = cc in
    let self : (k'.id == k.id) ≡ true = ground (arith, ap (λ (k : HashId). k.id) same) in
    let (first, rest) = both (absent k'.id ks && nonzero k'.hash) (well_formed ks) good in
    let (away, some_hash) = both (absent k'.id ks) (nonzero k'.hash) first in
    (
      rw self (ap (λ (k : HashId). k.hash) same),
      ap (λ (k : HashId). nonzero k.hash) (sym same) ∙ some_hash,
    )
lookup_lem (k' ∷ ks) (suc i) k good found =
    let (first, rest) = both (absent k'.id ks && nonzero k'.hash) (well_formed ks) good in
    let (away, some_hash) = both (absent k'.id ks) (nonzero k'.hash) first in
    let (at, more) = lookup_lem ks i k rest found in
    (rw (absent_lem k'.id ks i k away found) at, more)

known_hashes-well_formed : (kind : TransferType) → well_formed (known_hashes kind) ≡ true
known_hashes-well_formed TransferType.broadcast = refl
known_hashes-well_formed TransferType.response = refl
known_hashes-well_formed TransferType.request = refl

-- An identifier of a known service or message has its signature, whether or not the application gave
-- a function of its own.
pub find_hash_by_id_lem :
    (hash_finder : Option (TransferType → ℕ → ℕ)) (kind : TransferType) (k : HashId) (i : ℕ)
    → get_elem? (known_hashes kind) i ≡ some k
    → find_hash_by_id hash_finder kind k.id ≡ some k.hash
unfolding find_hash_by_id
find_hash_by_id_lem hash_finder kind k i found =
    let (at, more) = lookup_lem (known_hashes kind) i k (known_hashes-well_formed kind) found in
    rw (find_impl_lem (known_hashes kind) k.id ∙ at, more) refl
