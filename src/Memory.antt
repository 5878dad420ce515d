-- ===== src/Memory.antt =====
-- Arrays that are written through a pointer: a write outside of the array is `none`.
use i2c.Prelude.{
  ℕ, suc, ◌+◌, ◌≤◌, ◌<◌, ◌≡◌, refl, sym, ap, ap₂, subst, ◌∙◌, Option, none, some, List, [], ◌∷◌,
  ◌++◌, append_assoc, arith, length, set, take, drop, length-set, take-append-drop, drop-set_lt,
  take-set_self, ltb, ltb_iff, if◌then◌else◌, ◌>>=◌,
}

-- A write through a pointer: `none` is a write outside of the array.
unfoldable pub store : List ℕ → ℕ → ℕ → Option (List ℕ)
store buffer i value = if ltb i (length buffer) then some (set buffer i value) else none

-- `memcpy` to an offset of the array.
unfoldable pub copy_to : List ℕ → ℕ → List ℕ → Option (List ℕ)
copy_to buffer i [] = some buffer
copy_to buffer i (value ∷ values) = do
  buffer' ← store buffer i value
  copy_to buffer' (i + 1) values

pub take-set_next :
    (buffer : List ℕ) (k x : ℕ) (stored : List ℕ)
    → k < length buffer
    → take k buffer ≡ stored
    → take (k + 1) (set buffer k x) ≡ stored ++ x ∷ []
take-set_next buffer k x stored h held =
    subst (λ m. take m (set buffer k x) ≡ stored ++ x ∷ []) {x = suc k} (omega arith)
      (take-set_self buffer k x h ∙ ap (λ t. t ++ x ∷ []) held)

pub store_in :
    (buffer : List ℕ) (i v : ℕ) → i < length buffer → store buffer i v ≡ some (set buffer i v)
unfolding store
store_in buffer i v h = rw ((ltb_iff i (length buffer)).1 h)

pub store_out : (buffer : List ℕ) (i v : ℕ) → length buffer ≤ i → store buffer i v ≡ none
unfolding store
store_out buffer i v h = ground arith

-- `memcpy` replaces a stretch of the array.
pub copy_to_lem :
    (values buffer : List ℕ) (i : ℕ)
    → i + length values ≤ length buffer
    → copy_to buffer i values ≡ some (take i buffer ++ (values ++ drop (i + length values) buffer))
unfolding copy_to
copy_to_lem [] buffer i h =
    ap some
      (sym (take-append-drop i buffer) ∙ ap (λ j. take i buffer ++ drop j buffer) (omega arith))
copy_to_lem (v ∷ vs) buffer i h =
    rw (store_in buffer i v (omega arith)) (
      copy_to_lem vs (set buffer i v) (i + 1) (omega (arith, length-set buffer i v)) ∙ ap some same)
  where
    rest : drop (i + 1 + length vs) (set buffer i v) ≡ drop (i + suc (length vs)) buffer
    rest =
        drop-set_lt buffer i (i + 1 + length vs) v (omega arith)
        ∙ ap (λ j. drop j buffer) (omega arith)

    same :
        take (i + 1) (set buffer i v) ++ (vs ++ drop (i + 1 + length vs) (set buffer i v))
        ≡ take i buffer ++ (v ∷ vs ++ drop (i + suc (length vs)) buffer)
    same =
        ap₂ (λ t r. t ++ (vs ++ r)) (take-set_next buffer i v (take i buffer) (omega arith) refl)
          rest
        ∙ append_assoc (take i buffer) (v ∷ []) (vs ++ drop (i + suc (length vs)) buffer)
