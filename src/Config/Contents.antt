-- ===== src/Config/Contents.antt =====
-- The contents of a flash memory, with its documented behaviour.
use i2c.Prelude.{
  ℕ, zero, suc, ◌+◌, ◌%◌, ◌≤◌, ◌<◌, ◌≡◌, refl, ap, ap₂, ◌∙◌, ◌⊎◌, true, List, [], ◌∷◌, ◌++◌, arith,
  length,
}
use i2c.Config.{Flash}

-- The bytes of a memory from a position on.
abbrev pub bytes_at : (ℕ → ℕ) → ℕ → ℕ → List ℕ
bytes_at m position zero = []
bytes_at m position (suc n) = m position ∷ bytes_at m (position + 1) n

pub bytes_at_same :
    (m m' : ℕ → ℕ) (position n : ℕ)
    → ((q : ℕ) → position ≤ q → q < position + n → m q ≡ m' q)
    → bytes_at m position n ≡ bytes_at m' position n
bytes_at_same m m' position zero same = refl
bytes_at_same m m' position (suc n) same =
    ap₂ (λ x xs. x ∷ xs) (same position (omega arith) (omega arith))
      (bytes_at_same m m' (position + 1) n
        (λ q low high. same q (omega (arith, low)) (omega (arith, high))))

pub bytes_at-append :
    (m : ℕ → ℕ) (position n k : ℕ)
    → bytes_at m position (n + k) ≡ bytes_at m position n ++ bytes_at m (position + n) k
bytes_at-append m position zero k =
    ap₂ (λ n p. bytes_at m p n) {x = zero + k} (omega arith) (omega arith)
bytes_at-append m position (suc n) k =
    ap (λ j. bytes_at m position j) {x = suc n + k} {y = suc (n + k)} (omega arith)
    ∙ ap (λ xs. m position ∷ xs)
        (bytes_at-append m (position + 1) n k
          ∙ ap (λ p. bytes_at m (position + 1) n ++ bytes_at m p k) (omega arith))

-- Flash memory is written in words of 4 bytes: the drivers assert that the position and the length of a
-- write are multiples of this number.
abbrev pub word_size : ℕ
word_size = 4

-- A flash memory of `capacity` bytes: `contents` are the bytes in a state. A read inside of it gives
-- them, an erase makes all of them 255 once the memory is unlocked, and a write of whole words to bytes
-- that are 255 puts the buffer there and changes no other byte. Nothing is said of other writes.
pub record IsFlash {ℓ} {S : Type ℓ} (flash : Flash S) (contents : S → ℕ → ℕ) (ready : S → Type 0)
    (capacity : ℕ) : Type ℓ where
  pub read_law :
      (s : S) (position : ℕ) (buffer : List ℕ)
      → position + length buffer ≤ capacity
      → flash.read s position buffer ≡ (true, bytes_at (contents s) position (length buffer))
  pub unlock_law : (s : S) → ready (flash.unlock s)
  pub erase_law :
      (s : S)
      → ready s
      → (s' : S) × (flash.erase s ≡ (true, s'))
        × ready s'
        × ((q : ℕ) → q < capacity → contents s' q ≡ 255)
  pub write_law :
      (s : S) (position : ℕ) (buffer : List ℕ)
      → ready s
      → position % word_size ≡ 0
      → length buffer % word_size ≡ 0
      → position + length buffer ≤ capacity
      → ((q : ℕ) → position ≤ q → q < position + length buffer → contents s q ≡ 255)
      → (s' : S) × (flash.write s position buffer ≡ (true, s'))
        × ready s'
        × (bytes_at (contents s') position (length buffer) ≡ buffer)
        × ((q : ℕ) → (q < position) ⊎ (position + length buffer ≤ q) → contents s' q ≡ contents s q)
  pub lock_law : (s : S) (q : ℕ) → contents (flash.lock s) q ≡ contents s q
