-- ===== src/Config/Guarded.antt =====
-- A region of a memory is a flash memory of its own.
use i2c.Prelude.{
  ℕ, zero, suc, ◌+◌, ◌-◌, ◌%◌, ◌≤◌, ◌<◌, ◌≡◌, refl, sym, ap, ◌∙◌, ◌⊎◌, inl, inr, true, ◌&&◌, ◌||◌,
  not, List, ◌∷◌, arith, length, ltb,
}
use i2c.Config.{
  Interface, Region, is_readable, is_writable, region_erase, region_read, region_write,
  memory_region,
}
use i2c.Config.Contents.{bytes_at, word_size, IsFlash}

-- A memory of the addresses from `base` up to `capacity`, as `IsFlash` but with an erase of the bytes
-- asked for, which are to be whole sectors: `sectors` tells which positions and lengths are.
pub record IsMemory {ℓ} {S : Type ℓ} (memory : Interface S) (contents : S → ℕ → ℕ)
    (ready : S → Type 0) (sectors : ℕ → ℕ → Type 0) (base capacity : ℕ) : Type ℓ where
  pub read_law :
      (s : S) (position : ℕ) (buffer : List ℕ)
      → base ≤ position
      → position + length buffer ≤ capacity
      → memory.read s position buffer ≡ (true, bytes_at (contents s) position (length buffer))
  pub unlock_law : (s : S) → ready (memory.unlock s)
  pub erase_law :
      (s : S) (position n : ℕ)
      → ready s
      → sectors position n
      → base ≤ position
      → position + n ≤ capacity
      → (s' : S) × (memory.erase s position n ≡ (true, s'))
        × ready s'
        × ((q : ℕ) → position ≤ q → q < position + n → contents s' q ≡ 255)
  pub write_law :
      (s : S) (position : ℕ) (buffer : List ℕ)
      → ready s
      → position % word_size ≡ 0
      → length buffer % word_size ≡ 0
      → base ≤ position
      → position + length buffer ≤ capacity
      → ((q : ℕ) → position ≤ q → q < position + length buffer → contents s q ≡ 255)
      → (s' : S) × (memory.write s position buffer ≡ (true, s'))
        × ready s'
        × (bytes_at (contents s') position (length buffer) ≡ buffer)
        × ((q : ℕ) → (q < position) ⊎ (position + length buffer ≤ q) → contents s' q ≡ contents s q)
  pub lock_law : (s : S) (q : ℕ) → contents (memory.lock s) q ≡ contents s q

bytes_at_shift :
    (m : ℕ → ℕ) (base position n : ℕ)
    → bytes_at (λ q. m (base + q)) position n ≡ bytes_at m (base + position) n
bytes_at_shift m base position zero = refl
bytes_at_shift m base position (suc n) =
    ap (λ xs. m (base + position) ∷ xs)
      (bytes_at_shift m base (position + 1) n ∙ ap (λ p. bytes_at m p n) (omega arith))

module _ {S : Type 0} (memory : Interface S) (contents : S → ℕ → ℕ) (ready : S → Type 0)
    (sectors : ℕ → ℕ → Type 0) (base capacity : ℕ)
    (law : IsMemory memory contents ready sectors base capacity) (r : Region) where
  -- A region that is not empty, consists of whole sectors inside of its memory, starts at a word and may
  -- be read and written even while the memory is protected is a flash memory of the region's size,
  -- whose byte `q` is the memory's byte at the region's address and `q`.
  pub memory_region-IsFlash :
      0 < r.size
      → r.readable ≡ true
      → r.writable ≡ true
      → sectors r.address r.size
      → r.address % word_size ≡ 0
      → base ≤ r.address
      → r.address + r.size ≤ capacity
      → IsFlash (memory_region memory r) (λ s q. contents s (r.address + q)) ready r.size
  unfolding memory_region region_erase region_read region_write is_readable is_writable
  memory_region-IsFlash sized open_read open_write whole aligned low inside = record {
    read_law = λ s position buffer fits. rw (readable s) (
        law.read_law s (r.address + position) buffer (omega (arith, low))
          (omega (arith, fits, inside))
        ∙ ap (λ b. (true, b))
            (sym (bytes_at_shift (contents s) r.address position (length buffer))));
    unlock_law = law.unlock_law;
    erase_law = λ s unlocked.
        let (s', ran, still, blank) = law.erase_law s r.address r.size unlocked whole low inside in
        (
          s',
          rw (writable s) ran,
          still,
          λ q h. blank (r.address + q) (omega arith) (omega (arith, h)),
        );
    write_law = λ s position buffer unlocked start words fits erased.
        let (s', ran, still, held, others) =
          law.write_law s (r.address + position) buffer unlocked (omega (arith, aligned, start))
            words (omega (arith, low)) (omega (arith, fits, inside))
            (λ q above high.
              ap (contents s) {x = q} {y = r.address + (q - r.address)} (omega (arith, above))
              ∙ erased (q - r.address) (omega (arith, above)) (omega (arith, above, high))) in
        (
          s',
          rw (writable s) ran,
          still,
          bytes_at_shift (contents s') r.address position (length buffer) ∙ held,
          λ q away. others (r.address + q) (elim away [
            | inl below ↦ inl (omega (arith, below))
            | inr above ↦ inr (omega (arith, above))
          ]),
        );
    lock_law = λ s q. law.lock_law s (r.address + q);
  }
    where
      readable : (s : S) → (ltb 0 r.size && (not (memory.is_protected s) || r.readable)) ≡ true
      readable s = rw open_read (ground arith)

      writable : (s : S) → (ltb 0 r.size && (not (memory.is_protected s) || r.writable)) ≡ true
      writable s = rw open_write (ground arith)
