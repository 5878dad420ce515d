-- ===== src/File/MemoryFile/Content.antt =====
-- What the operations do to the bytes of a file.
use i2c.Prelude.{
  ℕ, zero, suc, ◌+◌, ◌-◌, ◌≤◌, ◌<◌, min, ◌≡◌, refl, sym, ap, ap₂, ◌∙◌, true, false, some, List, [],
  ◌∷◌, ◌++◌, arith, length, take, drop, length-append, length-take, length-drop, take-length-append,
  append-nil, append_assoc, size_mod, add_size, sub_size, ltb, leb, ltb_iff, ◌&&◌, nonzero,
  Bool-cases, inl, inr,
}
use i2c.Memory.{copy_to, copy_to_lem}
use i2c.File.MemoryFile.{MemoryFile, content, read_chunk, write_chunk}

-- The array has its length, which `size_t` can count, and the size counts bytes of it.
pub record IsValid (capacity : ℕ) (file : MemoryFile) : Type 0 where
  pub sized : length file.bytes ≡ capacity
  pub bounded : capacity < size_mod
  pub fits : file.size ≤ capacity

pub take-all : (n : ℕ) (xs : List ℕ) → length xs ≤ n → take n xs ≡ xs
take-all zero [] h = refl
take-all zero (x ∷ xs) h = absurd (omega arith)
take-all (suc n) [] h = refl
take-all (suc n) (x ∷ xs) h = ap (◌∷◌ x) (take-all n xs (omega arith))

drop-all : (n : ℕ) (xs : List ℕ) → length xs ≤ n → drop n xs ≡ []
drop-all zero [] h = refl
drop-all zero (x ∷ xs) h = absurd (omega arith)
drop-all (suc n) [] h = refl
drop-all (suc n) (x ∷ xs) h = drop-all n xs (omega arith)

take-take : (n m : ℕ) (xs : List ℕ) → take n (take m xs) ≡ take (min n m) xs
take-take zero m xs = ap (λ k. take k xs) {x = 0} (omega arith)
take-take (suc n) zero xs = ap (λ k. take k xs) {x = 0} (omega arith)
take-take (suc n) (suc m) [] = ap (λ k. take k []) {x = suc (min n m)} (omega arith)
take-take (suc n) (suc m) (x ∷ xs) =
    ap (◌∷◌ x) (take-take n m xs) ∙ ap (λ k. take k (x ∷ xs)) {x = suc (min n m)} (omega arith)

drop-take : (n m : ℕ) (xs : List ℕ) → drop n (take m xs) ≡ take (m - n) (drop n xs)
drop-take zero m xs = ap (λ k. take k xs) (omega arith)
drop-take (suc n) zero xs = ap (λ k. take k (drop (suc n) xs)) {x = 0} (omega arith)
drop-take (suc n) (suc m) [] = sym (take-all (suc m - suc n) [] (omega arith))
drop-take (suc n) (suc m) (x ∷ xs) = drop-take n m xs ∙ ap (λ k. take k (drop n xs)) (omega arith)

pub length-content :
    (capacity : ℕ) (file : MemoryFile) → IsValid capacity file → length (content file) ≡ file.size
unfolding content
length-content capacity file v = length-take file.size file.bytes ∙ omega (arith, v.sized, v.fits)

-- A file that got the bytes `new` behind its content.
pub record Extended (capacity : ℕ) (file : MemoryFile) (new : List ℕ) (after : MemoryFile)
    : Type 0 where
  pub valid : IsValid capacity after
  pub grown : content after ≡ content file ++ new
  pub same : after.finalized ≡ file.finalized

module _ (capacity : ℕ) where
  -- The copy of a chunk's new bytes.
  append_lem :
      (file : MemoryFile) (new : List ℕ)
      → IsValid capacity file
      → file.size + length new ≤ capacity
      → (filled : List ℕ) × (copy_to file.bytes file.size new ≡ some filled)
        × Extended capacity file new (record file { bytes = filled; size = file.size + length new })
  unfolding content
  append_lem file new v room = (
    filled,
    copy_to_lem new file.bytes file.size (omega (arith, v.sized)),
    record {
      valid = record { sized = whole; bounded = v.bounded; fits = room };
      grown =
          ap (λ n. take n filled) count
          ∙ ap (take (length front)) (sym (append_assoc (take file.size file.bytes) new tail))
          ∙ take-length-append front tail;
      same = refl;
    },
  )
    where
      tail : List ℕ
      tail = drop (file.size + length new) file.bytes

      front : List ℕ
      front = take file.size file.bytes ++ new

      filled : List ℕ
      filled = take file.size file.bytes ++ (new ++ tail)

      count : file.size + length new ≡ length front
      count = omega (
        arith,
        length-append (take file.size file.bytes) new,
        length-take file.size file.bytes,
        v.sized,
        v.fits,
      )

      whole : length filled ≡ capacity
      whole = omega (
        arith,
        length-append (take file.size file.bytes) (new ++ tail),
        length-append new tail,
        length-take file.size file.bytes,
        length-drop (file.size + length new) file.bytes,
        v.sized,
        v.fits,
      )

  -- The chunk's bytes that the file does not hold are the ones copied.
  pending_lem :
      (file : MemoryFile) (offset : ℕ) (buffer : List ℕ)
      → IsValid capacity file
      → offset ≤ file.size
      → offset + length buffer ≤ capacity
      → file.size - offset < length buffer
      → take
          (sub_size (length buffer) (sub_size file.size offset))
          (drop (sub_size file.size offset) buffer)
        ≡ drop (file.size - offset) buffer
  pending_lem file offset buffer v inside room more =
      ap (λ k. take (sub_size (length buffer) k) (drop k buffer)) skipped
      ∙ take-all (sub_size (length buffer) (file.size - offset)) (drop (file.size - offset) buffer)
          (omega (arith, length-drop (file.size - offset) buffer, v.bounded))
    where
      skipped : sub_size file.size offset ≡ file.size - offset
      skipped = omega (arith, v.bounded, v.fits)

  -- On a valid file, a chunk that is not empty, starts inside of the content or right behind it and
  -- ends within the capacity is accepted: the bytes that the file holds already are skipped, the others go behind its
  -- content, and nothing is written outside of the array.
  pub write_chunk_lem :
      (file : MemoryFile) (offset : ℕ) (buffer : List ℕ)
      → IsValid capacity file
      → 1 ≤ length buffer
      → offset ≤ file.size
      → offset + length buffer ≤ capacity
      → (after : MemoryFile) × (write_chunk capacity false file offset buffer ≡ some (true, after))
        × Extended capacity file (drop (file.size - offset) buffer) after
  unfolding write_chunk
  write_chunk_lem file offset buffer v h inside room =
      elim (Bool-cases (ltb (sub_size file.size offset) (length buffer))) [
        | inl more ↦ fresh ((ltb_iff _ _).0 more)
        | inr held ↦ (
          file,
          rw (guard, held),
          record {
            valid = v;
            grown = sym (
                ap (λ new. content file ++ new) (drop-all (file.size - offset) buffer (known held))
                ∙ append-nil (content file));
            same = refl;
          },
        )
      ]
    where
      guard : (nonzero (length buffer) && leb (add_size offset (length buffer)) capacity) ≡ true
      guard = ground (arith, v.bounded)

      known :
          ltb (sub_size file.size offset) (length buffer) ≡ false
          → length buffer ≤ file.size - offset
      known held = ground (arith, v.bounded, v.fits)

      fresh :
          sub_size file.size offset < length buffer
          → (after : MemoryFile) × (write_chunk capacity false file offset buffer
              ≡ some (true, after))
            × Extended capacity file (drop (file.size - offset) buffer) after
      fresh more =
          let (filled, ran, grown) =
            append_lem file (drop (file.size - offset) buffer) v
              (omega (arith, length-drop (file.size - offset) buffer, v.bounded, v.fits)) in
          (
            record file {
              bytes = filled;
              size = file.size + length (drop (file.size - offset) buffer);
            },
            rw
                (
                  guard,
                  (ltb_iff (sub_size file.size offset) (length buffer)).1 more,
                  pending_lem file offset buffer v inside room (omega (arith, v.bounded, v.fits)),
                  ran,
                )
                (ap (λ s. some (true, record file { bytes = filled; size = s }))
                  (omega (arith, length-drop (file.size - offset) buffer, v.bounded, v.fits))),
            grown,
          )

  -- On a valid file, a chunk that is not empty, starts behind the end of the content and ends within
  -- the capacity is reported as written, and the file is unchanged.
  pub write_chunk_gap :
      (file : MemoryFile) (offset : ℕ) (buffer : List ℕ)
      → IsValid capacity file
      → 1 ≤ length buffer
      → file.size < offset
      → offset + length buffer ≤ capacity
      → write_chunk capacity false file offset buffer ≡ some (true, file)
  unfolding write_chunk
  write_chunk_gap file offset buffer v h gap room = ground (arith, v.bounded, v.fits)

  -- A chunk that ends behind the capacity is refused and nothing changes.
  pub write_chunk_refused :
      (file : MemoryFile) (offset : ℕ) (buffer : List ℕ)
      → offset + length buffer < size_mod
      → capacity < offset + length buffer
      → write_chunk capacity false file offset buffer ≡ some (false, file)
  unfolding write_chunk
  write_chunk_refused file offset buffer b over = ground arith

  -- On a valid file, a read of at least one byte that starts inside of the content and asks for no
  -- more than the caller's buffer holds puts the bytes asked for, as far as there are, at the front of
  -- the buffer, leaves the rest of it, and returns true.
  pub read_chunk_lem :
      (file : MemoryFile) (offset n : ℕ) (buffer : List ℕ)
      → IsValid capacity file
      → offset < file.size
      → 1 ≤ n
      → n ≤ length buffer
      → read_chunk file offset buffer n
        ≡ some
            (true, take n (drop offset (content file)) ++ drop (min n (file.size - offset)) buffer)
  unfolding read_chunk content
  read_chunk_lem file offset n buffer v inside h room =
      rw (started, wanted, going, copy_to_lem bytes buffer 0 (omega (arith, size)))
        (ap₂ (λ new k. some (true, new ++ drop k buffer)) (sym shown) size)
    where
      count : ℕ
      count = min n (file.size - offset)

      bytes : List ℕ
      bytes = take count (drop offset file.bytes)

      started : leb file.size offset ≡ false
      started = ground arith

      wanted : min (sub_size file.size offset) n ≡ count
      wanted = omega (arith, v.bounded, v.fits)

      going : nonzero count ≡ true
      going = ground arith

      size : 0 + length bytes ≡ count
      size = omega (
        arith,
        length-take count (drop offset file.bytes),
        length-drop offset file.bytes,
        v.sized,
        v.fits,
      )

      shown : take n (drop offset (take file.size file.bytes)) ≡ bytes
      shown =
          ap (take n) (drop-take offset file.size file.bytes)
          ∙ take-take n (file.size - offset) (drop offset file.bytes)
