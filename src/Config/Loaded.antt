-- ===== src/Config/Loaded.antt =====
-- What a storage saves is what it loads.
use i2c.Prelude.{
  ℕ, ◌+◌, ◌≤◌, ◌<◌, ◌≡◌, refl, sym, ap, ap₂, ◌∙◌, true, false, ◌&&◌, not, List, [], ◌∷◌, arith,
  length, take, replicate, take-length-append, ◌==◌,
}
use i2c.Core.{to_bytes, from_bytes}
use i2c.Core.Sizes.{from_bytes-to_bytes}
use i2c.Config.{
  Flash, Entry, crc_size, crc_max, padding, wrap, next_offset, entry_checksum, load_entries, load,
  store,
}
use i2c.Config.Contents.{bytes_at, bytes_at_same, IsFlash}
use i2c.Config.Saved.{end_offset, Typed, offset_le, length-wrap, Stored, stored_lem}

accepted : (sum : ℕ) → sum < crc_max → (not (sum == crc_max) && sum == sum) ≡ true
accepted sum h = ground arith

unwrapped :
    (entry : Entry) (value : List ℕ)
    → length value ≡ length entry.initial
    → take (length entry.initial) (wrap value) ≡ value
unfolding wrap
unwrapped entry value e =
    ap (λ n. take n (wrap value)) (sym e)
    ∙ take-length-append value (replicate (padding (length value)) 0)

module _ {S : Type 0} (flash : Flash S) (contents : S → ℕ → ℕ) (ready : S → Type 0) (capacity : ℕ)
    (law : IsFlash flash contents ready capacity) (crc : ℕ → List ℕ → ℕ) where
  -- The checksum of each value is one that the code accepts.
  abbrev pub Accepted : List Entry → List (List ℕ) → Type 0
  Accepted (entry ∷ entries) (value ∷ values) =
      (entry_checksum crc entry (wrap value) < crc_max) × Accepted entries values
  Accepted _ _ = Unit

  load_entries_lem :
      (stack : List ℕ) (entries : List Entry) (offset : ℕ) (values old : List (List ℕ)) (s : S)
      → length stack ≡ crc_size
      → Typed entries values
      → Typed entries old
      → Accepted entries values
      → end_offset offset entries ≤ capacity
      → Stored crc (contents s) entries offset values
      → load_entries flash crc stack entries offset s old ≡ (true, values)
  unfolding load_entries
  load_entries_lem stack [] offset [] [] s sized typed typed' good room stored = refl
  load_entries_lem stack [] offset (value ∷ values) old s sized impossible typed' good room stored =
      absurd impossible
  load_entries_lem stack [] offset [] (value ∷ old) s sized typed impossible good room stored =
      absurd impossible
  load_entries_lem stack (entry ∷ entries) offset [] old s sized impossible typed' good room
        stored =
      absurd impossible
  load_entries_lem stack (entry ∷ entries) offset (value ∷ values) [] s sized typed impossible good
        room stored =
      absurd impossible
  load_entries_lem stack (entry ∷ entries) offset (value ∷ values) (was ∷ old) s sized typed typed'
        good room stored =
      let end : next_offset offset entry ≡ offset + length (wrap value) + crc_size =
        unfold next_offset in omega (arith, same) in
      let inside = offset_le entries (next_offset offset entry) in
      let buffer : flash.read s offset (wrap entry.initial) ≡ (true, wrap value) =
        law.read_law s offset (wrap entry.initial) (omega (arith, room, inside, end, same))
        ∙ ap (λ n. (true, bytes_at (contents s) offset n)) (sym same)
        ∙ ap (λ b. (true, b)) stored.0 in
      let checksum : flash.read s (offset + length (wrap entry.initial)) stack
          ≡ (true, to_bytes crc_size (entry_checksum crc entry (wrap value))) =
        law.read_law s (offset + length (wrap entry.initial)) stack
          (omega (arith, room, inside, end, same, sized))
        ∙ ap₂ (λ n k. (true, bytes_at (contents s) (offset + n) k)) (sym same) sized
        ∙ ap (λ b. (true, b)) stored.1 in
      let known : from_bytes (to_bytes crc_size (entry_checksum crc entry (wrap value)))
          ≡ entry_checksum crc entry (wrap value) =
        from_bytes-to_bytes crc_size (entry_checksum crc entry (wrap value))
          (omega (arith, good.0)) in
      rw
        (
          buffer,
          checksum,
          known,
          accepted (entry_checksum crc entry (wrap value)) good.0,
          load_entries_lem stack entries (next_offset offset entry) values old s sized typed.1
              typed'.1 good.1 room stored.2,
        )
        (ap (λ v. (true, v ∷ values)) (unwrapped entry value typed.0))
    where
      same : length (wrap value) ≡ length (wrap entry.initial)
      same = length-wrap value entry.initial typed.0

  -- Values of the right sizes, which fit the memory with their padding and checksums, are stored, and
  -- a load from the memory then gives exactly these values, whatever the memory and the storage held
  -- before; no value's checksum may be the greatest 32-bit number.
  pub load-store :
      (stack : List ℕ) (entries : List Entry) (shadow old : List (List ℕ)) (s : S)
      → length stack ≡ crc_size
      → Typed entries shadow
      → Typed entries old
      → Accepted entries shadow
      → end_offset 0 entries ≤ capacity
      → (s' : S) × (store flash crc entries shadow s ≡ (true, s'))
        × (load flash crc stack entries s' old ≡ (true, shadow))
  unfolding load
  load-store stack entries shadow old s sized typed typed' good room =
      let (s', ran, stored) =
        stored_lem flash contents ready capacity law crc entries shadow s typed room in
      (s', ran, load_entries_lem stack entries 0 shadow old s' sized typed typed' good room stored)

  -- A value whose checksum is the greatest 32-bit number is stored with success, and the load behind
  -- it fails and leaves every value as it was.
  pub load_rejects :
      (stack : List ℕ) (entry : Entry) (entries : List Entry) (value was : List ℕ)
      (shadow old : List (List ℕ)) (s : S)
      → length stack ≡ crc_size
      → Typed (entry ∷ entries) (value ∷ shadow)
      → entry_checksum crc entry (wrap value) ≡ crc_max
      → end_offset 0 (entry ∷ entries) ≤ capacity
      → (s' : S) × (store flash crc (entry ∷ entries) (value ∷ shadow) s ≡ (true, s'))
        × (load flash crc stack (entry ∷ entries) s' (was ∷ old) ≡ (false, was ∷ old))
  unfolding load load_entries
  load_rejects stack entry entries value was shadow old s sized typed worst room =
      let (s', ran, stored) =
        stored_lem flash contents ready capacity law crc (entry ∷ entries) (value ∷ shadow) s typed
          room in
      let same = length-wrap value entry.initial typed.0 in
      let inside : 0 + length (wrap entry.initial) + crc_size ≤ capacity =
        unfold next_offset in omega (arith, room, offset_le entries (next_offset 0 entry)) in
      let checksum : flash.read s' (0 + length (wrap entry.initial)) stack
          ≡ (true, to_bytes crc_size crc_max) =
        law.read_law s' (0 + length (wrap entry.initial)) stack (omega (arith, inside, sized))
        ∙ ap₂ (λ n k. (true, bytes_at (contents s') (0 + n) k)) (sym same) sized
        ∙ ap (λ b. (true, b)) stored.1
        ∙ ap (λ c. (true, to_bytes crc_size c)) worst in
      (s', ran, rw checksum refl)

  -- An erased memory is not loaded, and every value stays as it was.
  pub load_blank :
      (stack : List ℕ) (entry : Entry) (entries : List Entry) (shadow : List (List ℕ)) (s : S)
      → length stack ≡ crc_size
      → end_offset 0 (entry ∷ entries) ≤ capacity
      → ((q : ℕ) → q < capacity → contents s q ≡ 255)
      → Typed (entry ∷ entries) shadow
      → load flash crc stack (entry ∷ entries) s shadow ≡ (false, shadow)
  unfolding load load_entries
  load_blank stack entry entries [] s sized room blank impossible = absurd impossible
  load_blank stack entry entries (value ∷ shadow) s sized room blank typed =
      let inside : 0 + length (wrap entry.initial) + crc_size ≤ capacity =
        unfold next_offset in omega (arith, room, offset_le entries (next_offset 0 entry)) in
      let checksum : flash.read s (0 + length (wrap entry.initial)) stack
          ≡ (true, replicate crc_size 255) =
        law.read_law s (0 + length (wrap entry.initial)) stack (omega (arith, inside, sized))
        ∙ ap (λ k. (true, bytes_at (contents s) (0 + length (wrap entry.initial)) k)) sized
        ∙ ap (λ b. (true, b))
            (bytes_at_same (contents s) (λ q. 255) (0 + length (wrap entry.initial)) crc_size
              (λ q low high. blank q (omega (arith, high, inside)))) in
      rw checksum refl
