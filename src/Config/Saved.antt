-- ===== src/Config/Saved.antt =====
-- What a storage writes to its flash memory.
use i2c.Prelude.{
  ℕ, ◌+◌, ◌%◌, ◌≤◌, ◌<◌, ◌≡◌, refl, sym, ap, ap₂, subst, fun_ext, ◌∙◌, ◌⊎◌, inl, inr, true, List,
  [], ◌∷◌, arith, length, replicate, length-append, length-replicate,
}
use i2c.Core.{to_bytes}
use i2c.Core.Sizes.{length-to_bytes}
use i2c.Config.{
  Flash, Entry, crc_size, padding, wrap, next_offset, entry_checksum, store_entries, store,
}
use i2c.Config.Contents.{bytes_at, bytes_at_same, word_size, IsFlash}

-- What the entries take from an offset on.
abbrev pub end_offset : ℕ → List Entry → ℕ
end_offset offset [] = offset
end_offset offset (entry ∷ entries) = end_offset (next_offset offset entry) entries

-- Each value has the size of its type.
abbrev pub Typed : List Entry → List (List ℕ) → Type 0
Typed [] [] = Unit
Typed (entry ∷ entries) (value ∷ values) =
    (length value ≡ length entry.initial) × Typed entries values
Typed _ _ = ⊥

pub offset_le : (entries : List Entry) (offset : ℕ) → offset ≤ end_offset offset entries
unfolding next_offset
offset_le [] offset = omega arith
offset_le (entry ∷ entries) offset =
    omega (arith, offset_le entries (offset + length (wrap entry.initial) + crc_size))

pub length-wrap : (a b : List ℕ) → length a ≡ length b → length (wrap a) ≡ length (wrap b)
unfolding wrap
length-wrap a b e =
    length-append a (replicate (padding (length a)) 0)
    ∙ ap₂ (λ x y. x + y) e
        (length-replicate (padding (length a)) 0
          ∙ ap padding e
          ∙ sym (length-replicate (padding (length b)) 0))
    ∙ sym (length-append b (replicate (padding (length b)) 0))

whole_words : (n : ℕ) → (n + padding n) % word_size ≡ 0
unfolding padding
whole_words n = ground arith

-- A value with its padding is a number of whole words.
pub words-wrap : (value : List ℕ) → length (wrap value) % word_size ≡ 0
unfolding wrap
words-wrap value = omega (
  arith,
  length-append value (replicate (padding (length value)) 0),
  length-replicate {A = ℕ} (padding (length value)) 0,
  whole_words (length value),
)

-- The memory holds each value with its padding, and its checksum behind it.
abbrev pub Stored : (ℕ → List ℕ → ℕ) → (ℕ → ℕ) → List Entry → ℕ → List (List ℕ) → Type 0
Stored crc m [] offset [] = Unit
Stored crc m (entry ∷ entries) offset (value ∷ values) =
    (bytes_at m offset (length (wrap value)) ≡ wrap value)
    × (bytes_at m (offset + length (wrap value)) crc_size
        ≡ to_bytes crc_size (entry_checksum crc entry (wrap value)))
    × Stored crc m entries (next_offset offset entry) values
Stored crc m _ offset _ = ⊥

module _ {S : Type 0} (flash : Flash S) (contents : S → ℕ → ℕ) (ready : S → Type 0) (capacity : ℕ)
    (law : IsFlash flash contents ready capacity) (crc : ℕ → List ℕ → ℕ) where
  -- One value and its checksum go to erased bytes.
  record Placed (entry : Entry) (offset : ℕ) (value : List ℕ) (s s' : S) : Type 0 where
    data_at : bytes_at (contents s') offset (length (wrap value)) ≡ wrap value
    sum_at :
        bytes_at (contents s') (offset + length (wrap value)) crc_size
        ≡ to_bytes crc_size (entry_checksum crc entry (wrap value))
    others :
        (q : ℕ)
        → (q < offset) ⊎ (offset + length (wrap value) + crc_size ≤ q)
        → contents s' q ≡ contents s q
    unlocked : ready s'

  place :
      (entry : Entry) (offset : ℕ) (value : List ℕ) (s : S)
      → ready s
      → offset % word_size ≡ 0
      → offset + length (wrap value) + crc_size ≤ capacity
      → ((q : ℕ) → offset ≤ q → q < capacity → contents s q ≡ 255)
      → (s1 s2 : S) × (flash.write s offset (wrap value) ≡ (true, s1))
        × (flash.write s1
              (offset + length (wrap value))
              (to_bytes crc_size (entry_checksum crc entry (wrap value)))
            ≡ (true, s2))
        × Placed entry offset value s s2
  place entry offset value s unlocked start room erased =
      let sum = to_bytes crc_size (entry_checksum crc entry (wrap value)) in
      let size : length sum ≡ crc_size =
        length-to_bytes crc_size (entry_checksum crc entry (wrap value)) in
      let (s1, first, ready1, held1, same1) =
        law.write_law s offset (wrap value) unlocked start (words-wrap value) (omega (arith, room))
          (λ q low high. erased q low (omega (arith, high, room))) in
      let (s2, second, ready2, held2, same2) =
        law.write_law s1 (offset + length (wrap value)) sum ready1
          (omega (arith, start, words-wrap value)) (omega (arith, size)) (omega (arith, room, size))
          (λ q low high.
            same1 q (inr low) ∙ erased q (omega (arith, low)) (omega (arith, high, room, size))) in
      (
        s1,
        s2,
        first,
        second,
        record {
          data_at =
              bytes_at_same (contents s2) (contents s1) offset (length (wrap value))
                (λ q low high. same2 q (inl high))
              ∙ held1;
          sum_at = held2;
          others = λ q away. elim away [
            | inl below ↦ same2 q (inl (omega (arith, below))) ∙ same1 q (inl below)
            | inr above ↦
                same2 q (inr (omega (arith, above, size))) ∙ same1 q (inr (omega (arith, above)))
          ];
          unlocked = ready2;
        },
      )

  Stored-same :
      (entries : List Entry) (offset : ℕ) (values : List (List ℕ)) (m m' : ℕ → ℕ)
      → m ≡ m'
      → Stored crc m entries offset values
      → Stored crc m' entries offset values
  Stored-same entries offset values m m' same = subst (λ n. Stored crc n entries offset values) same

  store_entries_lem :
      (entries : List Entry) (offset : ℕ) (values : List (List ℕ)) (s : S)
      → Typed entries values
      → ready s
      → offset % word_size ≡ 0
      → end_offset offset entries ≤ capacity
      → ((q : ℕ) → offset ≤ q → q < capacity → contents s q ≡ 255)
      → (s' : S) × (store_entries flash crc entries offset values s ≡ (true, s'))
        × Stored crc (contents s') entries offset values
        × ((q : ℕ) → q < offset → contents s' q ≡ contents s q)
  unfolding store_entries
  store_entries_lem [] offset [] s typed unlocked start room erased = (s, refl, tt, λ q h. refl)
  store_entries_lem [] offset (value ∷ values) s impossible unlocked start room erased =
      absurd impossible
  store_entries_lem (entry ∷ entries) offset [] s impossible unlocked start room erased =
      absurd impossible
  store_entries_lem (entry ∷ entries) offset (value ∷ values) s typed unlocked start room erased =
      let end : next_offset offset entry ≡ offset + length (wrap value) + crc_size =
        unfold next_offset in omega (arith, length-wrap value entry.initial typed.0) in
      let inside = offset_le entries (next_offset offset entry) in
      let (s1, s2, first, second, placed) =
        place entry offset value s unlocked start (omega (arith, end, inside, room)) erased in
      let (s3, ran, stored, below) =
        store_entries_lem entries (next_offset offset entry) values s2 typed.1 placed.unlocked
          (omega (arith, start, end, words-wrap value)) room
          (λ q low high.
            placed.others q (inr (omega (arith, low, end)))
            ∙ erased q (omega (arith, low, end)) high) in
      (
        s3,
        rw (first, second, ran) refl,
        (
          bytes_at_same (contents s3) (contents s2) offset (length (wrap value))
                (λ q low high. below q (omega (arith, high, end)))
              ∙ placed.data_at,
          bytes_at_same (contents s3) (contents s2) (offset + length (wrap value)) crc_size
                (λ q low high. below q (omega (arith, high, end)))
              ∙ placed.sum_at,
          stored,
        ),
        λ q h. below q (omega (arith, h, end)) ∙ placed.others q (inl h),
      )

  pub stored_lem :
      (entries : List Entry) (shadow : List (List ℕ)) (s : S)
      → Typed entries shadow
      → end_offset 0 entries ≤ capacity
      → (s' : S) × (store flash crc entries shadow s ≡ (true, s'))
        × Stored crc (contents s') entries 0 shadow
  unfolding store
  stored_lem entries shadow s typed room =
      let (s1, ran, unlocked, blank) = law.erase_law (flash.unlock s) (law.unlock_law s) in
      let (s2, saved, stored, below) =
        store_entries_lem entries 0 shadow s1 typed unlocked refl room
          (λ q low high. blank q high) in
      (
        flash.lock s2,
        rw (ran, saved) refl,
        Stored-same entries 0 shadow (contents s2) (contents (flash.lock s2))
            (fun_ext (λ q. sym (law.lock_law s2 q))) stored,
      )
