-- ===== src/File/MemoryFile/Upload.antt =====
-- A whole upload: restart, pieces in order, finalize.
use i2c.Prelude.{
  ℕ, ◌+◌, ◌≤◌, ◌≡◌, refl, sym, ap, ◌∙◌, Bool, true, false, Option, some, List, [], ◌∷◌, ◌++◌,
  append_assoc, append-nil, ◌<◌, ==_iff, arith, length, drop, length-append, All, if◌then◌else◌,
  ◌==◌, ◌>>=◌,
}
use i2c.File.MemoryFile.{
  MemoryFile, content, is_finalized, write_chunk, restart_write, finalize_write,
  file_reserved_position,
}
use i2c.File.MemoryFile.Content.{IsValid, Extended, length-content, write_chunk_lem}

-- The pieces of an upload, joined.
abbrev pub joined : List (List ℕ) → List ℕ
joined [] = []
joined (chunk ∷ chunks) = chunk ++ joined chunks

-- The calls of an uploader that sends each piece behind the one before, from `offset` on; it stops at
-- the first refusal. The total sent, and the file.
unfoldable pub send : ℕ → List (List ℕ) → ℕ → MemoryFile → Option (Bool × ℕ × MemoryFile)
send capacity [] offset file = some (true, offset, file)
send capacity (chunk ∷ chunks) offset file = write_chunk capacity false file offset chunk >>= λ r.
    let later = send capacity chunks (offset + length chunk) r.1 in
    if r.0 then later else some (false, offset, r.1)

-- The same with the restart before and the finalize after.
unfoldable pub upload : ℕ → List (List ℕ) → MemoryFile → Option (Bool × MemoryFile)
upload capacity chunks file =
    send capacity chunks 0 (restart_write false file).1 >>= λ r. some (finalize_write false r.2 r.1)

module _ (capacity : ℕ) where
  send_lem :
      (chunks : List (List ℕ)) (file : MemoryFile)
      → IsValid capacity file
      → All (λ chunk. 1 ≤ length chunk) chunks
      → file.size + length (joined chunks) ≤ capacity
      → (after : MemoryFile) × (send capacity chunks file.size file
          ≡ some (true, file.size + length (joined chunks), after))
        × Extended capacity file (joined chunks) after
  unfolding send
  send_lem [] file v h room = (
    file,
    ap (λ n. some (true, n, file)) (omega arith),
    record { valid = v; grown = sym (append-nil (content file)); same = refl },
  )
  send_lem (chunk ∷ chunks) file v h room =
      let (next, ran, first) =
        write_chunk_lem capacity file file.size chunk v h.0 (omega arith)
          (omega (arith, length-append chunk (joined chunks))) in
      let grown : content next ≡ content file ++ chunk =
        first.grown ∙ ap (λ k. content file ++ drop k chunk) {y = 0} (omega arith) in
      let size : next.size ≡ file.size + length chunk = omega (
        arith,
        length-content capacity next first.valid,
        length-content capacity file v,
        ap length grown,
        length-append (content file) chunk,
      ) in
      let (after, sent, rest) =
        send_lem chunks next first.valid h.1
          (omega (arith, length-append chunk (joined chunks), size)) in
      (
        after,
        rw (ran, sym size, sent)
            (ap (λ n. some (true, n, after))
              (omega (arith, length-append chunk (joined chunks), size))),
        record {
          valid = rest.valid;
          grown =
              rest.grown
              ∙ ap (λ front. front ++ joined chunks) grown
              ∙ append_assoc (content file) chunk (joined chunks);
          same = rest.same ∙ first.same;
        },
      )

  -- The steps of an upload, each of which is accepted.
  pub upload_steps :
      (chunks : List (List ℕ)) (file : MemoryFile)
      → IsValid capacity file
      → All (λ chunk. 1 ≤ length chunk) chunks
      → length (joined chunks) ≤ capacity
      → length (joined chunks) < file_reserved_position
      → (sent : MemoryFile) × (after : MemoryFile) × (send capacity chunks 0
            (restart_write false file).1
          ≡ some (true, length (joined chunks), sent))
        × (finalize_write false sent (length (joined chunks)) ≡ (true, after))
        × (content after ≡ joined chunks)
        × (is_finalized after ≡ true)
        × IsValid capacity after
  unfolding restart_write finalize_write is_finalized
  upload_steps chunks file v h room small =
      let empty : MemoryFile = record file { size = 0; finalized = false } in
      let valid : IsValid capacity empty = record {
        sized = v.sized;
        bounded = v.bounded;
        fits = omega arith;
      } in
      let (sent, ran, grown) = send_lem chunks empty valid h (omega arith) in
      let filled : content sent ≡ joined chunks = grown.grown ∙ (unfold content in refl) in
      let size : sent.size ≡ length (joined chunks) =
        sym (length-content capacity sent grown.valid) ∙ ap length filled in
      let total : ℕ = length (joined chunks) in
      let claim : (if total == file_reserved_position then 0 else total) ≡ sent.size =
        ground (arith, size) in
      (
        sent,
        record sent { finalized = true },
        ran ∙ ap (λ n. some (true, n, sent)) (omega arith),
        rw ((==_iff _ _).1 claim) refl,
        (unfold content in filled),
        refl,
        record {
          sized = grown.valid.sized;
          bounded = grown.valid.bounded;
          fits = grown.valid.fits;
        },
      )

  -- For a valid file, an upload of pieces that are not empty, fit the capacity together and have a
  -- total below the reserved position is accepted at every step: whatever the file held before, it is
  -- final then, holds exactly the pieces, joined in order, and is valid.
  pub upload_lem :
      (chunks : List (List ℕ)) (file : MemoryFile)
      → IsValid capacity file
      → All (λ chunk. 1 ≤ length chunk) chunks
      → length (joined chunks) ≤ capacity
      → length (joined chunks) < file_reserved_position
      → (after : MemoryFile) × (upload capacity chunks file ≡ some (true, after))
        × (content after ≡ joined chunks)
        × (is_finalized after ≡ true)
        × IsValid capacity after
  unfolding upload
  upload_lem chunks file v h room small =
      let (sent, after, ran, ended, filled, final, valid) =
        upload_steps chunks file v h room small in
      (after, rw (ran, ended) refl, filled, final, valid)
