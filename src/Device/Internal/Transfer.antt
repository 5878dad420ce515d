-- ===== src/Device/Internal/Transfer.antt =====
-- An upload to a file in memory through the device's requests.
use i2c.Prelude.{
  ℕ, ◌+◌, ◌≤◌, ◌<◌, ◌≡◌, ◌≢◌, refl, ◌∙◌, Bool, true, false, Option, none, some, List, [], ◌∷◌,
  arith, length, get_elem?, set, if◌then◌else◌, ◌==◌, ◌>>=◌, >>=-eq-some, get_elem?-set_self,
  get_elem?-set_ne, lt_of_get_elem?, All,
}
use i2c.Core.{Result}
use i2c.Device.{Event, on_file_write_end}
use i2c.Device.Field.{AbstractField}
use i2c.Hub.{Request, file_write}
use i2c.File.MemoryFile.{
  MemoryFile, write_chunk, restart_write, finalize_write, content, is_finalized,
  file_reserved_position,
}
use i2c.File.MemoryFile.Content.{IsValid}
use i2c.File.MemoryFile.Upload.{joined, send, upload_steps}
use i2c.Device.Internal.{AbstractFile, Internal, serve, write_file, file_write_with, write_call}
use i2c.Device.Internal.Files.{memory_file}

-- Requests one behind the other, with the events that they end in.
unfoldable pub serve_all {ℓ κ} :
    {F : Type ℓ} {G : Type κ}
    → AbstractField F
    → AbstractFile G
    → List ℕ
    → List Request
    → Internal F G
    → Option (Internal F G × List (Option Event))
serve_all field_of file_of stack [] d = some (d, [])
serve_all field_of file_of stack (request ∷ requests) d =
    serve field_of file_of stack request d >>= λ r.
    serve_all field_of file_of stack requests r.0 >>= λ later. some (later.0, r.1 ∷ later.1)

-- The requests of an uploader behind its first one: the pieces, each behind the one before, and the
-- total with no bytes.
abbrev pub piece_requests : ℕ → ℕ → List (List ℕ) → List Request
piece_requests file offset [] = file_write file offset [] ∷ []
piece_requests file offset (chunk ∷ chunks) =
    file_write file offset chunk ∷ piece_requests file (offset + length chunk) chunks

abbrev pub upload_requests : ℕ → List (List ℕ) → List Request
upload_requests file chunks = file_write file 0 [] ∷ piece_requests file 0 chunks

-- Each of them succeeded.
abbrev pub successes : List Request → List (Option Event)
successes [] = []
successes (file_write file offset chunk ∷ requests) =
    some (on_file_write_end file offset Result.success) ∷ successes requests
successes (_ ∷ requests) = none ∷ successes requests

module _ {F : Type 0} (field_of : AbstractField F) (checksum : ℕ → List ℕ → ℕ) (capacity : ℕ)
    (stack : List ℕ) where
  abbrev files_of : AbstractFile MemoryFile
  files_of = memory_file checksum capacity false

  -- The device with another state of one file.
  record Replaced (file : ℕ) (g : MemoryFile) (d d' : Internal F MemoryFile) : Type 0 where
    at : get_elem? d'.files file ≡ some g
    others : (j : ℕ) → file ≢ j → get_elem? d'.files j ≡ get_elem? d.files j
    fields : d'.fields ≡ d.fields

  served :
      (file offset : ℕ) (chunk : List ℕ) (g g' : MemoryFile) (d : Internal F MemoryFile)
      → get_elem? d.files file ≡ some g
      → write_call field_of files_of g offset chunk ≡ some (true, g')
      → (d' : Internal F MemoryFile) × (serve field_of files_of stack
            (file_write file offset chunk)
            d
          ≡ some (d', some (on_file_write_end file offset Result.success)))
        × Replaced file g' d d'
  unfolding serve write_file file_write_with
  served file offset chunk g g' d found ran = (
    record d { files = set d.files file g' },
    rw (found, ran) refl,
    record {
      at = get_elem?-set_self d.files file g' (lt_of_get_elem? d.files file g found);
      others = λ j other. get_elem?-set_ne d.files file j g' other;
      fields = refl;
    },
  )

  -- The first piece of an upload that is sent whole.
  accepted :
      (chunk : List ℕ) (chunks : List (List ℕ)) (offset total : ℕ) (g after : MemoryFile)
      → send capacity (chunk ∷ chunks) offset g ≡ some (true, total, after)
      → (next : MemoryFile) × (write_chunk capacity false g offset chunk ≡ some (true, next))
        × (send capacity chunks (offset + length chunk) next ≡ some (true, total, after))
  unfolding send
  accepted chunk chunks offset total g after sent =
      let (r, wrote, later) = >>=-eq-some (write_chunk capacity false g offset chunk) _ _ sent in
      on_time r.0 r.1 wrote later
    where
      on_time :
          (fine : Bool) (next : MemoryFile)
          → write_chunk capacity false g offset chunk ≡ some (fine, next)
          → (if fine
              then send capacity chunks (offset + length chunk) next
              else some (false, offset, next))
            ≡ some (true, total, after)
          → (next : MemoryFile) × (write_chunk capacity false g offset chunk ≡ some (true, next))
            × (send capacity chunks (offset + length chunk) next ≡ some (true, total, after))
      on_time true next wrote later = (next, wrote, later)
      on_time false next wrote later = cc

  last :
      (offset total : ℕ) (g after final : MemoryFile)
      → send capacity [] offset g ≡ some (true, total, after)
      → 1 ≤ total
      → finalize_write false after total ≡ (true, final)
      → write_call field_of files_of g offset [] ≡ some (true, final)
  unfolding send write_call
  last offset total g after final sent some_bytes closed =
      let at_end : offset ≡ total = cc in
      let same : g ≡ after = cc in
      let going : (offset == 0) ≡ false = ground (arith, at_end) in
      rw (going, at_end, same, closed) refl

  -- From a state where the pieces can be sent, their requests and the last one succeed.
  pieces_lem :
      (file offset total : ℕ) (chunks : List (List ℕ)) (g after final : MemoryFile)
      (d : Internal F MemoryFile)
      → get_elem? d.files file ≡ some g
      → All (λ chunk. 1 ≤ length chunk) chunks
      → send capacity chunks offset g ≡ some (true, total, after)
      → 1 ≤ total
      → finalize_write false after total ≡ (true, final)
      → (d' : Internal F MemoryFile) × (serve_all field_of files_of stack
            (piece_requests file offset chunks)
            d
          ≡ some (d', successes (piece_requests file offset chunks)))
        × Replaced file final d d'
  unfolding serve_all send
  pieces_lem file offset total [] g after final d found full sent some_bytes closed =
      let (d', ran, replaced) =
        served file offset [] g final d found
          (last offset total g after final sent some_bytes closed) in
      (d', rw ran refl, replaced)
  pieces_lem file offset total ([] ∷ chunks) g after final d found full sent some_bytes closed =
      absurd (omega (arith, full.0))
  pieces_lem file offset total ((b ∷ bytes) ∷ chunks) g after final d found full sent some_bytes
        closed =
      let chunk = b ∷ bytes in
      let (next, wrote, later) = accepted chunk chunks offset total g after sent in
      let (d1, ran, replaced) =
        served file offset chunk g next d found (unfold write_call in wrote) in
      let (d2, ran_all, replaced_all) =
        pieces_lem file (offset + length chunk) total chunks next after final d1 replaced.at full.1
          later some_bytes closed in
      (
        d2,
        rw (ran, ran_all) refl,
        record {
          at = replaced_all.at;
          others = λ j other. replaced_all.others j other ∙ replaced.others j other;
          fields = replaced_all.fields ∙ replaced.fields;
        },
      )

  begun :
      (file : ℕ) (g : MemoryFile)
      → write_call field_of files_of g 0 [] ≡ some (true, (restart_write false g).1)
  unfolding write_call restart_write
  begun file g = refl

  -- An upload to a valid file of the device, as the requests of an uploader: one without bytes, the
  -- pieces, which are not empty, and the total without bytes. With 1 byte at least, no more than the
  -- capacity and a total below the reserved position, each request ends in one event of success; the
  -- file holds exactly the pieces then, in order, and is final, and no other file has changed.
  pub upload_served :
      (file : ℕ) (chunks : List (List ℕ)) (g : MemoryFile) (d : Internal F MemoryFile)
      → IsValid capacity g
      → get_elem? d.files file ≡ some g
      → All (λ chunk. 1 ≤ length chunk) chunks
      → 1 ≤ length (joined chunks)
      → length (joined chunks) ≤ capacity
      → length (joined chunks) < file_reserved_position
      → (d' : Internal F MemoryFile) × (final : MemoryFile) × (serve_all field_of files_of stack
            (upload_requests file chunks)
            d
          ≡ some (d', successes (upload_requests file chunks)))
        × (get_elem? d'.files file ≡ some final)
        × (content final ≡ joined chunks)
        × (is_finalized final ≡ true)
        × ((j : ℕ) → file ≢ j → get_elem? d'.files j ≡ get_elem? d.files j)
  unfolding serve_all
  upload_served file chunks g d v found full some_bytes room small =
      let (sent, final, ran, ended, filled, closed, valid) =
        upload_steps capacity chunks g v full room small in
      let (d1, first, replaced) =
        served file 0 [] g (restart_write false g).1 d found (begun file g) in
      let (d2, rest, replaced_all) =
        pieces_lem file 0 (length (joined chunks)) chunks (restart_write false g).1 sent final d1
          replaced.at full ran some_bytes ended in
      (
        d2,
        final,
        rw (first, rest) refl,
        replaced_all.at,
        filled,
        closed,
        λ j other. replaced_all.others j other ∙ replaced.others j other,
      )
