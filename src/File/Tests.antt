-- ===== src/File/Tests.antt =====
-- Runs of a file of up to 8 bytes.
use i2c.Prelude.{◌≡◌, refl, true, false, some, [], ◌∷◌, replicate, arith}
use i2c.File.MemoryFile.{MemoryFile, write_chunk, restart_write, finalize_write}
use i2c.Memory.{copy_to, store}
use i2c.File.MemoryFile.Content.{IsValid, write_chunk_refused}
use i2c.File.MemoryFile.Upload.{upload, send}

-- Three bytes of an upload that has begun.
abbrev partial : MemoryFile
partial = record { size = 3; bytes = 1 ∷ 2 ∷ 3 ∷ replicate 5 0; finalized = false }

partial-IsValid : IsValid 8 partial
partial-IsValid = record { sized = refl; bounded = omega arith; fits = omega arith }

-- A piece is sent again with two new bytes.
write_again :
    write_chunk 8 false partial 1 (2 ∷ 3 ∷ 4 ∷ 5 ∷ [])
    ≡ some (true, record partial { size = 5; bytes = 1 ∷ 2 ∷ 3 ∷ 4 ∷ 5 ∷ 0 ∷ 0 ∷ 0 ∷ [] })
unfolding write_chunk copy_to store
write_again = refl

upload_run :
    upload 8 ((7 ∷ 8 ∷ []) ∷ (9 ∷ []) ∷ []) partial
    ≡ some (true, record { size = 3; bytes = 7 ∷ 8 ∷ 9 ∷ replicate 5 0; finalized = true })
unfolding upload send write_chunk copy_to store restart_write finalize_write
upload_run = refl

write_chunk_refused_example : write_chunk 8 false partial 6 (1 ∷ 2 ∷ 3 ∷ []) ≡ some (false, partial)
write_chunk_refused_example =
    write_chunk_refused 8 partial 6 (1 ∷ 2 ∷ 3 ∷ []) (omega arith) (omega arith)
