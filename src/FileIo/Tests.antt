-- ===== src/FileIo/Tests.antt =====
-- The theorems on src/file_io.c at a file of four bytes.
use wimlib.Common.{ℕ, ◌≡◌, refl, List, [], ◌∷◌, arith, false, true}
use wimlib.FileIo.{
  Filedes, Reply, moves, eintr, espipe, done, full_read, full_pread, full_write, overwrite,
  pread_loop, pipe_read, skip_to,
}
use wimlib.FileIo.Read.{
  Delivers, DeliversAt, full_read-Delivers, full_pread-DeliversAt, full_read_total,
}
use wimlib.FileIo.Write.{Writes, full_write-Writes}

abbrev file : Filedes
file = record { contents = 10 ∷ 11 ∷ 12 ∷ 13 ∷ []; offset = 1; is_pipe = false }

abbrev replies : List Reply
replies = moves 0 ∷ eintr ∷ moves 5 ∷ moves 5 ∷ []

full_read-Delivers_example : Delivers file 3 (11 ∷ 12 ∷ 13 ∷ []) (record file { offset = 4 })
unfolding full_read
full_read-Delivers_example = full_read-Delivers replies file 3 refl

full_read_total_example :
    (p : List ℕ × Filedes) × (rs' : List Reply) × (full_read replies file 2 ≡ done p rs')
full_read_total_example = full_read_total replies file 2 (omega arith) tt

full_pread-DeliversAt_example :
    DeliversAt file 2 2 (12 ∷ 13 ∷ []) (record file { offset = 4; is_pipe = true })
unfolding full_pread pread_loop pipe_read skip_to full_read
full_pread-DeliversAt_example =
    full_pread-DeliversAt (moves 0 ∷ espipe ∷ moves 9 ∷ moves 9 ∷ moves 9 ∷ []) file 2 2 refl

full_write-Writes_example :
    Writes file (20 ∷ 21 ∷ []) (record file { contents = 10 ∷ 20 ∷ 21 ∷ 13 ∷ []; offset = 3 })
unfolding full_write overwrite
full_write-Writes_example = full_write-Writes replies file (20 ∷ 21 ∷ []) refl (omega arith)
