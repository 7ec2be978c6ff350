-- ===== src/Integrity/Tests.antt =====
-- The digest of a chunk of src/integrity.c, with a hash that keeps the bytes themselves.
use wimlib.Common.{
  ℕ, ◌≡◌, refl, List, [], ◌∷◌, ◌++◌, take, drop, append_assoc, false, replicate, none,
}
use wimlib.FileIo.{Filedes, moves, full_pread, pread_loop}
use wimlib.Sha1.{Sha1, hashes_equal}
use wimlib.Integrity.{
  IntegrityTable, calculate_chunk_sha1, chunk_loop, verify_integrity, verify_loop, hashes_equal,
}
use wimlib.Integrity.Verify.{ChunksHave, verify_integrity-ChunksHave}
use wimlib.Header.{wim_header_disk_size}
use wimlib.Integrity.Chunks.{calculate_chunk_sha1-digest}

abbrev all_bytes : Sha1
all_bytes = record {
  Ctx = List ℕ;
  init = [];
  update = λ c a. c ++ a;
  final = λ c. c;
  IsCtx = λ c. Unit {0};
  init-IsCtx = tt;
  update-IsCtx = λ c a v. tt;
  final-update = λ c a b v. append_assoc c a b;
}

abbrev file : Filedes
file = record { contents = 10 ∷ 11 ∷ 12 ∷ 13 ∷ []; offset = 1; is_pipe = false }

calculate_chunk_sha1-digest_example :
    (◌≡◌ {A = List ℕ} (12 ∷ 13 ∷ []) (take 2 (drop 2 file.contents)))
    × (file.contents ≡ file.contents)
unfolding calculate_chunk_sha1 chunk_loop full_pread pread_loop
calculate_chunk_sha1-digest_example =
    calculate_chunk_sha1-digest all_bytes (moves 0 ∷ moves 4 ∷ []) file 2 2 refl

-- Two chunks, of two bytes and of one, behind a header of zeros.
abbrev archive : Filedes
archive = record { contents = replicate 208 0 ++ (20 ∷ 21 ∷ 22 ∷ []); offset = 0; is_pipe = false }

abbrev table : IntegrityTable
table = record {
  size = 52;
  num_entries = 2;
  chunk_size = 2;
  sha1sums = (20 ∷ 21 ∷ []) ∷ (22 ∷ []) ∷ [];
}

verify_integrity-ChunksHave_example :
    ChunksHave all_bytes table 3 archive.contents 0 wim_header_disk_size table.sha1sums
unfolding verify_integrity verify_loop hashes_equal calculate_chunk_sha1 chunk_loop full_pread
    pread_loop
verify_integrity-ChunksHave_example =
    verify_integrity-ChunksHave all_bytes (λ chunks bytes. none) (moves 9 ∷ moves 9 ∷ []) archive
      table 3 refl
