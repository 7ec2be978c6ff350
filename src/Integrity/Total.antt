-- ===== src/Integrity/Total.antt =====
-- `verify_integrity` of src/integrity.c returns, and accepts what is intact.
use wimlib.Common.{ℕ, ◌+◌, ◌≡◌, List, [], ◌∷◌}
use wimlib.FileIo.{Filedes, Reply, Io, done}
use wimlib.FileIo.Read.{Serves}
use wimlib.Sha1.{Sha1}
use wimlib.Integrity.{IntegrityTable}
use wimlib.Integrity.Verify.{size_of_chunk}

-- It reads on the same descriptor, and enough replies are left for `k` more bytes.
abbrev Reads : Filedes → ℕ → Io (List ℕ × Filedes) → Type 0
Reads fd k io = (bs : List ℕ) × (rs : List Reply) × (io ≡ done (bs, fd) rs) × Serves k rs

module _ (sha1 : Sha1) (table : IntegrityTable) (bytes_to_check : ℕ) where
  -- The bytes of as many chunks as there are digests, from chunk `i` on.
  unfoldable pub chunks_size : ℕ → List (List ℕ) → ℕ
  chunks_size i [] = 0
  chunks_size i (sum ∷ sums) = size_of_chunk table bytes_to_check i + chunks_size (i + 1) sums
