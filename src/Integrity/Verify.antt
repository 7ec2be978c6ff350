-- ===== src/Integrity/Verify.antt =====
-- What a successful `verify_integrity` of src/integrity.c says about the file.
use wimlib.Common.{
  ℕ, ◌+◌, ◌-◌, ◌≡◌, refl, ap, sym, ◌∙◌, List, [], ◌∷◌, take, drop, ◌==◌, if◌then◌else◌, if-cases,
  inl, inr, Option, none, some,
}
use wimlib.Error.{Error}
use wimlib.FileIo.{Filedes, Reply, Io, done}
use wimlib.FileIo.Read.{bind-done}
use wimlib.Header.{wim_header_disk_size}
use wimlib.Sha1.{Sha1, hashes_equal, hashes_equal→eq}
use wimlib.Integrity.{
  IntegrityTable, integrity_ok, Progress, call_progress, modulo_nonzero, calculate_chunk_sha1,
  verify_loop, verify_integrity,
}
use wimlib.Integrity.Chunks.{calculate_chunk_sha1-digest}

progress-done {ℓ} :
    {A : Type ℓ} (o : Option Error) (io : Io A) {a : A} {rs : List Reply}
    → call_progress o io ≡ done a rs
    → io ≡ done a rs
progress-done none io e = e
progress-done (some x) io e = cc

-- The size of chunk `i`: the last one is what the others leave.
abbrev pub size_of_chunk : IntegrityTable → ℕ → ℕ → ℕ
size_of_chunk table bytes_to_check i =
    if i == table.num_entries - 1
    then modulo_nonzero bytes_to_check table.chunk_size
    else table.chunk_size

module _ (sha1 : Sha1) (table : IntegrityTable) (bytes_to_check : ℕ) (contents : List ℕ) where
  -- The digests of the chunks from `i` on, in a row from an offset on.
  abbrev pub ChunksHave : ℕ → ℕ → List (List ℕ) → Type 0
  ChunksHave i offset [] = Unit
  ChunksHave i offset (sum ∷ sums) =
      (sha1.final (
          sha1.update sha1.init
            (take (size_of_chunk table bytes_to_check i) (drop offset contents)))
        ≡ sum)
      × ChunksHave (i + 1) (offset + size_of_chunk table bytes_to_check i) sums

  verify_loop-ChunksHave :
      (progress : Progress) (rs : List Reply) (fd : Filedes) (i offset : ℕ) (sums : List (List ℕ))
      {fd' : Filedes} {rs' : List Reply}
      → fd.contents ≡ contents
      → verify_loop sha1 progress rs fd table bytes_to_check i offset sums
        ≡ done (integrity_ok, fd') rs'
      → ChunksHave i offset sums
  unfolding verify_loop
  verify_loop-ChunksHave progress rs fd i offset [] same e = tt
  verify_loop-ChunksHave progress rs fd i offset (sum ∷ sums) same e =
      let ((md, fd1), rs1, e1, e2) =
        bind-done (calculate_chunk_sha1 sha1 rs fd (size_of_chunk table bytes_to_check i) offset) _
          e in
      let (digest, unchanged) =
        calculate_chunk_sha1-digest sha1 rs fd (size_of_chunk table bytes_to_check i) offset e1 in
      elim (if-cases (hashes_equal md sum) e2) [
        | inl (h, e3) ↦ (
          ap
                (λ s. sha1.final (
                  sha1.update sha1.init
                    (take (size_of_chunk table bytes_to_check i) (drop offset s))))
                (sym same)
              ∙ sym digest
              ∙ hashes_equal→eq md sum h,
          verify_loop-ChunksHave progress rs1 fd1 (i + 1)
              (offset + size_of_chunk table bytes_to_check i) sums (unchanged ∙ same)
              (progress-done _ _ e3),
        )
        | inr (h, e3) ↦ cc
      ]

-- If the verification succeeds, each entry of the table is the digest of its chunk of the file: the
-- chunks lie in a row behind the header, each of the table's chunk size but the last.
pub verify_integrity-ChunksHave :
    (sha1 : Sha1) (progress : Progress) (rs : List Reply) (fd : Filedes) (table : IntegrityTable)
    (bytes_to_check : ℕ) {fd' : Filedes} {rs' : List Reply}
    → verify_integrity sha1 progress rs fd table bytes_to_check ≡ done (integrity_ok, fd') rs'
    → ChunksHave sha1 table bytes_to_check fd.contents 0 wim_header_disk_size table.sha1sums
unfolding verify_integrity
verify_integrity-ChunksHave sha1 progress rs fd table bytes_to_check e =
    verify_loop-ChunksHave sha1 table bytes_to_check fd.contents progress rs fd 0
      wim_header_disk_size table.sha1sums refl (progress-done _ _ e)
