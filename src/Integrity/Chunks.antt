-- ===== src/Integrity/Chunks.antt =====
-- The digests that src/integrity.c computes are those of the file's bytes.
use wimlib.Common.{
  ℕ, zero, suc, ◌+◌, ◌-◌, ◌≡◌, ap, ap₂, sym, ◌∙◌, List, ◌++◌, take, drop, min, ◌==◌, if-cases, inl,
  inr, arith, true,
}
use wimlib.FileIo.{Filedes, Reply, Io, done, full_pread, buffer_size}
use wimlib.FileIo.Read.{full_pread-DeliversAt, bind-done, take_more, drop_more}
use wimlib.Sha1.{Sha1}
use wimlib.Integrity.{chunk_loop, calculate_chunk_sha1}

first_value {ℓ} :
    {A : Type ℓ} {a b : A} {fd fd' : Filedes} {rs rs' : List Reply}
    → ◌≡◌ {A = Io (A × Filedes)} (done (a, fd) rs) (done (b, fd') rs')
    → (b ≡ a) × (fd' ≡ fd)
first_value e = (cc, cc)

last_round : (count size : ℕ) → (count - min count size == 0) ≡ true → min count size ≡ count
last_round count size h = ground arith

module _ (sha1 : Sha1) where
  abbrev pub digest_from : sha1.Ctx → List ℕ → List ℕ
  digest_from ctx bs = sha1.final (sha1.update ctx bs)

  chunk_loop-digest :
      (fuel : ℕ) (rs : List Reply) (fd : Filedes) (ctx : sha1.Ctx) (count offset : ℕ) {md : List ℕ}
      {fd' : Filedes} {rs' : List Reply}
      → sha1.IsCtx ctx
      → chunk_loop sha1 fuel rs fd ctx count offset ≡ done (md, fd') rs'
      → (md ≡ digest_from ctx (take count (drop offset fd.contents))) × (fd'.contents ≡ fd.contents)
  unfolding chunk_loop
  chunk_loop-digest zero rs fd ctx count offset v e = cc
  chunk_loop-digest (suc fuel) rs fd ctx count offset v e =
      let ((buf, fd1), rs1, e1, e2) =
        bind-done (full_pread rs fd (min count buffer_size) offset) _ e in
      let d = full_pread-DeliversAt rs fd (min count buffer_size) offset e1 in
      elim (if-cases (count - min count buffer_size == 0) e2) [
        | inl (h, e3) ↦ (
          (first_value e3).0
              ∙ ap (digest_from ctx) (
                  d.bytes
                  ∙ ap (λ n. take n (drop offset fd.contents)) (last_round count buffer_size h)),
          ap (λ (f : Filedes). f.contents) (first_value e3).1 ∙ d.same_file,
        )
        | inr (h, e3) ↦
            let (m, c) =
              chunk_loop-digest fuel rs1 fd1 (sha1.update ctx buf) (count - min count buffer_size)
                (offset + min count buffer_size) (sha1.update-IsCtx ctx buf v) e3 in
            (
              m
                  ∙ sha1.final-update ctx buf _ v
                  ∙ ap (digest_from ctx) (
                      ap₂ (◌++◌) d.bytes (
                        ap
                          (λ s.
                            take (count - min count buffer_size)
                              (drop (offset + min count buffer_size) s))
                          d.same_file
                        ∙ ap (take (count - min count buffer_size))
                            (sym (drop_more offset (min count buffer_size) fd.contents)))
                      ∙ take_more (min count buffer_size) (count - min count buffer_size)
                          (drop offset fd.contents)
                      ∙ ap (λ n. take n (drop offset fd.contents)) (omega arith)),
              c ∙ d.same_file,
            )
      ]

-- The digest that `calculate_chunk_sha1` returns is that of the chunk's bytes in the file, read buffer
-- by buffer, and the file is unchanged.
pub calculate_chunk_sha1-digest :
    (sha1 : Sha1) (rs : List Reply) (fd : Filedes) (this_chunk_size offset : ℕ) {md : List ℕ}
    {fd' : Filedes} {rs' : List Reply}
    → calculate_chunk_sha1 sha1 rs fd this_chunk_size offset ≡ done (md, fd') rs'
    → (md ≡ sha1.final (sha1.update sha1.init (take this_chunk_size (drop offset fd.contents))))
      × (fd'.contents ≡ fd.contents)
unfolding calculate_chunk_sha1
calculate_chunk_sha1-digest sha1 rs fd this_chunk_size offset e =
    chunk_loop-digest sha1 (suc this_chunk_size) rs fd sha1.init this_chunk_size offset
      sha1.init-IsCtx e
