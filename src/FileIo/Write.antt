-- ===== src/FileIo/Write.antt =====
-- What the writing loops of src/file_io.c leave in the file.
use wimlib.Common.{
  ℕ, zero, suc, ◌+◌, ◌≤◌, ◌≡◌, refl, ap, sym, subst, ◌∙◌, List, [], ◌∷◌, ◌++◌, length, take, drop,
  min, arith, length-append, length-take, length-drop, take-append-drop, drop_all,
}
use wimlib.Common.Bytes.{take-append}
use native.Mathlib.Nat.{zero-add}
use Prim.Native.Nat.add
use wimlib.FileIo.{
  Filedes, Reply, moves, eintr, espipe, fails, done, full_write, full_pwrite, overwrite,
}

drop_nil : (n : ℕ) → drop {A = ℕ} n [] ≡ []
drop_nil n = drop_all n [] (omega arith)

overwrite_front :
    (xs bs s : List ℕ)
    → overwrite (length xs) bs (xs ++ drop (length xs) s) ≡ (xs ++ bs) ++ drop (length (xs ++ bs)) s
unfolding overwrite
overwrite_front [] bs s = refl
overwrite_front (x ∷ xs) bs [] = ap (◌∷◌ x) (
    ap (λ t. overwrite (length xs) bs (xs ++ t)) (sym (drop_nil (length xs)))
    ∙ overwrite_front xs bs []
    ∙ ap (◌++◌ (xs ++ bs)) (drop_nil (length (xs ++ bs))))
overwrite_front (x ∷ xs) bs (y ∷ s) = ap (◌∷◌ x) (overwrite_front xs bs s)

-- Two writes in a row are one.
overwrite-overwrite :
    (o : ℕ) (xs bs s : List ℕ)
    → overwrite (o + length xs) bs (overwrite o xs s) ≡ overwrite o (xs ++ bs) s
unfolding overwrite
overwrite-overwrite zero xs bs s = rw zero-add (overwrite_front xs bs s)
overwrite-overwrite (suc o) xs bs [] = rw add.suc (ap (◌∷◌ 0) (overwrite-overwrite o xs bs []))
overwrite-overwrite (suc o) xs bs (x ∷ s) = rw add.suc (ap (◌∷◌ x) (overwrite-overwrite o xs bs s))

overwrite-nil : (o : ℕ) (s : List ℕ) → o ≤ length s → overwrite o [] s ≡ s
unfolding overwrite
overwrite-nil zero s h = refl
overwrite-nil (suc o) [] h = absurd (omega arith)
overwrite-nil (suc o) (x ∷ s) h = ap (◌∷◌ x) (overwrite-nil o s (omega arith))

pub length-overwrite : (o : ℕ) (bs s : List ℕ) → o + length bs ≤ length (overwrite o bs s)
unfolding overwrite
length-overwrite zero bs s = omega (arith, length-append bs (drop (length bs) s))
length-overwrite (suc o) bs [] = omega (arith, length-overwrite o bs [])
length-overwrite (suc o) bs (x ∷ s) = omega (arith, length-overwrite o bs s)

-- What was to be written stands in the file, and the position is behind it.
pub record Writes (fd : Filedes) (bs : List ℕ) (fd' : Filedes) : Type 0 where
  pub written : fd'.contents ≡ overwrite fd.offset bs fd.contents
  pub moved_on : fd'.offset ≡ fd.offset + length bs
  pub same_kind : fd'.is_pipe ≡ fd.is_pipe

io_value {ℓ} : {A : Type ℓ} {a b : A} {rs rs' : List Reply} → done a rs ≡ done b rs' → a ≡ b
io_value e = cc

Writes-nothing : (fd : Filedes) → fd.offset ≤ length fd.contents → Writes fd [] fd
Writes-nothing fd h = record {
  written = sym (overwrite-nil fd.offset fd.contents h);
  moved_on = omega arith;
  same_kind = refl;
}

cut : (k : ℕ) (bs : List ℕ) → k ≤ length bs → length (take k bs) ≡ k
cut k bs h = omega (arith, length-take k bs)

-- Where `full_write` succeeds the bytes stand in the file at the descriptor's position, which is moved
-- behind them.
pub full_write-Writes :
    (rs : List Reply) (fd : Filedes) (bs : List ℕ) {fd' : Filedes} {rs' : List Reply}
    → full_write rs fd bs ≡ done fd' rs'
    → fd.offset ≤ length fd.contents
    → Writes fd bs fd'
unfolding full_write
full_write-Writes rs fd [] e h = subst (Writes fd []) (io_value e) (Writes-nothing fd h)
full_write-Writes [] fd (b ∷ bs) e h = cc
full_write-Writes (eintr ∷ rs) fd (b ∷ bs) e h = full_write-Writes rs fd (b ∷ bs) e h
full_write-Writes (espipe ∷ rs) fd (b ∷ bs) e h = cc
full_write-Writes (fails ∷ rs) fd (b ∷ bs) e h = cc
full_write-Writes (moves n ∷ rs) fd (b ∷ bs) e h =
    let ret = min (suc n) (suc (length bs)) in
    let front = take ret (b ∷ bs) in
    let len : length front ≡ ret = cut ret (b ∷ bs) (omega arith) in
    let w =
      full_write-Writes rs
        (record fd { contents = overwrite fd.offset front fd.contents; offset = fd.offset + ret })
        (drop ret (b ∷ bs)) e (omega (arith, len, length-overwrite fd.offset front fd.contents)) in
    record {
      written =
          w.written
          ∙ ap
              (λ o.
                overwrite (fd.offset + o) (drop ret (b ∷ bs))
                  (overwrite fd.offset front fd.contents))
              (sym len)
          ∙ overwrite-overwrite fd.offset front (drop ret (b ∷ bs)) fd.contents
          ∙ ap (λ t. overwrite fd.offset t fd.contents) (take-append-drop ret (b ∷ bs));
      moved_on = w.moved_on ∙ omega (arith, length-drop ret (b ∷ bs));
      same_kind = w.same_kind;
    }

-- The same for `full_pwrite` at an offset, which leaves the position alone.
pub record WritesAt (fd : Filedes) (bs : List ℕ) (offset : ℕ) (fd' : Filedes) : Type 0 where
  pub written : fd'.contents ≡ overwrite offset bs fd.contents
  pub stays : fd'.offset ≡ fd.offset

pub full_pwrite-WritesAt :
    (rs : List Reply) (fd : Filedes) (bs : List ℕ) (offset : ℕ) {fd' : Filedes} {rs' : List Reply}
    → full_pwrite rs fd bs offset ≡ done fd' rs'
    → offset ≤ length fd.contents
    → WritesAt fd bs offset fd'
unfolding full_pwrite
full_pwrite-WritesAt rs fd [] offset e h =
    subst (WritesAt fd [] offset) (io_value e)
      (record { written = sym (overwrite-nil offset fd.contents h); stays = refl })
full_pwrite-WritesAt [] fd (b ∷ bs) offset e h = cc
full_pwrite-WritesAt (eintr ∷ rs) fd (b ∷ bs) offset e h =
    full_pwrite-WritesAt rs fd (b ∷ bs) offset e h
full_pwrite-WritesAt (espipe ∷ rs) fd (b ∷ bs) offset e h = cc
full_pwrite-WritesAt (fails ∷ rs) fd (b ∷ bs) offset e h = cc
full_pwrite-WritesAt (moves n ∷ rs) fd (b ∷ bs) offset e h =
    let ret = min (suc n) (suc (length bs)) in
    let front = take ret (b ∷ bs) in
    let len : length front ≡ ret = cut ret (b ∷ bs) (omega arith) in
    let w =
      full_pwrite-WritesAt rs (record fd { contents = overwrite offset front fd.contents })
        (drop ret (b ∷ bs)) (offset + ret) e
        (omega (arith, len, length-overwrite offset front fd.contents)) in
    record {
      written =
          w.written
          ∙ ap
              (λ o. overwrite (offset + o) (drop ret (b ∷ bs)) (overwrite offset front fd.contents))
              (sym len)
          ∙ overwrite-overwrite offset front (drop ret (b ∷ bs)) fd.contents
          ∙ ap (λ t. overwrite offset t fd.contents) (take-append-drop ret (b ∷ bs));
      stays = w.stays;
    }

-- What was written is what stands there.
pub take-overwrite :
    (offset : ℕ) (bs s : List ℕ) → take (length bs) (drop offset (overwrite offset bs s)) ≡ bs
unfolding overwrite
take-overwrite zero bs s = take-append bs (drop (length bs) s)
take-overwrite (suc offset) bs [] = take-overwrite offset bs []
take-overwrite (suc offset) bs (x ∷ s) = take-overwrite offset bs s
