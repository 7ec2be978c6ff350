-- ===== src/FileIo/Read.antt =====
-- What the reading loops of src/file_io.c deliver, whatever the system answers.
use wimlib.Common.{
  ℕ, zero, suc, ◌+◌, ◌-◌, ◌≤◌, ◌≡◌, ◌≢◌, refl, ap, ap₂, sym, ◌∙◌, true, false, List, [], ◌∷◌, ◌++◌,
  length, take, drop, min, ltb, ◌==◌, arith, Bool-cases, inl, inr, length-append, length-take,
  length-drop, ==_iff, subst, if-cases,
}
use mathlib.Core.Path.{subst₂}
use mathlib.Core.Bool.{true≢false}
use native.Mathlib.Nat.{zero-add}
use Prim.Native.Nat.add
use wimlib.Error.{Error}
use wimlib.FileIo.{
  ◌>>=◌, Filedes, Reply, moves, eintr, espipe, fails, Io, done, failed, waiting, aborts, full_read,
  skip_to, pipe_read, pread_loop, full_pread, moved, prepend, advance, buffer_size,
}

-- Reading on from where a part ended.
pub take_more : (k m : ℕ) (s : List ℕ) → take k s ++ take m (drop k s) ≡ take (k + m) s
take_more zero m s = rw zero-add
take_more (suc k) m (b ∷ s) = rw add.suc (ap (◌∷◌ b) (take_more k m s))
take_more (suc k) zero [] = rw add.suc
take_more (suc k) (suc m) [] = rw add.suc

pub drop_more : (k m : ℕ) (s : List ℕ) → drop m (drop k s) ≡ drop (k + m) s
drop_more zero m s = rw zero-add
drop_more (suc k) m (b ∷ s) = rw add.suc (drop_more k m s)
drop_more (suc k) zero [] = rw add.suc
drop_more (suc k) (suc m) [] = rw add.suc

prepend-done :
    (bs : List ℕ) (io : Io (List ℕ × Filedes)) {out : List ℕ} {fd' : Filedes} {rs' : List Reply}
    → prepend bs io ≡ done (out, fd') rs'
    → (cs : List ℕ) × (io ≡ done (cs, fd') rs') × (out ≡ bs ++ cs)
prepend-done bs (done (cs, fd) rs) e = (cs, cc, cc)
prepend-done bs (failed x) e = cc
prepend-done bs waiting e = cc
prepend-done bs aborts e = cc

-- The bytes at the position, the position behind them, and the rest of the descriptor as it was.
pub record Delivers (fd : Filedes) (count : ℕ) (bs : List ℕ) (fd' : Filedes) : Type 0 where
  pub bytes : bs ≡ take count (drop fd.offset fd.contents)
  pub all : length bs ≡ count
  pub moved_on : fd' ≡ advance fd count

failed_done : {x : Error} {p : List ℕ × Filedes} {rs : List Reply} → failed x ≡ done p rs → ⊥
failed_done e = cc

none_read : (fd : Filedes) → Delivers fd 0 [] fd
none_read fd = record { bytes = refl; all = refl; moved_on = λ i. record fd { offset = stays i } }
  where
    stays : fd.offset ≡ fd.offset + 0
    stays = omega arith

-- A part that one call moved, and what the calls after it deliver.
joins :
    (fd fd' : Filedes) (ret count : ℕ) (bs cs : List ℕ)
    → ret ≤ count
    → ret ≤ length fd.contents - fd.offset
    → Delivers (advance fd ret) (count - ret) cs fd'
    → bs ≡ take ret (drop fd.offset fd.contents) ++ cs
    → Delivers fd count bs fd'
joins fd fd' ret count bs cs le there d e = record {
  bytes =
      e
      ∙ ap (◌++◌ (take ret (drop fd.offset fd.contents)))
          (d.bytes ∙ ap (take (count - ret)) (sym (drop_more fd.offset ret fd.contents)))
      ∙ take_more ret (count - ret) (drop fd.offset fd.contents)
      ∙ ap (λ k. take k (drop fd.offset fd.contents)) total;
  all =
      ap length e
      ∙ omega (
        arith,
        length-append (take ret (drop fd.offset fd.contents)) cs,
        length-take ret (drop fd.offset fd.contents),
        length-drop fd.offset fd.contents,
        d.all,
      );
  moved_on = d.moved_on ∙ λ i. record fd { offset = position i };
}
  where
    total : ret + (count - ret) ≡ count
    total = omega arith

    position : fd.offset + ret + (count - ret) ≡ fd.offset + count
    position = omega arith

none_read-done :
    (fd : Filedes) (rs : List Reply) {bs : List ℕ} {fd' : Filedes} {rs' : List Reply}
    → ◌≡◌ {A = Io (List ℕ × Filedes)} (done ([], fd) rs) (done (bs, fd') rs')
    → Delivers fd 0 bs fd'
none_read-done fd rs {bs} {fd'} e = subst₂ (Delivers fd 0) nothing same (none_read fd)
  where
    nothing : [] ≡ bs
    nothing = cc

    same : fd ≡ fd'
    same = cc

-- Where `full_read` succeeds it has delivered the bytes at the descriptor's position, all that were
-- asked for, and moved the position behind them.
pub full_read-Delivers :
    (rs : List Reply) (fd : Filedes) (count : ℕ) {bs : List ℕ} {fd' : Filedes} {rs' : List Reply}
    → full_read rs fd count ≡ done (bs, fd') rs'
    → Delivers fd count bs fd'
unfolding full_read
full_read-Delivers rs fd zero e = none_read-done fd rs e
full_read-Delivers [] fd (suc c) e = cc
full_read-Delivers (eintr ∷ rs) fd (suc c) e = full_read-Delivers rs fd (suc c) e
full_read-Delivers (espipe ∷ rs) fd (suc c) e = cc
full_read-Delivers (fails ∷ rs) fd (suc c) e = cc
full_read-Delivers (moves n ∷ rs) fd (suc c) {bs} {fd'} {rs'} e =
    let ret = moved n (suc c) (length fd.contents - fd.offset) in
    elim (Bool-cases (ret == 0)) [
      | inl z ↦ absurd (failed_done (rw z at e))
      | inr nz ↦
          let (cs, e', out) = prepend-done _ _ (rw nz at e) in
          joins fd fd' ret (suc c) bs cs (omega arith) (omega arith)
            (full_read-Delivers rs (advance fd ret) (suc c - ret) e') out
    ]

pub bind-done {ℓ κ} :
    {A : Type ℓ} {B : Type κ} (io : Io A) (f : A → List Reply → Io B) {b : B} {rs : List Reply}
    → (io >>= f) ≡ done b rs
    → (a : A) × (rs' : List Reply) × (io ≡ done a rs') × (f a rs' ≡ done b rs)
bind-done (done a rs') f e = (a, rs', refl, e)
bind-done (failed x) f e = cc
bind-done waiting f e = cc
bind-done aborts f e = cc

-- The bytes at an offset, all that were asked for; the file is the same.
pub record DeliversAt (fd : Filedes) (count offset : ℕ) (bs : List ℕ) (fd' : Filedes) : Type 0 where
  pub bytes : bs ≡ take count (drop offset fd.contents)
  pub all : length bs ≡ count
  pub same_file : fd'.contents ≡ fd.contents

-- Seeking in a pipe by reading.
pub record Seeks (fd : Filedes) (offset : ℕ) (fd' : Filedes) : Type 0 where
  pub there : fd'.offset ≡ offset
  pub same_file : fd'.contents ≡ fd.contents

io_value {ℓ} : {A : Type ℓ} {a b : A} {rs rs' : List Reply} → done a rs ≡ done b rs' → a ≡ b
io_value e = cc

Seeks-here : (fd fd' : Filedes) (offset : ℕ) → fd.offset ≡ offset → fd ≡ fd' → Seeks fd offset fd'
Seeks-here fd fd' offset e same = record {
  there = ap (λ f. f.offset) (sym same) ∙ e;
  same_file = ap (λ f. f.contents) (sym same);
}

Seeks-later :
    (fd fd1 fd' : Filedes) (offset k : ℕ)
    → fd1 ≡ advance fd k
    → Seeks fd1 offset fd'
    → Seeks fd offset fd'
Seeks-later fd fd1 fd' offset k e s = record {
  there = s.there;
  same_file = s.same_file ∙ ap (λ f. f.contents) e;
}

skip_to-Seeks :
    (fuel : ℕ) (rs : List Reply) (fd : Filedes) (offset : ℕ) {fd' : Filedes} {rs' : List Reply}
    → skip_to fuel rs fd offset ≡ done fd' rs'
    → fd.offset ≤ offset
    → offset - fd.offset ≤ fuel
    → Seeks fd offset fd'
unfolding skip_to
skip_to-Seeks zero rs fd offset {fd'} e le enough =
    Seeks-here fd fd' offset (omega arith) (io_value e)
skip_to-Seeks (suc fuel) rs fd offset {fd'} e le enough = elim (Bool-cases (fd.offset == offset)) [
  | inl h ↦ Seeks-here fd fd' offset ((==_iff _ _).0 h) (io_value (rw h at e))
  | inr h ↦
      let (p, rs1, e1, e2) = bind-done _ _ (rw h at e) in
      let k = min (offset - fd.offset) buffer_size in
      let d = full_read-Delivers rs fd k e1 in
      let position : p.1.offset ≡ fd.offset + k = ap (λ f. f.offset) d.moved_on in
      let apart : fd.offset ≢ offset = λ q. true≢false (sym ((==_iff _ _).1 q) ∙ h) in
      Seeks-later fd p.1 fd' offset k d.moved_on
        (skip_to-Seeks fuel rs1 p.1 offset e2 (omega arith) (omega arith))
]

pub pipe_read-DeliversAt :
    (rs : List Reply) (fd : Filedes) (count offset : ℕ) {bs : List ℕ} {fd' : Filedes}
    {rs' : List Reply}
    → pipe_read rs fd count offset ≡ done (bs, fd') rs'
    → DeliversAt fd count offset bs fd'
unfolding pipe_read
pipe_read-DeliversAt rs fd count offset {bs} {fd'} e = elim (Bool-cases (ltb offset fd.offset)) [
  | inl h ↦ absurd (failed_done (rw h at e))
  | inr h ↦
      let (fd1, rs1, e1, e2) = bind-done _ _ (rw h at e) in
      let s = skip_to-Seeks (offset - fd.offset) rs fd offset e1 (ground arith) (omega arith) in
      let d = full_read-Delivers rs1 fd1 count e2 in
      record {
        bytes = d.bytes ∙ ap₂ (λ o c. take count (drop o c)) s.there s.same_file;
        all = d.all;
        same_file = ap (λ f. f.contents) d.moved_on ∙ s.same_file;
      }
]

joins_at :
    (fd fd' : Filedes) (ret count offset : ℕ) (bs cs : List ℕ)
    → ret ≤ count
    → ret ≤ length fd.contents - offset
    → DeliversAt fd (count - ret) (offset + ret) cs fd'
    → bs ≡ take ret (drop offset fd.contents) ++ cs
    → DeliversAt fd count offset bs fd'
joins_at fd fd' ret count offset bs cs le there d e =
    let j =
      joins (record fd { offset = offset }) (record fd { offset = offset + ret + (count - ret) })
        ret count bs cs le there (record { bytes = d.bytes; all = d.all; moved_on = refl }) e in
    record { bytes = j.bytes; all = j.all; same_file = d.same_file }

pread_loop-DeliversAt :
    (rs : List Reply) (fd : Filedes) (count offset : ℕ) {bs : List ℕ} {fd' : Filedes}
    {rs' : List Reply}
    → pread_loop rs fd count offset ≡ done (bs, fd') rs'
    → DeliversAt fd count offset bs fd'
unfolding pread_loop
pread_loop-DeliversAt rs fd zero offset {bs} {fd'} e =
    subst (λ p. DeliversAt fd 0 offset p.0 p.1) (io_value e)
      (record { bytes = refl; all = refl; same_file = refl })
pread_loop-DeliversAt [] fd (suc c) offset e = cc
pread_loop-DeliversAt (eintr ∷ rs) fd (suc c) offset e =
    pread_loop-DeliversAt rs fd (suc c) offset e
pread_loop-DeliversAt (espipe ∷ rs) fd (suc c) offset e =
    let d = pipe_read-DeliversAt rs (record fd { is_pipe = true }) (suc c) offset e in
    record { bytes = d.bytes; all = d.all; same_file = d.same_file }
pread_loop-DeliversAt (fails ∷ rs) fd (suc c) offset e = cc
pread_loop-DeliversAt (moves n ∷ rs) fd (suc c) offset {bs} {fd'} {rs'} e =
    let ret = moved n (suc c) (length fd.contents - offset) in
    elim (Bool-cases (ret == 0)) [
      | inl z ↦ absurd (failed_done (rw z at e))
      | inr nz ↦
          let (cs, e', out) = prepend-done _ _ (rw nz at e) in
          joins_at fd fd' ret (suc c) offset bs cs (omega arith) (omega arith)
            (pread_loop-DeliversAt rs fd (suc c - ret) (offset + ret) e') out
    ]

-- Where `full_pread` succeeds it has delivered the bytes at the offset, all that were asked for, from
-- a pipe too, known as such before or found out in the middle of the read; the file is unchanged.
pub full_pread-DeliversAt :
    (rs : List Reply) (fd : Filedes) (count offset : ℕ) {bs : List ℕ} {fd' : Filedes}
    {rs' : List Reply}
    → full_pread rs fd count offset ≡ done (bs, fd') rs'
    → DeliversAt fd count offset bs fd'
unfolding full_pread
full_pread-DeliversAt rs fd count offset e = elim (if-cases fd.is_pipe e) [
  | inl (_, h) ↦ pipe_read-DeliversAt rs fd count offset h
  | inr (_, h) ↦ pread_loop-DeliversAt rs fd count offset h
]

-- Enough replies that move something, and none that is an error.
abbrev pub Serves : ℕ → List Reply → Type 0
Serves zero rs = Unit
Serves (suc c) [] = ⊥
Serves (suc c) (moves n ∷ rs) = Serves c rs
Serves (suc c) (eintr ∷ rs) = Serves (suc c) rs
Serves (suc c) (espipe ∷ rs) = ⊥
Serves (suc c) (fails ∷ rs) = ⊥

pub Serves-fewer : (rs : List Reply) (c k : ℕ) → k ≤ c → Serves c rs → Serves k rs
Serves-fewer rs c zero h s = tt
Serves-fewer [] zero (suc k) h s = absurd (omega arith)
Serves-fewer [] (suc c) (suc k) h s = s
Serves-fewer (moves n ∷ rs) zero (suc k) h s = absurd (omega arith)
Serves-fewer (moves n ∷ rs) (suc c) (suc k) h s = Serves-fewer rs c k (omega arith) s
Serves-fewer (eintr ∷ rs) zero (suc k) h s = absurd (omega arith)
Serves-fewer (eintr ∷ rs) (suc c) (suc k) h s = Serves-fewer rs (suc c) (suc k) h s
Serves-fewer (espipe ∷ rs) zero (suc k) h s = absurd (omega arith)
Serves-fewer (espipe ∷ rs) (suc c) (suc k) h s = s
Serves-fewer (fails ∷ rs) zero (suc k) h s = absurd (omega arith)
Serves-fewer (fails ∷ rs) (suc c) (suc k) h s = s

abbrev Succeeds : Io (List ℕ × Filedes) → Type 0
Succeeds io = (p : List ℕ × Filedes) × (rs : List Reply) × (io ≡ done p rs)

prepend-Succeeds :
    (bs : List ℕ) (io : Io (List ℕ × Filedes)) → Succeeds io → Succeeds (prepend bs io)
prepend-Succeeds bs io (p, rs, e) = ((bs ++ p.0, p.1), rs, ap (prepend bs) e)

-- `full_read` does succeed, if the file has the bytes and the system serves each of them in the end,
-- however the calls are cut short or interrupted.
pub full_read_total :
    (rs : List Reply) (fd : Filedes) (count : ℕ)
    → fd.offset + count ≤ length fd.contents
    → Serves count rs
    → (p : List ℕ × Filedes) × (rs' : List Reply) × (full_read rs fd count ≡ done p rs')
unfolding full_read
full_read_total rs fd zero h s = (([], fd), rs, refl)
full_read_total [] fd (suc c) h s = absurd s
full_read_total (eintr ∷ rs) fd (suc c) h s = full_read_total rs fd (suc c) h s
full_read_total (espipe ∷ rs) fd (suc c) h s = absurd s
full_read_total (fails ∷ rs) fd (suc c) h s = absurd s
full_read_total (moves n ∷ rs) fd (suc c) h s =
    let ret = moved n (suc c) (length fd.contents - fd.offset) in
    let some_moved : (ret == 0) ≡ false = ground arith in
    rw some_moved (
      prepend-Succeeds _ _ (
        full_read_total rs (advance fd ret) (suc c - ret) (omega arith)
          (Serves-fewer rs c (suc c - ret) (omega arith) s)))
