-- ===== src/FileIo.antt =====
-- src/file_io.c: `full_read`, `pipe_read`, `full_pread`, `full_write` and `full_pwrite`, the loops
-- around the system calls. What the system answers is an argument: one reply for each call that is
-- made. A loop that runs out of replies still waits for one.
pub mod Read
pub mod Write
mod Tests
use wimlib.Common.{
  ℕ, zero, suc, ◌+◌, ◌-◌, ◌≤◌, ◌<◌, Bool, true, false, List, [], ◌∷◌, ◌++◌, length, take, drop,
  replicate, min, ltb, ◌==◌, if◌then◌else◌,
}
use wimlib.Error.{Error, read, write, unexpected_end_of_file, resource_order}

-- struct filedes, with the bytes of the file that it is open on.
pub record Filedes : Type 0 where
  pub contents : List ℕ
  pub offset : ℕ
  pub is_pipe : Bool

-- What the system answers to a call: it moves at most `suc n` bytes, it was interrupted (EINTR), the
-- file is a pipe (ESPIPE), or any other error.
pub data Reply : Type 0 where
  moves : ℕ → Reply
  eintr espipe fails : Reply

-- `aborts` is the end of the program at a failed assertion.
pub data Io {ℓ} (A : Type ℓ) : Type ℓ where
  done : A → List Reply → Io A
  failed : Error → Io A
  waiting aborts : Io A

infixl 5 ◌>>=◌
abbrev pub ◌>>=◌ {ℓ κ} : {A : Type ℓ} {B : Type κ} → Io A → (A → List Reply → Io B) → Io B
done a rs >>= f = f a rs
failed e >>= f = failed e
waiting >>= f = waiting
aborts >>= f = aborts

-- How many bytes a call moves that asks for `count`, where `left` are there.
abbrev pub moved : ℕ → ℕ → ℕ → ℕ
moved n count left = min (suc n) (min count left)

abbrev pub prepend : List ℕ → Io (List ℕ × Filedes) → Io (List ℕ × Filedes)
prepend bs (done (cs, fd) rs) = done (bs ++ cs, fd) rs
prepend bs (failed e) = failed e
prepend bs waiting = waiting
prepend bs aborts = aborts

abbrev pub advance : Filedes → ℕ → Filedes
advance fd n = record fd { offset = fd.offset + n }

-- The bytes read, in place of the buffer, and the descriptor moved on.
unfoldable pub full_read : List Reply → Filedes → ℕ → Io (List ℕ × Filedes)
full_read rs fd zero = done ([], fd) rs
full_read [] fd (suc c) = waiting
full_read (eintr ∷ rs) fd (suc c) = full_read rs fd (suc c)
full_read (espipe ∷ rs) fd (suc c) = failed read
full_read (fails ∷ rs) fd (suc c) = failed read
full_read (moves n ∷ rs) fd (suc c) =
    let ret = moved n (suc c) (length fd.contents - fd.offset) in
    let rest = full_read rs (advance fd ret) (suc c - ret) in
    if ret == 0
    then failed unexpected_end_of_file
    else prepend (take ret (drop fd.offset fd.contents)) rest

abbrev pub buffer_size : ℕ
buffer_size = 32768

-- "Manually seek to the requested position": each round reads a byte at least.
pub skip_to : ℕ → List Reply → Filedes → ℕ → Io Filedes
skip_to zero rs fd offset = done fd rs
skip_to (suc fuel) rs fd offset =
    let rest = full_read rs fd (min (offset - fd.offset) buffer_size) >>= λ (_, fd') rs'.
    skip_to fuel rs' fd' offset in
    if fd.offset == offset then done fd rs else rest

pub pipe_read : List Reply → Filedes → ℕ → ℕ → Io (List ℕ × Filedes)
pipe_read rs fd count offset =
    if ltb offset fd.offset
    then failed resource_order
    else (skip_to (offset - fd.offset) rs fd offset >>= λ fd' rs'. full_read rs' fd' count)

-- The loop of `full_pread`: it leaves the descriptor's position alone, until the file turns out to be
-- a pipe.
unfoldable pub pread_loop : List Reply → Filedes → ℕ → ℕ → Io (List ℕ × Filedes)
pread_loop rs fd zero offset = done ([], fd) rs
pread_loop [] fd (suc c) offset = waiting
pread_loop (eintr ∷ rs) fd (suc c) offset = pread_loop rs fd (suc c) offset
pread_loop (espipe ∷ rs) fd (suc c) offset =
    pipe_read rs (record fd { is_pipe = true }) (suc c) offset
pread_loop (fails ∷ rs) fd (suc c) offset = failed read
pread_loop (moves n ∷ rs) fd (suc c) offset =
    let ret = moved n (suc c) (length fd.contents - offset) in
    let rest = pread_loop rs fd (suc c - ret) (offset + ret) in
    if ret == 0
    then failed unexpected_end_of_file
    else prepend (take ret (drop offset fd.contents)) rest

unfoldable pub full_pread : List Reply → Filedes → ℕ → ℕ → Io (List ℕ × Filedes)
full_pread rs fd count offset =
    if fd.is_pipe then pipe_read rs fd count offset else pread_loop rs fd count offset

-- A write over what is there; a gap behind the end of the file is filled with zeros.
unfoldable pub overwrite : ℕ → List ℕ → List ℕ → List ℕ
overwrite zero bs s = bs ++ drop (length bs) s
overwrite (suc offset) bs [] = 0 ∷ overwrite offset bs []
overwrite (suc offset) bs (b ∷ s) = b ∷ overwrite offset bs s

-- What the file holds after a failure is not modelled.
unfoldable pub full_write : List Reply → Filedes → List ℕ → Io Filedes
full_write rs fd [] = done fd rs
full_write [] fd (b ∷ bs) = waiting
full_write (eintr ∷ rs) fd (b ∷ bs) = full_write rs fd (b ∷ bs)
full_write (espipe ∷ rs) fd (b ∷ bs) = failed write
full_write (fails ∷ rs) fd (b ∷ bs) = failed write
full_write (moves n ∷ rs) fd (b ∷ bs) =
    let ret = min (suc n) (suc (length bs)) in
    full_write rs
      (record fd {
        contents = overwrite fd.offset (take ret (b ∷ bs)) fd.contents;
        offset = fd.offset + ret;
      })
      (drop ret (b ∷ bs))

unfoldable pub full_pwrite : List Reply → Filedes → List ℕ → ℕ → Io Filedes
full_pwrite rs fd [] offset = done fd rs
full_pwrite [] fd (b ∷ bs) offset = waiting
full_pwrite (eintr ∷ rs) fd (b ∷ bs) offset = full_pwrite rs fd (b ∷ bs) offset
full_pwrite (espipe ∷ rs) fd (b ∷ bs) offset = failed write
full_pwrite (fails ∷ rs) fd (b ∷ bs) offset = failed write
full_pwrite (moves n ∷ rs) fd (b ∷ bs) offset =
    let ret = min (suc n) (suc (length bs)) in
    full_pwrite rs (record fd { contents = overwrite offset (take ret (b ∷ bs)) fd.contents })
      (drop ret (b ∷ bs)) (offset + ret)
