-- ===== src/Security/Entries.antt =====
-- The sizes and the descriptors that src/security.c writes are read back.
use wimlib.Common.{
  ℕ, suc, ◌+◌, ◌*◌, ◌^◌, ◌≤◌, ◌<◌, ◌≡◌, refl, ap, ap₂, sym, ◌∙◌, Bool, true, false, List, [], ◌∷◌,
  ◌++◌, length, take, drop, ltb, ◌==◌, ==_iff, if◌then◌else◌, arith, Option, none, some, Bool-cases,
  inl, inr, length-append, append_assoc,
}
use wimlib.Common.Bytes.{get_le-put_le, take-append, drop-append}
use wimlib.Error.{Result, ok, err, nomem, invalid_metadata_resource, ◌>>=◌}
use wimlib.FileIo.Read.{drop_more}
use wimlib.Security.{read_sizes, read_descriptors, read_entries, write_sizes, write_descriptors}
use wimlib.Security.Bounds.{sum}

-- Each size is that of the descriptor.
unfoldable pub Sized : List ℕ → List (List ℕ) → Type 0
Sized [] [] = Unit
Sized (size ∷ sizes) (d ∷ ds) = (size ≡ length d) × Sized sizes ds
Sized [] (d ∷ ds) = ⊥
Sized (size ∷ sizes) [] = ⊥

pub length-write_sizes :
    (sizes : List ℕ) → length (write_sizes (length sizes) sizes) ≡ length sizes * 8
unfolding write_sizes
length-write_sizes [] = refl
length-write_sizes (size ∷ sizes) = omega (arith, length-write_sizes sizes)

-- What one round of each loop returns, from its own part and from the rest.
abbrev size_step : ℕ → Option (List ℕ) → Option (List ℕ)
size_step size rest =
    if ltb 0xFFFFFFFF size
    then none
    else elim rest [ none ↦ none | some sizes ↦ some (size ∷ sizes) ]

read-write_sizes :
    (sizes tail : List ℕ)
    → sum sizes < 2 ^ 32
    → read_sizes (length sizes) (write_sizes (length sizes) sizes ++ tail) ≡ some sizes
unfolding read_sizes write_sizes sum
read-write_sizes [] tail h = refl
read-write_sizes (size ∷ sizes) tail h =
    ap₂ size_step (get_le-put_le 8 size (omega arith)) (read-write_sizes sizes tail (omega arith))
    ∙ rw small refl
  where
    small : ltb 0xFFFFFFFF size ≡ false
    small = ground arith

pub take_whole : (d : List ℕ) → take (length d) d ≡ d
take_whole [] = refl
take_whole (x ∷ d) = ap (λ s. x ∷ s) (take_whole d)

pub length-write_descriptors :
    (sizes : List ℕ) (ds : List (List ℕ))
    → Sized sizes ds
    → length (write_descriptors (length sizes) sizes ds) ≡ sum sizes
unfolding write_descriptors Sized sum
length-write_descriptors [] [] s = refl
length-write_descriptors [] (d ∷ ds) s = absurd s
length-write_descriptors (size ∷ sizes) [] s = absurd s
length-write_descriptors (size ∷ sizes) (d ∷ ds) (e, s) = omega (
  arith,
  e,
  ap length (ap (λ n. take n d) e ∙ take_whole d),
  length-write_descriptors sizes ds s,
  length-append (take size d) (write_descriptors (length sizes) sizes ds),
)

-- A descriptor at the front of what is behind it.
front :
    (size : ℕ) (d rest tail : List ℕ)
    → size ≡ length d
    → (take size d ++ rest) ++ tail ≡ d ++ (rest ++ tail)
front size d rest tail e =
    append_assoc (take size d) rest tail
    ∙ ap (λ s. s ++ (rest ++ tail)) (ap (λ n. take n d) e ∙ take_whole d)

no_bytes : (d : List ℕ) → length d ≡ 0 → [] ≡ d
no_bytes [] e = refl
no_bytes (x ∷ d) e = absurd (omega (arith, e))

module _ (memory : ℕ → Bool) (enough : (i : ℕ) → memory i ≡ true) (total_length : ℕ) where
  abbrev descriptor_step :
      (i pos size : ℕ) → Result (List (List ℕ)) → List ℕ → Result (List (List ℕ))
  descriptor_step i pos size rest d =
      if size == 0
      then (rest >>= λ ds. ok ([] ∷ ds))
      else if ltb total_length (pos + size)
      then err invalid_metadata_resource
      else if memory (3 + i)
      then (rest >>= λ ds. ok (d ∷ ds))
      else err nomem

  descriptor_step_ok :
      (i pos size : ℕ) (d : List ℕ) (ds : List (List ℕ))
      → size ≡ length d
      → pos + size ≤ total_length
      → descriptor_step i pos size (ok ds) d ≡ ok (d ∷ ds)
  descriptor_step_ok i pos size d ds e le = elim (Bool-cases (size == 0)) [
    | inl h ↦ rw h (ap (λ s. ok (s ∷ ds)) (no_bytes d (omega (arith, e, (==_iff size 0).0 h))))
    | inr h ↦ rw (h, fits, enough (3 + i)) refl
  ]
    where
      fits : ltb total_length (pos + size) ≡ false
      fits = ground arith

  read-write_descriptors :
      (i pos : ℕ) (sizes : List ℕ) (ds : List (List ℕ)) (tail : List ℕ)
      → Sized sizes ds
      → pos + sum sizes ≤ total_length
      → read_descriptors memory total_length i pos
          (write_descriptors (length sizes) sizes ds ++ tail)
          sizes
        ≡ ok ds
  unfolding read_descriptors write_descriptors Sized sum
  read-write_descriptors i pos [] [] tail s le = refl
  read-write_descriptors i pos [] (d ∷ ds) tail s le = absurd s
  read-write_descriptors i pos (size ∷ sizes) [] tail s le = absurd s
  read-write_descriptors i pos (size ∷ sizes) (d ∷ ds) tail (e, s) le =
      let rest = write_descriptors (length sizes) sizes ds in
      let whole = front size d rest tail e in
      ap₂ (descriptor_step i pos size)
        (ap (λ p. read_descriptors memory total_length (suc i) (pos + size) p sizes)
            (ap₂ (λ (n : ℕ) (p : List ℕ). drop n p) e whole ∙ drop-append d (rest ++ tail))
          ∙ read-write_descriptors (suc i) (pos + size) sizes ds tail s (omega arith))
        (ap₂ (λ (n : ℕ) (p : List ℕ). take n p) e whole ∙ take-append d (rest ++ tail))
      ∙ descriptor_step_ok i pos size d ds e (omega arith)

  pub read-write_entries :
      (sizes : List ℕ) (ds : List (List ℕ)) (buf tail : List ℕ)
      → drop 8 buf
        ≡ write_sizes (length sizes) sizes ++ (write_descriptors (length sizes) sizes ds ++ tail)
      → Sized sizes ds
      → 8 + length sizes * 8 + sum sizes ≤ total_length
      → total_length < 2 ^ 32
      → read_entries memory total_length (length sizes) buf
        ≡ ok (record {
          total_length = total_length;
          num_entries = length sizes;
          sizes = sizes;
          descriptors = ds;
        })
  unfolding read_entries Sized
  read-write_entries [] [] buf tail e s le h = refl
  read-write_entries [] (d ∷ ds) buf tail e s le h = absurd s
  read-write_entries (size ∷ sizes) ds buf tail e s le h =
      rw (some_entry, enough 1, all_sizes, enough 2)
        (ap
          (λ r. r >>= λ ds. ok (record {
            total_length = total_length;
            num_entries = length (size ∷ sizes);
            sizes = size ∷ sizes;
            descriptors = ds;
          }))
          all_descriptors)
    where
      some_entry : (length (size ∷ sizes) == 0) ≡ false
      some_entry = ground arith

      all_sizes : read_sizes (length (size ∷ sizes)) (drop 8 buf) ≡ some (size ∷ sizes)
      all_sizes =
          ap (read_sizes (length (size ∷ sizes))) e
          ∙ read-write_sizes (size ∷ sizes)
              (write_descriptors (length (size ∷ sizes)) (size ∷ sizes) ds ++ tail) (omega arith)

      behind :
          drop (8 + length (size ∷ sizes) * 8) buf
          ≡ write_descriptors (length (size ∷ sizes)) (size ∷ sizes) ds ++ tail
      behind =
          sym (drop_more 8 (length (size ∷ sizes) * 8) buf)
          ∙ ap₂ (λ (n : ℕ) (p : List ℕ). drop n p) (sym (length-write_sizes (size ∷ sizes))) e
          ∙ drop-append (write_sizes (length (size ∷ sizes)) (size ∷ sizes)) _

      all_descriptors :
          read_descriptors memory total_length 0
            (8 + length (size ∷ sizes) * 8)
            (drop (8 + length (size ∷ sizes) * 8) buf)
            (size ∷ sizes)
          ≡ ok ds
      all_descriptors =
          ap
            (λ p.
              read_descriptors memory total_length 0 (8 + length (size ∷ sizes) * 8) p
                (size ∷ sizes))
            behind
          ∙ read-write_descriptors 0 (8 + length (size ∷ sizes) * 8) (size ∷ sizes) ds tail s le
