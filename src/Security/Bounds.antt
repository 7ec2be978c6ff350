-- ===== src/Security/Bounds.antt =====
-- What `read_wim_security_data` of src/security.c accepts.
use wimlib.Common.{
  ℕ, zero, suc, ◌+◌, ◌*◌, ◌≤◌, ◌≡◌, refl, ap, sym, ◌∙◌, Bool, true, false, not, List, [], ◌∷◌,
  length, take, drop, ltb, ◌==◌, ==_iff, if◌then◌else◌, arith, Option, none, some, Bool-cases, inl,
  inr, subst,
}
use wimlib.Common.Bytes.{get_le}
use wimlib.Error.{Error, Result, ok, err, nomem, invalid_metadata_resource, ◌>>=◌}
use wimlib.FileIo.Read.{drop_more}
use wimlib.TaggedItems.{align8}
use wimlib.Security.{
  SecurityData, read_sizes, read_descriptors, read_entries, read_wim_security_data,
}

unfoldable pub sum : List ℕ → ℕ
sum [] = 0
sum (x ∷ xs) = x + sum xs

-- Each descriptor is the bytes of its size, one behind the other from `pos` on.
unfoldable pub Holds : List ℕ → ℕ → List ℕ → List (List ℕ) → Type 0
Holds buf pos [] [] = Unit
Holds buf pos (size ∷ sizes) (d ∷ ds) =
    (d ≡ take size (drop pos buf)) × Holds buf (pos + size) sizes ds
Holds buf pos [] (d ∷ ds) = ⊥
Holds buf pos (size ∷ sizes) [] = ⊥

bind_ok :
    {A B : Type 0} {f : A → Result B} {b : B} (r : Result A)
    → (r >>= f) ≡ ok b
    → (a : A) × (r ≡ ok a) × (f a ≡ ok b)
bind_ok (ok a) e = (a, refl, e)
bind_ok (err x) e = cc

ok_value : {A : Type 0} {a b : A} → ok a ≡ ok b → a ≡ b
ok_value e = cc

some_value : {A : Type 0} {a b : A} → some a ≡ some b → a ≡ b
some_value e = cc

length-read_sizes :
    (n : ℕ) (p : List ℕ) (sizes : List ℕ) → read_sizes n p ≡ some sizes → length sizes ≡ n
unfolding read_sizes
length-read_sizes zero p sizes = λ e. sym (ap length (some_value e))
length-read_sizes (suc n) p sizes = elim (Bool-cases (ltb 0xFFFFFFFF (get_le (take 8 p)))) [
  | inl h ↦ rw h (λ e. cc)
  | inr h ↦ rw h (λ e. longer (length-read_sizes n (drop 8 p)) (read_sizes n (drop 8 p)) refl e)
]
  where
    longer :
        ((xs : List ℕ) → read_sizes n (drop 8 p) ≡ some xs → length xs ≡ n)
        → (o : Option (List ℕ)) → read_sizes n (drop 8 p) ≡ o
        → (elim o [ none ↦ none | some xs ↦ some (get_le (take 8 p) ∷ xs) ]) ≡ some sizes
        → length sizes ≡ suc n
    longer ih none f e = cc
    longer ih (some xs) f e = sym (ap length (some_value e)) ∙ ap suc (ih xs f)

module _ (memory : ℕ → Bool) (buf : List ℕ) (total_length : ℕ) where
  behind :
      (i pos size : ℕ) (sizes d : List ℕ) (ds : List (List ℕ))
      → ((rest : List (List ℕ))
          → read_descriptors memory total_length (suc i) (pos + size) (drop (pos + size) buf) sizes
            ≡ ok rest
          → Holds buf (pos + size) sizes rest × (pos + size + sum sizes ≤ total_length))
      → d ≡ take size (drop pos buf)
      → (read_descriptors memory total_length (suc i) (pos + size) (drop size (drop pos buf)) sizes
          >>= λ ds. ok (d ∷ ds))
        ≡ ok ds
      → Holds buf pos (size ∷ sizes) ds × (pos + sum (size ∷ sizes) ≤ total_length)
  unfolding Holds sum
  behind i pos size sizes d ds ih front e =
      let (rest, f, g) =
        bind_ok
          (read_descriptors memory total_length (suc i) (pos + size) (drop size (drop pos buf))
            sizes)
          e in
      let (held, fits) = ih rest (
        ap (λ p. read_descriptors memory total_length (suc i) (pos + size) p sizes)
          (sym (drop_more pos size buf))
        ∙ f) in
      subst (λ ds. Holds buf pos (size ∷ sizes) ds × (pos + sum (size ∷ sizes) ≤ total_length))
        (ok_value g) ((front, held), omega (arith, fits))

  read_descriptors-Holds :
      (i pos : ℕ) (sizes : List ℕ) (ds : List (List ℕ))
      → pos ≤ total_length
      → read_descriptors memory total_length i pos (drop pos buf) sizes ≡ ok ds
      → Holds buf pos sizes ds × (pos + sum sizes ≤ total_length)
  unfolding read_descriptors Holds sum
  read_descriptors-Holds i pos [] ds le = λ e.
      subst (λ ds. Holds buf pos [] ds × (pos + sum [] ≤ total_length)) (ok_value e)
        (tt, omega arith)
  read_descriptors-Holds i pos (size ∷ sizes) ds le = elim (Bool-cases (size == 0)) [
    | inl h ↦ rw h (
        behind i pos size sizes [] ds
          (λ rest.
            read_descriptors-Holds (suc i) (pos + size) sizes rest
              (omega (arith, le, (==_iff size 0).0 h)))
          (ap (λ n. take n (drop pos buf)) (sym ((==_iff size 0).0 h))))
    | inr h ↦ elim (Bool-cases (ltb total_length (pos + size))) [
      | inl k ↦ rw (h, k) (λ e. cc)
      | inr k ↦ elim (Bool-cases (memory (3 + i))) [
        | inl l ↦
            rw (h, k, l)
              (behind i pos size sizes (take size (drop pos buf)) ds
                (λ rest. read_descriptors-Holds (suc i) (pos + size) sizes rest (ground arith))
                refl)
        | inr l ↦ rw (h, k, l) (λ e. cc)
      ]
    ]
  ]

guard_ok :
    {A : Type 0} (e : Error) (b : Bool) {r : Result A} {a : A}
    → (if b then err e else r) ≡ ok a
    → (b ≡ false) × (r ≡ ok a)
guard_ok e true h = cc
guard_ok e false h = (refl, h)

-- Where the entries are in the buffer.
pub record IsWithin (buf : List ℕ) (sd : SecurityData) : Type 0 where
  pub sizes : length sd.sizes ≡ sd.num_entries
  pub descriptors : Holds buf (8 + sd.num_entries * 8) sd.sizes sd.descriptors
  pub fit : 8 + sd.num_entries * 8 + sum sd.sizes ≤ sd.total_length
  pub within : sd.total_length ≤ length buf

read_entries-IsWithin :
    (memory : ℕ → Bool) (buf : List ℕ) (total_length num_entries : ℕ) (sd : SecurityData)
    → total_length ≤ length buf
    → 8 + num_entries * 8 ≤ total_length
    → read_entries memory total_length num_entries buf ≡ ok sd
    → IsWithin buf sd
unfolding read_entries Holds sum
read_entries-IsWithin memory buf tl n sd within room = elim (Bool-cases (n == 0)) [
  | inl h ↦ rw h (λ e.
      subst (IsWithin buf) (ok_value e)
        (record { sizes = refl; descriptors = tt; fit = omega (arith, room); within = within }))
  | inr h ↦ elim (Bool-cases (memory 1)) [
    | inr k ↦ rw (h, k) (λ e. cc)
    | inl k ↦ rw (h, k) (with_sizes (read_sizes n (drop 8 buf)) refl)
  ]
]
  where
    with_sizes :
        (o : Option (List ℕ))
        → read_sizes n (drop 8 buf) ≡ o
        → (elim o [
          | none ↦ err invalid_metadata_resource
          | some sizes ↦
              if memory 2
              then (read_descriptors memory tl 0 (8 + n * 8) (drop (8 + n * 8) buf) sizes >>= λ ds.
                  ok (record {
                    total_length = tl;
                    num_entries = n;
                    sizes = sizes;
                    descriptors = ds;
                  }))
              else err nomem
        ])
          ≡ ok sd
        → IsWithin buf sd
    with_sizes none f = λ e. cc
    with_sizes (some sizes) f = elim (Bool-cases (memory 2)) [
      | inr l ↦ rw l (λ e. cc)
      | inl l ↦ rw l (λ e.
          let (ds, g, same) =
            bind_ok (read_descriptors memory tl 0 (8 + n * 8) (drop (8 + n * 8) buf) sizes) e in
          let (held, fits) = read_descriptors-Holds memory buf tl 0 (8 + n * 8) sizes ds room g in
          subst (IsWithin buf) (ok_value same) (record {
            sizes = length-read_sizes n (drop 8 buf) sizes f;
            descriptors = held;
            fit = fits;
            within = within;
          }))
    ]

-- What `read_wim_security_data` returns lies within the buffer, whatever allocations succeed: there are
-- as many sizes as entries, each descriptor is the bytes of its size at its place behind the sizes, and
-- all of them end within the total length, which is at most the buffer's.
pub read_wim_security_data-IsWithin :
    (memory : ℕ → Bool) (buf : List ℕ) (sd : SecurityData)
    → read_wim_security_data memory buf ≡ ok sd
    → IsWithin buf sd
unfolding read_wim_security_data
read_wim_security_data-IsWithin memory buf sd e0 =
    let (h1, e1) = guard_ok invalid_metadata_resource (ltb (length buf) 8) e0 in
    let (h2, e2) = guard_ok nomem (not (memory 0)) e1 in
    let (h3, e3) = guard_ok invalid_metadata_resource (ltb 0x80000000 n) e2 in
    let (h4, e4) = guard_ok invalid_metadata_resource (ltb (length buf) tl) e3 in
    let (h5, e5) = guard_ok invalid_metadata_resource (ltb tl (8 + n * 8)) e4 in
    read_entries-IsWithin memory buf tl n sd (ground (arith, h4)) (ground (arith, h5)) e5
  where
    n : ℕ
    n = get_le (take 4 (drop 4 buf))

    tl : ℕ
    tl = if align8 (get_le (take 4 buf)) == 0 then 8 else align8 (get_le (take 4 buf))
