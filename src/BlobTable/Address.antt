-- ===== src/BlobTable/Address.antt =====
-- The blob at an address of src/blob_table.c: a bucket after its blob is taken out, or stored anew.
use wimlib.Common.{
  ℕ, ◌≤◌, ◌≡◌, refl, ap, ◌∙◌, Bool, true, false, List, [], ◌∷◌, ◌==◌, ==_iff, arith, none, some,
  Bool-cases, inl, inr, if-cases,
}
use wimlib.Common.Bytes.{All}
use wimlib.Sha1.{hashes_equal, hashes_equal_self}
use wimlib.BlobTable.{Blob, find, remove_address, store_blob}
use wimlib.BlobTable.Buckets.{count}
use wimlib.BlobTable.Lookup.{has_hash, has_address}

-- Each blob at the address has the digest.
abbrev pub Agrees : ℕ → List ℕ → List Blob → Type 0
Agrees a hash = All (λ (x : Blob). x.address ≡ a → x.hash ≡ hash)

some_eq : {x y : Blob} → some x ≡ some y → x ≡ y
some_eq e = cc

-- A digest that is not found stands nowhere.
pub find-none-count :
    (hash : List ℕ) (xs : List Blob) → find hash xs ≡ none → count (has_hash hash) xs ≡ 0
unfolding find count
find-none-count hash [] e = refl
find-none-count hash (x ∷ xs) e = elim (if-cases (hashes_equal hash x.hash) e) [
  | inl (h, e') ↦ cc
  | inr (h, e') ↦ rw h (omega (arith, find-none-count hash xs e'))
]

pub count-find-none :
    (hash : List ℕ) (xs : List Blob) → count (has_hash hash) xs ≡ 0 → find hash xs ≡ none
unfolding find count
count-find-none hash [] e = refl
count-find-none hash (x ∷ xs) e = elim (Bool-cases (hashes_equal hash x.hash)) [
  | inl h ↦ absurd (ground arith)
  | inr h ↦ rw h (count-find-none hash xs (ground arith))
]

-- A blob that is found is there.
pub find-count :
    (hash : List ℕ) (xs : List Blob) (test : Blob → Bool) (b : Blob)
    → find hash xs ≡ some b
    → test b ≡ true
    → 1 ≤ count test xs
unfolding find count
find-count hash [] test b e h = cc
find-count hash (x ∷ xs) test b e h = elim (if-cases (hashes_equal hash x.hash) e) [
  | inl (h', e') ↦ rw (ap test (some_eq e') ∙ h) (omega arith)
  | inr (h', e') ↦ omega (arith, find-count hash xs test b e' h)
]

none_at : (a : ℕ) (hash : List ℕ) (xs : List Blob) → count (has_address a) xs ≡ 0 → Agrees a hash xs
unfolding count
none_at a hash [] e = tt
none_at a hash (x ∷ xs) e =
    ((λ h. absurd (ground (arith, ==_iff x.address a))), none_at a hash xs (ground arith))

-- Where addresses are distinct, the blob that is found is the only one at its address.
pub find-Agrees :
    (hash : List ℕ) (xs : List Blob) (b : Blob)
    → find hash xs ≡ some b
    → count (has_address b.address) xs ≤ 1
    → Agrees b.address b.hash xs
unfolding find count
find-Agrees hash [] b e h = tt
find-Agrees hash (x ∷ xs) b e h = elim (if-cases (hashes_equal hash x.hash) e) [
  | inl (h', e') ↦ (
    (λ k. ap (λ (y : Blob). y.hash) (some_eq e')),
    none_at b.address b.hash xs (first_at (ap (λ (y : Blob). y.address) (some_eq e'))),
  )
  | inr (h', e') ↦ (
    (λ k. absurd (twice k (find-count hash xs (has_address b.address) b e' ((==_iff _ _).1 refl)))),
    find-Agrees hash xs b e' (ground arith),
  )
]
  where
    first_at : x.address ≡ b.address → count (has_address b.address) xs ≡ 0
    first_at k = ground (arith, ==_iff x.address b.address)

    twice : x.address ≡ b.address → 1 ≤ count (has_address b.address) xs → ⊥
    twice k more = ground (arith, ==_iff x.address b.address)

-- Taking out the blob at `a`.
pub find-remove_ne :
    (hash : List ℕ) (xs : List Blob) (a : ℕ) (own : List ℕ)
    → Agrees a own xs
    → hashes_equal hash own ≡ false
    → find hash (remove_address a xs) ≡ find hash xs
unfolding find remove_address
find-remove_ne hash [] a own g ne = refl
find-remove_ne hash (x ∷ xs) a own g ne = elim (Bool-cases (x.address == a)) [
  | inl e ↦ rw (e, ap (hashes_equal hash) (g.0 ((==_iff _ _).0 e)) ∙ ne) refl
  | inr e ↦ rw (e, find-remove_ne hash xs a own g.1 ne) refl
]

pub find-remove_self :
    (own : List ℕ) (xs : List Blob) (b : Blob)
    → Agrees b.address own xs
    → count (has_hash own) xs ≤ 1
    → find own xs ≡ some b
    → find own (remove_address b.address xs) ≡ none
unfolding find remove_address count
find-remove_self own [] b g one e = refl
find-remove_self own (x ∷ xs) b g one e = elim (Bool-cases (x.address == b.address)) [
  | inl h ↦ rw h (
      count-find-none own xs
        (rest_without (ap (hashes_equal own) (g.0 ((==_iff _ _).0 h)) ∙ hashes_equal_self own)))
  | inr h ↦ elim (if-cases (hashes_equal own x.hash) e) [
    | inl (h', e') ↦ absurd (other h (ap (λ (y : Blob). y.address) (some_eq e')))
    | inr (h', e') ↦ rw (h, h') (find-remove_self own xs b g.1 (ground arith) e')
  ]
]
  where
    rest_without : hashes_equal own x.hash ≡ true → count (has_hash own) xs ≡ 0
    rest_without h = ground arith

    other : (x.address == b.address) ≡ false → x.address ≡ b.address → ⊥
    other h k = ground (arith, ==_iff x.address b.address)

-- Storing a blob with the same digest at its address.
pub find-store_ne :
    (hash : List ℕ) (xs : List Blob) (b : Blob)
    → Agrees b.address b.hash xs
    → hashes_equal hash b.hash ≡ false
    → find hash (store_blob b xs) ≡ find hash xs
unfolding find store_blob
find-store_ne hash [] b g ne = refl
find-store_ne hash (x ∷ xs) b g ne = elim (Bool-cases (x.address == b.address)) [
  | inl e ↦ rw (e, ne, ap (hashes_equal hash) (g.0 ((==_iff _ _).0 e)) ∙ ne) refl
  | inr e ↦ rw (e, find-store_ne hash xs b g.1 ne) refl
]

pub find-store_self :
    (xs : List Blob) (old b : Blob)
    → old.address ≡ b.address
    → find b.hash xs ≡ some old
    → find b.hash (store_blob b xs) ≡ some b
unfolding find store_blob
find-store_self [] old b k e = cc
find-store_self (x ∷ xs) old b k e = elim (Bool-cases (x.address == b.address)) [
  | inl h ↦ rw (h, hashes_equal_self b.hash) refl
  | inr h ↦ elim (if-cases (hashes_equal b.hash x.hash) e) [
    | inl (h', e') ↦ absurd (other h (ap (λ (y : Blob). y.address) (some_eq e') ∙ k))
    | inr (h', e') ↦ rw (h, h') (find-store_self xs old b k e')
  ]
]
  where
    other : (x.address == b.address) ≡ false → x.address ≡ b.address → ⊥
    other h k' = ground (arith, ==_iff x.address b.address)
