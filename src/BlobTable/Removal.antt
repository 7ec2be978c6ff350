-- ===== src/BlobTable/Removal.antt =====
-- `blob_table_unlink` of src/blob_table.c, and storing a blob in place.
use wimlib.Common.{
  ℕ, zero, suc, ◌+◌, ◌≤◌, ◌≡◌, refl, ap, sym, ◌∙◌, Bool, List, [], ◌∷◌, ◌++◌, get_or, map, ◌==◌,
  ==_iff, if◌then◌else◌, arith, none, some, Bool-cases, inl, inr, length-map,
}
use wimlib.Common.Bytes.{All}
use wimlib.Sha1.{hashes_equal, hashes_equal→eq}
use wimlib.BlobTable.{Blob, BlobTable, index, find, remove_address, lookup_blob, blob_table_unlink}
use wimlib.BlobTable.Buckets.{contents, count, count-append, Placed}
use wimlib.BlobTable.Lookup.{has_hash, has_address}
use wimlib.BlobTable.Address.{Agrees, find-count, find-remove_ne, find-remove_self}
use wimlib.BlobTable.Invariant.{IsTable, any_blob, lookup-contents, lookup-Agrees}

module _ (a : ℕ) where
  count-remove_le :
      (test : Blob → Bool) (xs : List Blob) → count test (remove_address a xs) ≤ count test xs
  unfolding count remove_address
  count-remove_le test [] = omega arith
  count-remove_le test (x ∷ xs) = elim (Bool-cases (x.address == a)) [
    | inl e ↦ rw e (omega arith)
    | inr e ↦ rw e (omega (arith, count-remove_le test xs))
  ]

  remove_absent : (xs : List Blob) → count (has_address a) xs ≡ 0 → remove_address a xs ≡ xs
  unfolding count remove_address
  remove_absent [] e = refl
  remove_absent (x ∷ xs) e = elim (Bool-cases (x.address == a)) [
    | inl h ↦ absurd (ground arith)
    | inr h ↦ rw (h, remove_absent xs (ground arith)) refl
  ]

  count-remove :
      (xs : List Blob)
      → count (has_address a) xs ≤ 1
      → count any_blob (remove_address a xs) + count (has_address a) xs ≡ count any_blob xs
  unfolding count remove_address
  count-remove [] h = omega arith
  count-remove (x ∷ xs) h = elim (Bool-cases (x.address == a)) [
    | inl e ↦ rw e (ground arith)
    | inr e ↦ rw e (omega (arith, count-remove xs (ground arith)))
  ]

  pub count-remove_all_le :
      (test : Blob → Bool) (array : List (List Blob))
      → count test (contents (map (remove_address a) array)) ≤ count test (contents array)
  unfolding contents count
  count-remove_all_le test [] = omega arith
  count-remove_all_le test (xs ∷ array) = omega (
    arith,
    count-remove_all_le test array,
    count-remove_le test xs,
    count-append test xs (contents array),
    count-append test (remove_address a xs) (contents (map (remove_address a) array)),
  )

  pub count-remove_all :
      (array : List (List Blob))
      → count (has_address a) (contents array) ≤ 1
      → count any_blob (contents (map (remove_address a) array))
          + count (has_address a) (contents array)
        ≡ count any_blob (contents array)
  unfolding contents count
  count-remove_all [] h = omega arith
  count-remove_all (xs ∷ array) h =
      let parts = count-append (has_address a) xs (contents array) in
      omega (
        arith,
        parts,
        count-remove_all array (omega (arith, parts)),
        count-remove xs (omega (arith, parts)),
        count-append any_blob xs (contents array),
        count-append any_blob (remove_address a xs) (contents (map (remove_address a) array)),
      )

  remove-All : (P : Blob → Type 0) (xs : List Blob) → All P xs → All P (remove_address a xs)
  unfolding remove_address
  remove-All P [] p = tt
  remove-All P (x ∷ xs) p = elim (Bool-cases (x.address == a)) [
    | inl e ↦ rw e p.1
    | inr e ↦ rw e (p.0, remove-All P xs p.1)
  ]

  pub remove-Placed :
      (mask j : ℕ) (array : List (List Blob))
      → Placed mask j array
      → Placed mask j (map (remove_address a) array)
  unfolding Placed
  remove-Placed mask j [] p = tt
  remove-Placed mask j (xs ∷ array) p =
      (remove-All (λ x. index x.hash mask ≡ j) xs p.0, remove-Placed mask (suc j) array p.1)

-- One bucket has what all of them have.
All-front : (P : Blob → Type 0) (xs ys : List Blob) → All P (xs ++ ys) → All P xs × All P ys
All-front P [] ys p = (tt, p)
All-front P (x ∷ xs) ys p = let (q, r) = All-front P xs ys p.1 in ((p.0, q), r)

pub bucket-All :
    (P : Blob → Type 0) (array : List (List Blob)) (i : ℕ)
    → All P (contents array)
    → All P (get_or array i [])
unfolding contents
bucket-All P [] i p = tt
bucket-All P (xs ∷ array) zero p = (All-front P xs (contents array) p).0
bucket-All P (xs ∷ array) (suc i) p = bucket-All P array i (All-front P xs (contents array) p).1

pub bucket-count_le :
    (test : Blob → Bool) (array : List (List Blob)) (i : ℕ)
    → count test (get_or array i []) ≤ count test (contents array)
unfolding contents count
bucket-count_le test [] i = omega arith
bucket-count_le test (xs ∷ array) zero = omega (arith, count-append test xs (contents array))
bucket-count_le test (xs ∷ array) (suc i) =
    omega (arith, bucket-count_le test array i, count-append test xs (contents array))

pub get_or-map :
    (f : List Blob → List Blob) (array : List (List Blob)) (i : ℕ)
    → f [] ≡ []
    → get_or (map f array) i [] ≡ f (get_or array i [])
get_or-map f [] i e = sym e
get_or-map f (x ∷ array) zero e = refl
get_or-map f (x ∷ array) (suc i) e = get_or-map f array i e

-- The blob that the table has for its digest is unlinked: the table is well-formed again, has
-- none for that digest, and what it had for every other.
pub blob_table_unlink-IsTable :
    (t : BlobTable) (b : Blob) (hash : List ℕ)
    → IsTable t
    → lookup_blob t b.hash ≡ some b
    → IsTable (blob_table_unlink t b.address)
      × (lookup_blob (blob_table_unlink t b.address) hash
          ≡ (if hashes_equal hash b.hash then none else lookup_blob t hash))
unfolding blob_table_unlink lookup_blob
blob_table_unlink-IsTable t b hash v e = (
  record {
    order = v.order;
    capacity = v.capacity;
    buckets = length-map t.array _ ∙ v.buckets;
    placed = remove-Placed b.address t.mask 0 t.array v.placed;
    counted =
        omega (arith, v.counted, count-remove_all b.address t.array (v.addresses b.address), there);
    hashes = λ h. omega (arith, v.hashes h, count-remove_all_le b.address (has_hash h) t.array);
    addresses =
        λ a. omega (arith, v.addresses a, count-remove_all_le b.address (has_address a) t.array);
  },
  elim (Bool-cases (hashes_equal hash b.hash)) [
    | inl h ↦ rw (h, hashes_equal→eq hash b.hash h) (moved b.hash ∙ gone)
    | inr h ↦ rw h (moved hash ∙ find-remove_ne hash (bucket hash) b.address b.hash (own hash) h)
  ],
)
  where
    bucket : List ℕ → List Blob
    bucket h = get_or t.array (index h t.mask) []

    moved :
        (h : List ℕ)
        → find h (get_or (map (remove_address b.address) t.array) (index h t.mask) [])
          ≡ find h (remove_address b.address (bucket h))
    moved h = ap (find h) (
        get_or-map (remove_address b.address) t.array (index h t.mask)
          (unfold remove_address in refl))

    there : 1 ≤ count (has_address b.address) (contents t.array)
    there =
        find-count b.hash (contents t.array) (has_address b.address) b
          (sym (lookup-contents t v b.hash) ∙ e) ((==_iff _ _).1 refl)

    own : (h : List ℕ) → Agrees b.address b.hash (bucket h)
    own h = bucket-All _ t.array (index h t.mask) (lookup-Agrees t v b e)

    few : (h : List ℕ) → count (has_hash h) (bucket h) ≤ 1
    few h = omega (arith, bucket-count_le (has_hash h) t.array (index h t.mask), v.hashes h)

    gone : find b.hash (remove_address b.address (bucket b.hash)) ≡ none
    gone = find-remove_self b.hash (bucket b.hash) b (own b.hash) (few b.hash) e
