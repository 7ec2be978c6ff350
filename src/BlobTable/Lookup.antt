-- ===== src/BlobTable/Lookup.antt =====
-- `lookup_blob` of src/blob_table.c after an insertion, a rehash and the removal of a blob.
use wimlib.Common.{
  ℕ, zero, suc, ◌+◌, ◌≤◌, ◌<◌, ◌≡◌, ◌≢◌, refl, ap, sym, ◌∙◌, Bool, true, false, List, [], ◌∷◌, ◌++◌,
  length, set, get_or, ◌==◌, if◌then◌else◌, arith, Option, none, some, Bool-cases, inl, inr,
  length-set,
}
use native.Mathlib.Decide.{ℕ_discrete}
use wimlib.Sha1.{hashes_equal, hashes_equal→eq}
use wimlib.BlobTable.{Blob, index, insert_at, blob_table_insert_raw, rehash_bucket, rehash, find}
use wimlib.BlobTable.Buckets.{
  contents, count, count-append, Placed, count-insert_at, insert_at-Placed,
}

-- The test for a digest.
abbrev pub has_hash : List ℕ → Blob → Bool
has_hash hash x = hashes_equal hash x.hash

abbrev pub has_address : ℕ → Blob → Bool
has_address a x = x.address == a

-- `lookup_blob` on an array.
abbrev pub look : List ℕ → ℕ → List (List Blob) → Option Blob
look hash mask array = find hash (get_or array (index hash mask) [])

get_or-set_self :
    (array : List (List Blob)) (i : ℕ) (v : List Blob)
    → i < length array
    → get_or (set array i v) i [] ≡ v
get_or-set_self [] i v h = absurd (omega arith)
get_or-set_self (x ∷ array) zero v h = refl
get_or-set_self (x ∷ array) (suc i) v h = get_or-set_self array i v (omega arith)

get_or-set_ne :
    (array : List (List Blob)) (i j : ℕ) (v : List Blob)
    → i ≢ j
    → get_or (set array i v) j [] ≡ get_or array j []
get_or-set_ne [] i j v ne = refl
get_or-set_ne (x ∷ array) zero zero v ne = absurd (ne refl)
get_or-set_ne (x ∷ array) zero (suc j) v ne = refl
get_or-set_ne (x ∷ array) (suc i) zero v ne = refl
get_or-set_ne (x ∷ array) (suc i) (suc j) v ne = get_or-set_ne array i j v (λ e. ne (ap suc e))

pub look-insert_raw :
    (hash : List ℕ) (mask : ℕ) (array : List (List Blob)) (b : Blob)
    → index b.hash mask < length array
    → look hash mask (blob_table_insert_raw array mask b)
      ≡ (if hashes_equal hash b.hash then some b else look hash mask array)
unfolding blob_table_insert_raw
look-insert_raw hash mask array b h = elim (ℕ_discrete (index b.hash mask) (index hash mask)) [
  | yes e ↦
      ap (find hash) (
        ap
          (λ i.
            get_or (set array (index b.hash mask) (b ∷ get_or array (index b.hash mask) [])) i [])
          (sym e)
        ∙ get_or-set_self array (index b.hash mask) _ h)
      ∙ (unfold find in rw e refl)
  | no ne ↦
      ap (find hash) (get_or-set_ne array (index b.hash mask) (index hash mask) _ ne)
      ∙ skipped ne (hashes_equal hash b.hash) refl
]
  where
    skipped :
        (index b.hash mask ≢ index hash mask)
        → (t : Bool) → hashes_equal hash b.hash ≡ t
        → look hash mask array ≡ (if t then some b else look hash mask array)
    skipped ne true e = absurd (ne (ap (λ s. index s mask) (sym (hashes_equal→eq hash b.hash e))))
    skipped ne false e = refl

pub length-insert_raw :
    (array : List (List Blob)) (mask : ℕ) (b : Blob)
    → length (blob_table_insert_raw array mask b) ≡ length array
unfolding blob_table_insert_raw
length-insert_raw array mask b = length-set array _ _

-- The last blob with the digest, or what there was before.
pub last_or : List ℕ → List Blob → Option Blob → Option Blob
last_or hash [] o = o
last_or hash (x ∷ xs) o = last_or hash xs (if hashes_equal hash x.hash then some x else o)

last_or-append :
    (hash : List ℕ) (xs ys : List Blob) (o : Option Blob)
    → last_or hash (xs ++ ys) o ≡ last_or hash ys (last_or hash xs o)
unfolding last_or
last_or-append hash [] ys o = refl
last_or-append hash (x ∷ xs) ys o = last_or-append hash xs ys _

last_or_absent :
    (hash : List ℕ) (xs : List Blob) (o : Option Blob)
    → count (has_hash hash) xs ≡ 0
    → last_or hash xs o ≡ o
unfolding last_or count
last_or_absent hash [] o e = refl
last_or_absent hash (x ∷ xs) o e = ground (arith, last_or_absent hash xs o)

-- Where a digest stands once at most, its last blob is its first.
pub last_or-find :
    (hash : List ℕ) (xs : List Blob)
    → count (has_hash hash) xs ≤ 1
    → last_or hash xs none ≡ find hash xs
unfolding last_or count find
last_or-find hash [] h = refl
last_or-find hash (x ∷ xs) h = elim (Bool-cases (hashes_equal hash x.hash)) [
  | inl e ↦ rw e (last_or_absent hash xs (some x) (ground arith))
  | inr e ↦ rw e (last_or-find hash xs (ground arith))
]

module _ (mask : ℕ) (in_range : (hash : List ℕ) → index hash mask < mask + 1) where
  look-rehash_bucket :
      (hash : List ℕ) (array : List (List Blob)) (xs : List Blob)
      → length array ≡ mask + 1
      → look hash mask (rehash_bucket array mask xs) ≡ last_or hash xs (look hash mask array)
  unfolding rehash_bucket last_or
  look-rehash_bucket hash array [] len = refl
  look-rehash_bucket hash array (x ∷ xs) len =
      look-rehash_bucket hash (blob_table_insert_raw array mask x) xs
        (length-insert_raw array mask x ∙ len)
      ∙ ap (last_or hash xs)
          (look-insert_raw hash mask array x (omega (arith, in_range x.hash, len)))

  length-rehash_bucket :
      (array : List (List Blob)) (xs : List Blob)
      → length (rehash_bucket array mask xs) ≡ length array
  unfolding rehash_bucket
  length-rehash_bucket array [] = refl
  length-rehash_bucket array (x ∷ xs) =
      length-rehash_bucket (blob_table_insert_raw array mask x) xs ∙ length-insert_raw array mask x

  pub look-rehash :
      (hash : List ℕ) (array old : List (List Blob))
      → length array ≡ mask + 1
      → look hash mask (rehash array mask old) ≡ last_or hash (contents old) (look hash mask array)
  unfolding rehash contents last_or
  look-rehash hash array [] len = refl
  look-rehash hash array (xs ∷ old) len =
      look-rehash hash (rehash_bucket array mask xs) old (length-rehash_bucket array xs ∙ len)
      ∙ ap (last_or hash (contents old)) (look-rehash_bucket hash array xs len)
      ∙ sym (last_or-append hash xs (contents old) (look hash mask array))

  pub length-rehash : (array old : List (List Blob)) → length (rehash array mask old) ≡ length array
  unfolding rehash
  length-rehash array [] = refl
  length-rehash array (xs ∷ old) =
      length-rehash (rehash_bucket array mask xs) old ∙ length-rehash_bucket array xs

  count-rehash_bucket :
      (test : Blob → Bool) (array : List (List Blob)) (xs : List Blob)
      → length array ≡ mask + 1
      → count test (contents (rehash_bucket array mask xs))
        ≡ count test xs + count test (contents array)
  unfolding rehash_bucket count blob_table_insert_raw
  count-rehash_bucket test array [] len = omega arith
  count-rehash_bucket test array (x ∷ xs) len = omega (
    arith,
    count-rehash_bucket test (insert_at array (index x.hash mask) x) xs
        (length-set array _ _ ∙ len),
    count-insert_at test array (index x.hash mask) x (omega (arith, in_range x.hash, len)),
  )

  pub count-rehash :
      (test : Blob → Bool) (array old : List (List Blob))
      → length array ≡ mask + 1
      → count test (contents (rehash array mask old))
        ≡ count test (contents old) + count test (contents array)
  unfolding rehash contents count
  count-rehash test array [] len = omega arith
  count-rehash test array (xs ∷ old) len = omega (
    arith,
    count-rehash test (rehash_bucket array mask xs) old (length-rehash_bucket array xs ∙ len),
    count-rehash_bucket test array xs len,
    count-append test xs (contents old),
  )

rehash_bucket-Placed :
    (mask : ℕ) (array : List (List Blob)) (xs : List Blob)
    → Placed mask 0 array
    → Placed mask 0 (rehash_bucket array mask xs)
unfolding rehash_bucket blob_table_insert_raw
rehash_bucket-Placed mask array [] p = p
rehash_bucket-Placed mask array (x ∷ xs) p =
    rehash_bucket-Placed mask (insert_at array (index x.hash mask) x) xs
      (insert_at-Placed mask 0 (index x.hash mask) array x (omega arith) p)

pub rehash-Placed :
    (mask : ℕ) (array old : List (List Blob))
    → Placed mask 0 array
    → Placed mask 0 (rehash array mask old)
unfolding rehash
rehash-Placed mask array [] p = p
rehash-Placed mask array (xs ∷ old) p =
    rehash-Placed mask (rehash_bucket array mask xs) old (rehash_bucket-Placed mask array xs p)
