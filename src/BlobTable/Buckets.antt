-- ===== src/BlobTable/Buckets.antt =====
-- The buckets of src/blob_table.c: what an insertion at an index and a rehash do to the blobs in them.
use wimlib.Common.{
  ℕ, zero, suc, ◌+◌, ◌-◌, ◌^◌, ◌%◌, ◌<◌, ◌≡◌, ◌≢◌, refl, ap, ◌∙◌, Bool, true, false, List, [], ◌∷◌,
  ◌++◌, length, get_or, arith, none, Bool-cases, inl, inr,
}
use Prim.Native.Nat.{bit_and}
use native.Mathlib.Nat.{one-le-pow}
use wimlib.Common.Bytes.{All}
use wimlib.Common.Bits.{bit_and_mask}
use wimlib.Sha1.{hashes_equal, hashes_equal→eq}
use wimlib.BlobTable.{Blob, index, hash_short, insert_at, find}

-- All blobs, bucket by bucket.
unfoldable pub contents : List (List Blob) → List Blob
contents [] = []
contents (xs ∷ array) = xs ++ contents array

abbrev pub one_if : Bool → ℕ
one_if true = 1
one_if false = 0

-- How many blobs pass a test.
unfoldable pub count : (Blob → Bool) → List Blob → ℕ
count test [] = 0
count test (x ∷ xs) = one_if (test x) + count test xs

pub count-append :
    (test : Blob → Bool) (xs ys : List Blob) → count test (xs ++ ys) ≡ count test xs + count test ys
unfolding count
count-append test [] ys = omega arith
count-append test (x ∷ xs) ys = omega (arith, count-append test xs ys)

-- Each blob stands in the bucket of its hash; the first bucket has index `j`.
unfoldable pub Placed : ℕ → ℕ → List (List Blob) → Type 0
Placed mask j [] = Unit
Placed mask j (xs ∷ array) =
    All (λ (x : Blob). index x.hash mask ≡ j) xs × Placed mask (suc j) array

pub index-lt : (hash : List ℕ) (mask k : ℕ) → mask + 1 ≡ 2 ^ k → index hash mask < mask + 1
index-lt hash mask k e =
    let e' : mask ≡ 2 ^ k - 1 = omega (arith, e) in
    let small : hash_short hash % 2 ^ k < 2 ^ k = grind (arith, one-le-pow k 2) in
    let masked : index hash mask ≡ hash_short hash % 2 ^ k =
      ap (bit_and (hash_short hash)) e' ∙ bit_and_mask k (hash_short hash) in
    omega (arith, masked, small, e)

pub count-insert_at :
    (test : Blob → Bool) (array : List (List Blob)) (i : ℕ) (b : Blob)
    → i < length array
    → count test (contents (insert_at array i b)) ≡ one_if (test b) + count test (contents array)
unfolding contents count
count-insert_at test [] i b h = absurd (omega arith)
count-insert_at test (xs ∷ array) zero b h = refl
count-insert_at test (xs ∷ array) (suc i) b h = omega (
  arith,
  count-insert_at test array i b,
  count-append test xs (contents (insert_at array i b)),
  count-append test xs (contents array),
)

pub insert_at-Placed :
    (mask j i : ℕ) (array : List (List Blob)) (b : Blob)
    → index b.hash mask ≡ j + i
    → Placed mask j array
    → Placed mask j (insert_at array i b)
unfolding Placed
insert_at-Placed mask j i [] b e p = tt
insert_at-Placed mask j zero (xs ∷ array) b e p = ((omega (arith, e), p.0), p.1)
insert_at-Placed mask j (suc i) (xs ∷ array) b e p =
    (p.0, insert_at-Placed mask (suc j) i array b (omega (arith, e)) p.1)

-- A search in another bucket finds nothing.
find-none :
    (hash : List ℕ) (mask j : ℕ) (xs : List Blob)
    → index hash mask ≢ j
    → All (λ (x : Blob). index x.hash mask ≡ j) xs
    → find hash xs ≡ none
unfolding find
find-none hash mask j [] ne p = refl
find-none hash mask j (x ∷ xs) ne p = elim (Bool-cases (hashes_equal hash x.hash)) [
  | inl e ↦ absurd (ne (ap (λ h. index h mask) (hashes_equal→eq hash x.hash e) ∙ p.0))
  | inr e ↦ rw e (find-none hash mask j xs ne p.1)
]

pub find-append_none :
    (hash : List ℕ) (xs ys : List Blob) → find hash xs ≡ none → find hash (xs ++ ys) ≡ find hash ys
unfolding find
find-append_none hash [] ys e = refl
find-append_none hash (x ∷ xs) ys e = elim (Bool-cases (hashes_equal hash x.hash)) [
  | inl h ↦ absurd (cc)
  | inr h ↦ rw h (find-append_none hash xs ys (ground arith))
]

find-later :
    (hash : List ℕ) (mask j : ℕ) (array : List (List Blob))
    → index hash mask < j
    → Placed mask j array
    → find hash (contents array) ≡ none
unfolding contents Placed find
find-later hash mask j [] h p = refl
find-later hash mask j (xs ∷ array) h p =
    find-append_none hash xs (contents array) (find-none hash mask j xs (λ e. omega (arith, e)) p.0)
    ∙ find-later hash mask (suc j) array (omega arith) p.1

find-append_end :
    (hash : List ℕ) (xs ys : List Blob) → find hash ys ≡ none → find hash (xs ++ ys) ≡ find hash xs
unfolding find
find-append_end hash [] ys e = e
find-append_end hash (x ∷ xs) ys e = rw (find-append_end hash xs ys e)

-- A search in the bucket of a hash is one among all blobs.
pub find-contents :
    (hash : List ℕ) (mask j i : ℕ) (array : List (List Blob))
    → index hash mask ≡ j + i
    → Placed mask j array
    → find hash (contents array) ≡ find hash (get_or array i [])
unfolding contents Placed
find-contents hash mask j i [] e p = refl
find-contents hash mask j zero (xs ∷ array) e p =
    find-append_end hash xs (contents array)
      (find-later hash mask (suc j) array (omega (arith, e)) p.1)
find-contents hash mask j (suc i) (xs ∷ array) e p =
    find-append_none hash xs (contents array)
      (find-none hash mask j xs (λ e'. omega (arith, e, e')) p.0)
    ∙ find-contents hash mask (suc j) i array (omega (arith, e)) p.1
