-- ===== src/BlobTable/Invariant.antt =====
-- The state of the table in src/blob_table.c, and that its operations keep it.
use wimlib.Common.{
  ℕ, zero, suc, ◌+◌, ◌-◌, ◌*◌, ◌^◌, ◌≤◌, ◌<◌, ◌≡◌, refl, ap, sym, ◌∙◌, Bool, true, false, List, [],
  length, get_or, replicate, ◌==◌, ==_iff, ltb, if◌then◌else◌, arith, none, some, Bool-cases, inl,
  inr, subst, length-replicate, length-set,
}
use native.Mathlib.Nat.{one-le-pow, pow-suc}
use wimlib.Sha1.{hashes_equal, hashes_equal→eq}
use wimlib.Lzx.{ilog2_ceil}
use wimlib.BlobTable.{
  Blob, BlobTable, index, find, lookup_blob, blob_table_insert, blob_table_insert_raw,
  enlarge_blob_table, new_blob_table, rehash, insert_at,
}
use wimlib.BlobTable.Buckets.{
  contents, one_if, count, Placed, index-lt, count-insert_at, insert_at-Placed, find-contents,
}
use wimlib.BlobTable.Lookup.{
  has_hash, has_address, last_or, last_or-find, look-insert_raw, look-rehash, length-rehash,
  count-rehash, rehash-Placed,
}
use wimlib.BlobTable.Address.{Agrees, find-none-count, find-Agrees}

abbrev pub any_blob : Blob → Bool
any_blob x = true

-- The capacity is a power of 2 and one more than the mask, each blob stands in the bucket of its digest,
-- `num_blobs` counts them, and no two have one digest or one address.
pub record IsTable (t : BlobTable) : Type 0 where
  pub order : ℕ
  pub capacity : t.mask + 1 ≡ 2 ^ order
  pub buckets : length t.array ≡ t.mask + 1
  pub placed : Placed t.mask 0 t.array
  pub counted : t.num_blobs ≡ count any_blob (contents t.array)
  pub hashes : (hash : List ℕ) → count (has_hash hash) (contents t.array) ≤ 1
  pub addresses : (a : ℕ) → count (has_address a) (contents t.array) ≤ 1

-- A blob that the table has no blob like.
pub record IsNew (t : BlobTable) (b : Blob) : Type 0 where
  pub hash : lookup_blob t b.hash ≡ none
  pub address : count (has_address b.address) (contents t.array) ≡ 0

module _ (t : BlobTable) (v : IsTable t) where
  pub in_range : (hash : List ℕ) → index hash t.mask < t.mask + 1
  in_range hash = index-lt hash t.mask v.order v.capacity

  -- The bucket's search is one among all blobs.
  pub lookup-contents : (hash : List ℕ) → lookup_blob t hash ≡ find hash (contents t.array)
  unfolding lookup_blob
  lookup-contents hash =
      sym (find-contents hash t.mask 0 (index hash t.mask) t.array (omega arith) v.placed)

  pub lookup-Agrees :
      (b : Blob) → lookup_blob t b.hash ≡ some b → Agrees b.address b.hash (contents t.array)
  lookup-Agrees b e =
      find-Agrees b.hash (contents t.array) b (sym (lookup-contents b.hash) ∙ e)
        (v.addresses b.address)

empty_count : (test : Blob → Bool) (n : ℕ) → count test (contents (replicate n [])) ≡ 0
unfolding count contents
empty_count test zero = refl
empty_count test (suc n) = empty_count test n

empty-Placed : (mask j n : ℕ) → Placed mask j (replicate n [])
unfolding Placed
empty-Placed mask j zero = tt
empty-Placed mask j (suc n) = (tt, empty-Placed mask (suc j) n)

empty_find : (hash : List ℕ) (i n : ℕ) → find hash (get_or (replicate n []) i []) ≡ none
unfolding find
empty_find hash i zero = refl
empty_find hash zero (suc n) = refl
empty_find hash (suc i) (suc n) = empty_find hash i n

-- A new table is empty, well-formed, and has no blob for any digest.
pub new_blob_table-IsTable :
    (capacity : ℕ) (hash : List ℕ) {t : BlobTable}
    → new_blob_table true capacity ≡ some t
    → IsTable t × (lookup_blob t hash ≡ none)
unfolding new_blob_table lookup_blob
new_blob_table-IsTable capacity hash e =
    subst (λ (u : BlobTable). IsTable u × (lookup_blob u hash ≡ none)) (some_table e)
      (
        record {
          order = ilog2_ceil capacity;
          capacity = sized;
          buckets = length-replicate _ _ ∙ sym sized;
          placed = empty-Placed _ 0 _;
          counted = sym (empty_count any_blob _);
          hashes = λ hash. omega (arith, empty_count (has_hash hash) (2 ^ ilog2_ceil capacity));
          addresses = λ a. omega (arith, empty_count (has_address a) (2 ^ ilog2_ceil capacity));
        },
        empty_find hash (index hash (2 ^ ilog2_ceil capacity - 1)) (2 ^ ilog2_ceil capacity),
      )
  where
    some_table : {x y : BlobTable} → some x ≡ some y → x ≡ y
    some_table e = cc

    sized : 2 ^ ilog2_ceil capacity - 1 + 1 ≡ 2 ^ ilog2_ceil capacity
    sized = omega (arith, one-le-pow (ilog2_ceil capacity) 2)

raw : BlobTable → Blob → BlobTable
raw t b = record t { array = blob_table_insert_raw t.array t.mask b; num_blobs = t.num_blobs + 1 }

raw-IsTable : (t : BlobTable) (b : Blob) → IsTable t → IsNew t b → IsTable (raw t b)
unfolding raw blob_table_insert_raw
raw-IsTable t b v n = record {
  order = v.order;
  capacity = v.capacity;
  buckets = length-set t.array _ _ ∙ v.buckets;
  placed = insert_at-Placed t.mask 0 (index b.hash t.mask) t.array b (omega arith) v.placed;
  counted = omega (arith, v.counted, added any_blob);
  hashes = one_hash;
  addresses = one_address;
}
  where
    added :
        (test : Blob → Bool)
        → count test (contents (insert_at t.array (index b.hash t.mask) b))
          ≡ one_if (test b) + count test (contents t.array)
    added test =
        count-insert_at test t.array (index b.hash t.mask) b
          (omega (arith, in_range t v b.hash, v.buckets))

    absent : count (has_hash b.hash) (contents t.array) ≡ 0
    absent = find-none-count b.hash (contents t.array) (sym (lookup-contents t v b.hash) ∙ n.hash)

    one_hash :
        (hash : List ℕ)
        → count (has_hash hash) (contents (insert_at t.array (index b.hash t.mask) b)) ≤ 1
    one_hash hash = elim (Bool-cases (hashes_equal hash b.hash)) [
      | inl e ↦ omega (
        arith,
        added (has_hash hash),
        ap one_if e,
        absent,
        ap (λ h. count (has_hash h) (contents t.array)) (hashes_equal→eq hash b.hash e),
      )
      | inr e ↦ omega (arith, added (has_hash hash), ap one_if e, v.hashes hash)
    ]

    one_address :
        (a : ℕ) → count (has_address a) (contents (insert_at t.array (index b.hash t.mask) b)) ≤ 1
    one_address a = elim (Bool-cases (b.address == a)) [
      | inl e ↦ omega (
        arith,
        added (has_address a),
        ap one_if e,
        n.address,
        ap (λ k. count (has_address k) (contents t.array)) ((==_iff _ _).0 e),
      )
      | inr e ↦ omega (arith, added (has_address a), ap one_if e, v.addresses a)
    ]

enlarge-IsTable :
    (memory : Bool) (t : BlobTable)
    → IsTable t
    → IsTable (enlarge_blob_table memory t)
      × ((hash : List ℕ) → lookup_blob (enlarge_blob_table memory t) hash ≡ lookup_blob t hash)
unfolding enlarge_blob_table lookup_blob
enlarge-IsTable false t v = (v, λ hash. refl)
enlarge-IsTable true t v = (
  record {
    order = suc v.order;
    capacity = doubled;
    buckets = length-rehash mask (λ h. index-lt h mask (suc v.order) doubled) fresh t.array ∙ fits;
    placed = rehash-Placed mask fresh t.array (empty-Placed mask 0 _);
    counted = omega (arith, v.counted, same any_blob);
    hashes = λ hash. omega (arith, v.hashes hash, same (has_hash hash));
    addresses = λ a. omega (arith, v.addresses a, same (has_address a));
  },
  λ hash.
      look-rehash mask (λ h. index-lt h mask (suc v.order) doubled) hash fresh t.array fits
      ∙ ap (last_or hash (contents t.array)) (empty_find hash (index hash mask) ((t.mask + 1) * 2))
      ∙ last_or-find hash (contents t.array) (v.hashes hash)
      ∙ sym (lookup-contents t v hash),
)
  where
    mask : ℕ
    mask = (t.mask + 1) * 2 - 1

    fresh : List (List Blob)
    fresh = replicate ((t.mask + 1) * 2) []

    fits : length fresh ≡ mask + 1
    fits = length-replicate ((t.mask + 1) * 2) [] ∙ omega arith

    doubled : mask + 1 ≡ 2 ^ suc v.order
    doubled = omega (arith, v.capacity, pow-suc 2 v.order)

    same :
        (test : Blob → Bool)
        → count test (contents (rehash fresh mask t.array)) ≡ count test (contents t.array)
    same test = omega (
      arith,
      count-rehash mask (λ h. index-lt h mask (suc v.order) doubled) test fresh t.array fits,
      empty_count test ((t.mask + 1) * 2),
    )

lookup-raw :
    (t : BlobTable) (b : Blob) (hash : List ℕ)
    → IsTable t
    → lookup_blob (raw t b) hash ≡ (if hashes_equal hash b.hash then some b else lookup_blob t hash)
unfolding raw lookup_blob
lookup-raw t b hash v =
    look-insert_raw hash t.mask t.array b (omega (arith, in_range t v b.hash, v.buckets))

-- A blob whose digest and address the table does not have is inserted: the table is well-formed
-- again, whether or not it is enlarged or memory for that runs out, and has the blob for its digest and
-- what it had for every other.
pub blob_table_insert-IsTable :
    (memory : Bool) (t : BlobTable) (b : Blob) (hash : List ℕ)
    → IsTable t
    → IsNew t b
    → IsTable (blob_table_insert memory t b)
      × (lookup_blob (blob_table_insert memory t b) hash
          ≡ (if hashes_equal hash b.hash then some b else lookup_blob t hash))
unfolding blob_table_insert raw
blob_table_insert-IsTable memory t b hash v n = elim (Bool-cases (ltb t.mask t.num_blobs)) [
  | inl e ↦
      let (kept, same) = enlarge-IsTable memory (raw t b) (raw-IsTable t b v n) in
      rw e (kept, same hash ∙ lookup-raw t b hash v)
  | inr e ↦ rw e (raw-IsTable t b v n, lookup-raw t b hash v)
]
