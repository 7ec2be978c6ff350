-- ===== src/BlobTable.antt =====
-- src/blob_table.c: the hash table of blob descriptors. A bucket is the list of its blobs from the head
-- on. A pointer to a descriptor is its address, and the table holds what stands there.
pub mod Buckets
pub mod Lookup
pub mod Address
pub mod Invariant
pub mod Removal
pub mod References
mod Tests
use wimlib.Common.{
  ℕ, zero, suc, ◌+◌, ◌-◌, ◌*◌, ◌^◌, Bool, true, false, ◌&&◌, ◌||◌, not, List, [], ◌∷◌, ◌++◌, map,
  length, take, set, get_or, replicate, ltb, ◌==◌, if◌then◌else◌, Option, none, some,
}
use Prim.Native.Nat.{bit_and}
use wimlib.Common.Bytes.{get_le}
use wimlib.Sha1.{hashes_equal}
use wimlib.Lzx.{ilog2_ceil}

-- enum blob_location
pub data Location : Type 0 where
  nonexistent in_wim in_file_on_disk in_attached_buffer in_staging_file : Location
  in_ntfs_volume in_windows_file : Location

-- The part of struct blob_descriptor that the table uses.
pub record Blob : Type 0 where
  pub address : ℕ
  pub hash : List ℕ
  pub refcnt : ℕ
  pub num_opened_fds : ℕ
  pub blob_location : Location

-- `hash_short` is the front of `hash`, as a `size_t`; `load_size_t_unaligned` reads the same.
abbrev pub hash_short : List ℕ → ℕ
hash_short hash = get_le (take 8 hash)

pub record BlobTable : Type 0 where
  pub array : List (List Blob)
  pub num_blobs : ℕ
  pub mask : ℕ

-- `memory` says whether the allocations succeed.
pub new_blob_table : Bool → ℕ → Option BlobTable
new_blob_table memory capacity =
    let n = 2 ^ ilog2_ceil capacity in
    if memory then some (record { array = replicate n []; num_blobs = 0; mask = n - 1 }) else none

-- The index of a hash's bucket.
abbrev pub index : List ℕ → ℕ → ℕ
index hash mask = bit_and (hash_short hash) mask

abbrev pub insert_at : List (List Blob) → ℕ → Blob → List (List Blob)
insert_at array i blob = set array i (blob ∷ get_or array i [])

pub blob_table_insert_raw : List (List Blob) → ℕ → Blob → List (List Blob)
blob_table_insert_raw array mask blob = insert_at array (index blob.hash mask) blob

-- The loops over the buckets and the blobs of each.
pub rehash_bucket : List (List Blob) → ℕ → List Blob → List (List Blob)
rehash_bucket new_array mask [] = new_array
rehash_bucket new_array mask (blob ∷ blobs) =
    rehash_bucket (blob_table_insert_raw new_array mask blob) mask blobs

pub rehash : List (List Blob) → ℕ → List (List Blob) → List (List Blob)
rehash new_array mask [] = new_array
rehash new_array mask (blobs ∷ old_array) =
    rehash (rehash_bucket new_array mask blobs) mask old_array

pub enlarge_blob_table : Bool → BlobTable → BlobTable
enlarge_blob_table memory table =
    let new_capacity = (table.mask + 1) * 2 in
    if memory
    then record table {
      array = rehash (replicate new_capacity []) (new_capacity - 1) table.array;
      mask = new_capacity - 1;
    }
    else table

pub blob_table_insert : Bool → BlobTable → Blob → BlobTable
blob_table_insert memory table blob =
    let inserted = record table {
      array = blob_table_insert_raw table.array table.mask blob;
      num_blobs = table.num_blobs + 1;
    } in
    if ltb table.mask table.num_blobs then enlarge_blob_table memory inserted else inserted

-- `hlist_del` takes the descriptor out of the bucket that it stands in.
pub remove_address : ℕ → List Blob → List Blob
remove_address a [] = []
remove_address a (x ∷ xs) =
    let rest = remove_address a xs in if x.address == a then xs else x ∷ rest

pub blob_table_unlink : BlobTable → ℕ → BlobTable
blob_table_unlink table address = record table {
  array = map (remove_address address) table.array;
  num_blobs = table.num_blobs - 1;
}

-- The loop of `lookup_blob` over a bucket.
pub find : List ℕ → List Blob → Option Blob
find hash [] = none
find hash (x ∷ xs) = let rest = find hash xs in if hashes_equal hash x.hash then some x else rest

pub lookup_blob : BlobTable → List ℕ → Option Blob
lookup_blob table hash = find hash (get_or table.array (index hash table.mask) [])

-- What stands at an address is changed.
pub store_blob : Blob → List Blob → List Blob
store_blob blob [] = []
store_blob blob (x ∷ xs) = if x.address == blob.address then blob ∷ xs else x ∷ store_blob blob xs

abbrev pub store : BlobTable → Blob → BlobTable
store table blob = record table { array = map (store_blob blob) table.array }

pub should_retain_blob : Blob → Bool
should_retain_blob blob = elim blob.blob_location [ in_wim ↦ true | _ ↦ false ]

-- A blob of the table (an unhashed blob is in no table). The second result says whether the
-- descriptor was freed.
pub blob_subtract_refcnt : Blob → BlobTable → ℕ → BlobTable × Bool
blob_subtract_refcnt blob table count =
    let less = record blob { refcnt = blob.refcnt - count } in
    if ltb blob.refcnt count
    then (store table (record blob { refcnt = 0 }), false)
    else if not (less.refcnt == 0)
    then (store table less, false)
    else if should_retain_blob less
    then (store table less, false)
    else (blob_table_unlink table blob.address, less.num_opened_fds == 0)

pub blob_decrement_refcnt : Blob → BlobTable → BlobTable × Bool
blob_decrement_refcnt blob table = blob_subtract_refcnt blob table 1

-- The visitor's first code that is not 0; `none` stands for 0.
pub for_blobs {ℓ} : {E : Type ℓ} → (Blob → Option E) → List Blob → Option E
for_blobs visitor [] = none
for_blobs visitor (x ∷ xs) =
    let rest = for_blobs visitor xs in elim (visitor x) [ none ↦ rest | some e ↦ some e ]

pub for_buckets {ℓ} : {E : Type ℓ} → (Blob → Option E) → List (List Blob) → Option E
for_buckets visitor [] = none
for_buckets visitor (xs ∷ array) =
    let rest = for_buckets visitor array in
    elim (for_blobs visitor xs) [ none ↦ rest | some e ↦ some e ]

pub for_blob_in_table {ℓ} : {E : Type ℓ} → BlobTable → (Blob → Option E) → Option E
for_blob_in_table table visitor = for_buckets visitor table.array
