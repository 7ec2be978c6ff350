-- ===== src/BlobTable/Tests.antt =====
-- src/blob_table.c on a table of two buckets.
use wimlib.Common.{◌≡◌, refl, true, [], ◌∷◌, some, if◌then◌else◌, replicate}
use wimlib.Sha1.{hashes_equal}
use wimlib.Lzx.{ilog2_ceil, bsrw}
use wimlib.BlobTable.{
  Blob, BlobTable, in_wim, in_file_on_disk, find, new_blob_table, lookup_blob, blob_table_insert,
  blob_table_insert_raw, enlarge_blob_table, rehash, rehash_bucket,
}
use wimlib.BlobTable.Buckets.{contents, count}
use wimlib.BlobTable.Invariant.{IsTable, new_blob_table-IsTable, blob_table_insert-IsTable}

abbrev empty : BlobTable
empty = record { array = [] ∷ [] ∷ []; num_blobs = 0; mask = 1 }

abbrev old_blob : Blob
old_blob = record {
  address = 100;
  hash = replicate 20 7;
  refcnt = 2;
  num_opened_fds = 0;
  blob_location = in_file_on_disk;
}

abbrev new_blob : Blob
new_blob = record {
  address = 200;
  hash = replicate 20 4;
  refcnt = 1;
  num_opened_fds = 0;
  blob_location = in_wim;
}

abbrev with_old : BlobTable
with_old = record { array = [] ∷ (old_blob ∷ []) ∷ []; num_blobs = 1; mask = 1 }

with_old-IsTable : IsTable with_old
unfolding new_blob_table ilog2_ceil bsrw lookup_blob find blob_table_insert blob_table_insert_raw
    contents count hashes_equal
with_old-IsTable =
    (blob_table_insert-IsTable true empty old_blob [] (new_blob_table-IsTable 2 [] refl).0
      (record { hash = refl; address = refl })).0

blob_table_insert-IsTable_example :
    IsTable (blob_table_insert true with_old new_blob)
    × (lookup_blob (blob_table_insert true with_old new_blob) old_blob.hash ≡ (
        if hashes_equal old_blob.hash new_blob.hash
        then some new_blob
        else lookup_blob with_old old_blob.hash))
unfolding lookup_blob find contents count hashes_equal
blob_table_insert-IsTable_example =
    blob_table_insert-IsTable true with_old new_blob old_blob.hash with_old-IsTable
      (record { hash = refl; address = refl })

-- The third insertion doubles the table, and the blobs move to the buckets of their digests.
third_blob : Blob
third_blob = record old_blob { address = 300; hash = replicate 20 2 }

enlarged :
    blob_table_insert true
      (record with_old { array = (new_blob ∷ []) ∷ (old_blob ∷ []) ∷ []; num_blobs = 2 })
      third_blob
    ≡ record {
      array = (new_blob ∷ []) ∷ [] ∷ (third_blob ∷ []) ∷ (old_blob ∷ []) ∷ [];
      num_blobs = 3;
      mask = 3;
    }
unfolding blob_table_insert blob_table_insert_raw enlarge_blob_table rehash rehash_bucket third_blob
enlarged = refl
