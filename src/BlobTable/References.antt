-- ===== src/BlobTable/References.antt =====
-- The reference counts of src/blob_table.c.
use wimlib.Common.{ℕ, ◌-◌, ◌&&◌, not, ltb, ◌==◌, if◌then◌else◌, Option, none, some}
use wimlib.BlobTable.{Blob, BlobTable, should_retain_blob}

-- What the table has for the digest of a blob when references to it are dropped: a count that would go
-- below 0 becomes 0 and the blob stays, as it does with references left, or with none if it is in a
-- WIM file; else it is gone.
pub dropped : Blob → ℕ → Option Blob
dropped b n =
    if ltb b.refcnt n
    then some (record b { refcnt = 0 })
    else if b.refcnt - n == 0 && not (should_retain_blob b)
    then none
    else some (record b { refcnt = b.refcnt - n })
