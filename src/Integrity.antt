-- ===== src/Integrity.antt =====
-- src/integrity.c: the integrity table, a list of message digests of the chunks of the archive. The
-- hash is the interface of src/sha1.c, and the progress callback is a parameter: what it answers
-- when so many chunks and bytes are completed.
pub mod Chunks
pub mod Total
pub mod Verify
mod Tests
use wimlib.Common.{
  ℕ, zero, suc, ◌+◌, ◌-◌, ◌*◌, ◌/◌, ◌%◌, ◌^◌, Bool, true, false, ◌&&◌, ◌||◌, not, List, [], ◌∷◌,
  ◌++◌, length, take, drop, min, ltb, ◌==◌, if◌then◌else◌, Option, none, some, get_or, ◌≡◌,
}
use wimlib.Common.Bytes.{get_le, put_le}
use wimlib.Error.{Error, Result, ok, err, nomem, invalid_integrity_table}
use wimlib.FileIo.{Filedes, Reply, Io, done, failed, waiting, ◌>>=◌, full_pread, buffer_size}
use wimlib.Sha1.{Sha1, sha1_hash_size, hashes_equal}
use wimlib.Header.{Reshdr, Header, wim_header_disk_size}

abbrev pub integrity_chunk_size : ℕ
integrity_chunk_size = 10485760

abbrev pub integrity_min_chunk_size : ℕ
integrity_min_chunk_size = 4096

abbrev pub integrity_max_chunk_size : ℕ
integrity_max_chunk_size = 134217728

-- struct integrity_table
pub record IntegrityTable : Type 0 where
  pub size : ℕ
  pub num_entries : ℕ
  pub chunk_size : ℕ
  pub sha1sums : List (List ℕ)

-- Macros of include/wimlib/util.h, on a `u64` and a divisor that is not 0.
abbrev pub div_round_up : ℕ → ℕ → ℕ
div_round_up n d = (n + d - 1) % 2 ^ 64 / d

abbrev pub modulo_nonzero : ℕ → ℕ → ℕ
modulo_nonzero n d = if n % d == 0 then d else n % d

abbrev pub sub64 : ℕ → ℕ → ℕ
sub64 a b = (a + (2 ^ 64 - b)) % 2 ^ 64

-- The entries behind the 12 bytes of the fixed part.
pub entries : ℕ → List ℕ → List (List ℕ)
entries zero s = []
entries (suc n) s = take sha1_hash_size s ∷ entries n (drop sha1_hash_size s)

-- The second argument is what `wim_reshdr_to_data` of src/resource.c returns for the table's resource.
pub read_integrity_table : Reshdr → Result (List ℕ) → ℕ → Result IntegrityTable
read_integrity_table reshdr (err e) num_checked_bytes =
    if ltb reshdr.uncompressed_size 12 then err invalid_integrity_table else err e
read_integrity_table reshdr (ok buf) num_checked_bytes =
    let size = get_le (take 4 buf) in
    let num_entries = get_le (take 4 (drop 4 buf)) in
    let chunk_size = get_le (take 4 (drop 8 buf)) in
    if ltb reshdr.uncompressed_size 12
    then err invalid_integrity_table
    else if not (size == reshdr.uncompressed_size)
        || (not (size == num_entries * sha1_hash_size + 12)
            || (chunk_size == 0 || not (num_entries == div_round_up num_checked_bytes chunk_size)))
    then err invalid_integrity_table
    else ok (record {
      size = size;
      num_entries = num_entries;
      chunk_size = chunk_size;
      sha1sums = entries num_entries (drop 12 buf);
    })

-- The results of the check beside the errors.
pub data Integrity : Type 0 where
  integrity_ok not_ok nonexistent : Integrity

-- What the callback answers: an error code stops the caller.
abbrev pub Progress : Type 0
Progress = ℕ → ℕ → Option Error

abbrev pub call_progress {ℓ} : {A : Type ℓ} → Option Error → Io A → Io A
call_progress none io = io
call_progress (some e) io = failed e

-- The old table, unless it is empty or its chunk size is weird.
pub usable : Option IntegrityTable → Option IntegrityTable
usable none = none
usable (some t) =
    if t.num_entries == 0
      || (ltb t.chunk_size integrity_min_chunk_size || ltb integrity_max_chunk_size t.chunk_size)
    then none
    else some t

pub chunk_size_for : Option IntegrityTable → ℕ
chunk_size_for none = integrity_chunk_size
chunk_size_for (some t) = t.chunk_size

-- The local variables of `calculate_integrity_table` that its loop reads.
pub record Layout : Type 0 where
  pub chunk_size : ℕ
  pub old_num_chunks : ℕ
  pub new_num_chunks : ℕ
  pub old_last_chunk_size : ℕ
  pub new_last_chunk_size : ℕ

pub layout_of : ℕ → ℕ → ℕ → Layout
layout_of chunk_size new_check_end old_check_end =
    let old_check_bytes = sub64 old_check_end wim_header_disk_size in
    let new_check_bytes = sub64 new_check_end wim_header_disk_size in
    record {
      chunk_size = chunk_size;
      old_num_chunks = div_round_up old_check_bytes chunk_size % 2 ^ 32;
      new_num_chunks = div_round_up new_check_bytes chunk_size % 2 ^ 32;
      old_last_chunk_size = modulo_nonzero old_check_bytes chunk_size;
      new_last_chunk_size = modulo_nonzero new_check_bytes chunk_size;
    }

-- The test for reuse; `old_num_chunks - 1` is taken in 32 bits.
pub reusable : Layout → ℕ → ℕ → Bool
reusable l this_chunk_size i =
    let last = (l.old_num_chunks + (2 ^ 32 - 1)) % 2 ^ 32 in
    (this_chunk_size == l.chunk_size && ltb i last)
    || (i == last && this_chunk_size == l.old_last_chunk_size)

module _ (sha1 : Sha1) where
  -- The loop over the buffers of a chunk. Each round but the last reads a full buffer.
  pub chunk_loop : ℕ → List Reply → Filedes → sha1.Ctx → ℕ → ℕ → Io (List ℕ × Filedes)
  chunk_loop zero rs in_fd ctx bytes_remaining offset = waiting
  chunk_loop (suc fuel) rs in_fd ctx bytes_remaining offset =
      let bytes_to_read = min bytes_remaining buffer_size in
      full_pread rs in_fd bytes_to_read offset >>= λ (buf, fd) rs'.
      let rest =
        chunk_loop fuel rs' fd (sha1.update ctx buf) (bytes_remaining - bytes_to_read)
          (offset + bytes_to_read) in
      if bytes_remaining - bytes_to_read == 0
      then done (sha1.final (sha1.update ctx buf), fd) rs'
      else rest

  pub calculate_chunk_sha1 : List Reply → Filedes → ℕ → ℕ → Io (List ℕ × Filedes)
  calculate_chunk_sha1 rs in_fd this_chunk_size offset =
      chunk_loop (suc this_chunk_size) rs in_fd sha1.init this_chunk_size offset

  -- The loop of `verify_integrity`: `sums` are the table's entries from `i` on.
  pub verify_loop :
      Progress
      → List Reply
      → Filedes
      → IntegrityTable
      → ℕ
      → ℕ
      → ℕ
      → List (List ℕ)
      → Io (Integrity × Filedes)
  verify_loop progress rs in_fd table bytes_to_check i offset [] = done (integrity_ok, in_fd) rs
  verify_loop progress rs in_fd table bytes_to_check i offset (sum ∷ sums) =
      let this_chunk_size =
        if i == table.num_entries - 1
        then modulo_nonzero bytes_to_check table.chunk_size
        else table.chunk_size in
      calculate_chunk_sha1 rs in_fd this_chunk_size offset >>= λ (sha1_md, fd) rs'.
      let rest =
        verify_loop progress rs' fd table bytes_to_check (i + 1) (offset + this_chunk_size) sums in
      if hashes_equal sha1_md sum
      then call_progress (progress (i + 1) (offset + this_chunk_size - wim_header_disk_size)) rest
      else done (not_ok, fd) rs'

  pub verify_integrity :
      Progress → List Reply → Filedes → IntegrityTable → ℕ → Io (Integrity × Filedes)
  verify_integrity progress rs in_fd table bytes_to_check =
      call_progress (progress 0 0)
        (verify_loop progress rs in_fd table bytes_to_check 0 wim_header_disk_size table.sha1sums)

  -- `table_data` is what `wim_reshdr_to_data` returns, as for `read_integrity_table`; there is a table if its resource is not at offset 0.
  pub check_wim_integrity :
      Progress → List Reply → Filedes → Header → Result (List ℕ) → Io (Integrity × Filedes)
  check_wim_integrity progress rs in_fd hdr table_data =
      let end_blob_table_offset =
        (hdr.blob_table_reshdr.offset_in_wim + hdr.blob_table_reshdr.size_in_wim) % 2 ^ 64 in
      let bytes_to_check = end_blob_table_offset - wim_header_disk_size in
      if hdr.integrity_table_reshdr.offset_in_wim == 0
      then done (nonexistent, in_fd) rs
      else if ltb end_blob_table_offset wim_header_disk_size
      then failed invalid_integrity_table
      else elim (read_integrity_table hdr.integrity_table_reshdr table_data bytes_to_check) [
        | err e ↦ failed e
        | ok table ↦ verify_integrity progress rs in_fd table bytes_to_check
      ]

  -- The loop of `calculate_integrity_table` from chunk `i` on, with `count` chunks left.
  pub calculate_loop :
      Progress
      → List Reply
      → Filedes
      → Layout
      → Option IntegrityTable
      → ℕ
      → ℕ
      → ℕ
      → Io (List (List ℕ) × Filedes)
  calculate_loop progress rs in_fd layout old_table zero i offset = done ([], in_fd) rs
  calculate_loop progress rs in_fd layout old_table (suc count) i offset =
      let this_chunk_size =
        if i == layout.new_num_chunks - 1 then layout.new_last_chunk_size else layout.chunk_size in
      let on : List ℕ → Filedes → List Reply → Io (List (List ℕ) × Filedes) = λ sum fd rs'.
        call_progress (progress (i + 1) (offset + this_chunk_size - wim_header_disk_size)) (
          calculate_loop progress rs' fd layout old_table count (i + 1) (offset + this_chunk_size)
          >>= λ (sums, fd') rs''. done (sum ∷ sums, fd') rs'') in
      let anew =
        calculate_chunk_sha1 rs in_fd this_chunk_size offset >>= λ (sum, fd) rs'. on sum fd rs' in
      elim old_table [
        | none ↦ anew
        | some old ↦
            if reusable layout this_chunk_size i
            then on (get_or old.sha1sums i []) in_fd rs
            else anew
      ]

  -- `memory` says whether MALLOC succeeds.
  pub calculate_integrity_table :
      Progress
      → Bool
      → List Reply
      → Filedes
      → ℕ
      → Option IntegrityTable
      → ℕ
      → Io (IntegrityTable × Filedes)
  calculate_integrity_table progress memory rs in_fd new_check_end old_table old_check_end =
      let old = usable old_table in
      let layout = layout_of (chunk_size_for old) new_check_end old_check_end in
      let sums =
        calculate_loop progress rs in_fd layout old layout.new_num_chunks 0 wim_header_disk_size in
      if memory
      then call_progress (progress 0 0) (
          sums >>= λ (sha1sums, fd) rs'.
          done
            (
              record {
                size = (12 + layout.new_num_chunks * sha1_hash_size) % 2 ^ 32;
                num_entries = layout.new_num_chunks;
                chunk_size = layout.chunk_size;
                sha1sums = sha1sums;
              },
              fd,
            )
            rs')
      else failed nomem
