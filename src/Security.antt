-- ===== src/Security.antt =====
-- src/security.c: the security descriptors of an image, at the front of its metadata resource.
pub mod Bounds
pub mod Entries
pub mod RoundTrip
pub mod SdIndex
pub mod Tree
pub mod SdSet
pub mod Init
mod Tests
use wimlib.Common.{
  ℕ, zero, suc, ◌+◌, ◌-◌, ◌*◌, ◌/◌, ◌%◌, ◌^◌, Bool, true, false, not, List, [], ◌∷◌, ◌++◌, length,
  take, drop, replicate, ltb, ◌==◌, if◌then◌else◌, Option, none, some,
}
use wimlib.Common.Bytes.{put_le, get_le}
use wimlib.Error.{Result, ok, err, nomem, invalid_metadata_resource, ◌>>=◌}
use wimlib.TaggedItems.{align8}

-- struct wim_security_data
pub record SecurityData : Type 0 where
  pub total_length : ℕ
  pub num_entries : ℕ
  pub sizes : List ℕ
  pub descriptors : List (List ℕ)

-- The loop that copies the sizes; `none` is one over 32 bits.
pub read_sizes : ℕ → List ℕ → Option (List ℕ)
read_sizes zero p = some []
read_sizes (suc n) p =
    let size = get_le (take 8 p) in
    let rest = read_sizes n (drop 8 p) in
    if ltb 0xFFFFFFFF size
    then none
    else elim rest [ none ↦ none | some sizes ↦ some (size ∷ sizes) ]

-- Allocation `i` is that of the structure, of the sizes, of the array of pointers and then of each
-- descriptor; `memory` says which succeed.
module _ (memory : ℕ → Bool) where
  -- The loop that copies the descriptors. One of size 0 is skipped, its pointer is null.
  pub read_descriptors : (total_length i total_len : ℕ) → List ℕ → List ℕ → Result (List (List ℕ))
  read_descriptors total_length i total_len p [] = ok []
  read_descriptors total_length i total_len p (size ∷ sizes) =
      let rest = read_descriptors total_length (suc i) (total_len + size) (drop size p) sizes in
      if size == 0
      then (rest >>= λ ds. ok ([] ∷ ds))
      else if ltb total_length (total_len + size)
      then err invalid_metadata_resource
      else if memory (3 + i)
      then (rest >>= λ ds. ok (take size p ∷ ds))
      else err nomem

  -- What is read once the lengths are known to fit.
  pub read_entries : (total_length num_entries : ℕ) → List ℕ → Result SecurityData
  read_entries total_length num_entries buf =
      if num_entries == 0
      then ok
          (record { total_length = total_length; num_entries = 0; sizes = []; descriptors = [] })
      else if memory 1
      then elim (read_sizes num_entries (drop 8 buf)) [
        | none ↦ err invalid_metadata_resource
        | some sizes ↦
            if memory 2
            then (read_descriptors total_length 0 (8 + num_entries * 8)
                  (drop (8 + num_entries * 8) buf) sizes
                >>= λ ds. ok (record {
                  total_length = total_length;
                  num_entries = num_entries;
                  sizes = sizes;
                  descriptors = ds;
                }))
            else err nomem
      ]
      else err nomem

  pub read_wim_security_data : List ℕ → Result SecurityData
  read_wim_security_data buf =
      let aligned = align8 (get_le (take 4 buf)) in
      let total_length = if aligned == 0 then 8 else aligned in
      let num_entries = get_le (take 4 (drop 4 buf)) in
      if ltb (length buf) 8
      then err invalid_metadata_resource
      else if not (memory 0)
      then err nomem
      else if ltb 0x80000000 num_entries
      then err invalid_metadata_resource
      else if ltb (length buf) total_length
      then err invalid_metadata_resource
      else if ltb total_length (8 + num_entries * 8)
      then err invalid_metadata_resource
      else read_entries total_length num_entries buf

-- The loops over the first `n` sizes and descriptors.
pub write_sizes : ℕ → List ℕ → List ℕ
write_sizes zero sizes = []
write_sizes (suc n) [] = []
write_sizes (suc n) (size ∷ sizes) = put_le 8 size ++ write_sizes n sizes

pub write_descriptors : ℕ → List ℕ → List (List ℕ) → List ℕ
write_descriptors (suc n) (size ∷ sizes) (d ∷ ds) = take size d ++ write_descriptors n sizes ds
write_descriptors n sizes ds = []

-- The bytes that are written at the address `p`, with zeros up to an address that 8 divides.
pub write_wim_security_data : SecurityData → ℕ → List ℕ
write_wim_security_data sd p =
    let bytes =
      put_le 4 sd.total_length
      ++ put_le 4 sd.num_entries
      ++ write_sizes sd.num_entries sd.sizes
      ++ write_descriptors sd.num_entries sd.sizes sd.descriptors in
    bytes ++ replicate ((8 - (p + length bytes) % 8) % 8) 0
