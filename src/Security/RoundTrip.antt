-- ===== src/Security/RoundTrip.antt =====
-- `write_wim_security_data` and `read_wim_security_data` of src/security.c.
use wimlib.Common.{
  ℕ, ◌+◌, ◌-◌, ◌*◌, ◌/◌, ◌%◌, ◌^◌, ◌≤◌, ◌<◌, ◌≡◌, refl, ap, ap₂, sym, ◌∙◌, Bool, true, false, not,
  List, ◌++◌, length, drop, ltb, ◌==◌, if◌then◌else◌, arith, subst, length-append, append_assoc,
  length-replicate, replicate,
}
use wimlib.Common.Bytes.{put_le, get_le-put_le}
use wimlib.Error.{Result, ok, err, nomem, invalid_metadata_resource}
use wimlib.TaggedItems.{align8}
use wimlib.Security.{
  SecurityData, read_entries, read_wim_security_data, write_sizes, write_descriptors,
  write_wim_security_data,
}
use wimlib.Security.Bounds.{sum}
use wimlib.Security.Entries.{
  Sized, length-write_sizes, length-write_descriptors, read-write_entries,
}

-- What is stored: the total length is that of the entries, rounded up to 8, and fits 32 bits.
pub record IsWritable (sd : SecurityData) : Type 0 where
  pub sized : Sized sd.sizes sd.descriptors
  pub counted : sd.num_entries ≡ length sd.sizes
  pub few : sd.num_entries ≤ 0x80000000
  pub total : sd.total_length ≡ (8 + sd.num_entries * 8 + sum sd.sizes + 7) / 8 * 8
  pub limit : sd.total_length < 2 ^ 32

module _ (memory : ℕ → Bool) (enough : (i : ℕ) → memory i ≡ true) where
  -- The tests of the header.
  abbrev header_step : (len aligned num_entries : ℕ) → List ℕ → Result SecurityData
  header_step len aligned num_entries buf =
      let total_length = if aligned == 0 then 8 else aligned in
      if ltb len 8
      then err invalid_metadata_resource
      else if not (memory 0)
      then err nomem
      else if ltb 0x80000000 num_entries
      then err invalid_metadata_resource
      else if ltb len total_length
      then err invalid_metadata_resource
      else if ltb total_length (8 + num_entries * 8)
      then err invalid_metadata_resource
      else read_entries memory total_length num_entries buf

  header_step_ok :
      (len total_length n : ℕ) (buf : List ℕ)
      → 8 + n * 8 ≤ total_length
      → total_length ≤ len
      → n ≤ 0x80000000
      → header_step len total_length n buf ≡ read_entries memory total_length n buf
  header_step_ok len tl n buf room fits few =
      rw (not_zero, not_short, enough 0, not_many, within, room_for_sizes) refl
    where
      not_zero : (tl == 0) ≡ false
      not_zero = ground arith

      not_short : ltb len 8 ≡ false
      not_short = ground arith

      not_many : ltb 0x80000000 n ≡ false
      not_many = ground arith

      within : ltb len tl ≡ false
      within = ground arith

      room_for_sizes : ltb tl (8 + n * 8) ≡ false
      room_for_sizes = ground arith

  module _ (tl p : ℕ) (sizes : List ℕ) (ds : List (List ℕ)) (tail : List ℕ)
      (s : Sized sizes ds) where
    body : List ℕ
    body =
        put_le 4 tl
        ++ put_le 4 (length sizes)
        ++ write_sizes (length sizes) sizes
        ++ write_descriptors (length sizes) sizes ds

    zeros : List ℕ
    zeros = replicate ((8 - (p + length body) % 8) % 8) 0

    length-body : length body ≡ 8 + length sizes * 8 + sum sizes
    unfolding body
    length-body = omega (
      arith,
      length-write_sizes sizes,
      length-write_descriptors sizes ds s,
      length-append (write_sizes (length sizes) sizes) (write_descriptors (length sizes) sizes ds),
    )

    padded : p % 8 ≡ 0 → length ((body ++ zeros) ++ tail) ≡ (length body + 7) / 8 * 8 + length tail
    unfolding zeros
    padded at = omega (
      arith,
      at,
      length-append (body ++ zeros) tail,
      length-append body zeros,
      length-replicate {A = ℕ} ((8 - (p + length body) % 8) % 8) 0,
    )

    behind_header :
        drop 8 ((body ++ zeros) ++ tail)
        ≡ write_sizes (length sizes) sizes
          ++ (write_descriptors (length sizes) sizes ds ++ (zeros ++ tail))
    unfolding body
    behind_header =
        append_assoc (write_sizes (length sizes) sizes ++ write_descriptors (length sizes) sizes ds)
          zeros tail
        ∙ append_assoc (write_sizes (length sizes) sizes)
            (write_descriptors (length sizes) sizes ds) (zeros ++ tail)

    read_written :
        length sizes ≤ 0x80000000
        → tl ≡ (8 + length sizes * 8 + sum sizes + 7) / 8 * 8
        → tl < 2 ^ 32
        → p % 8 ≡ 0
        → read_wim_security_data memory ((body ++ zeros) ++ tail)
          ≡ ok (record {
            total_length = tl;
            num_entries = length sizes;
            sizes = sizes;
            descriptors = ds;
          })
    unfolding read_wim_security_data body
    read_written few total limit at =
        ap₂
          (λ (a n : ℕ).
            header_step (length ((body ++ zeros) ++ tail)) (align8 a) n ((body ++ zeros) ++ tail))
          (get_le-put_le 4 tl (omega (arith, limit)))
          (get_le-put_le 4 (length sizes) (omega (arith, few)))
        ∙ ap
            (λ a.
              header_step (length ((body ++ zeros) ++ tail)) a (length sizes)
                ((body ++ zeros) ++ tail))
            aligned
        ∙ header_step_ok (length ((body ++ zeros) ++ tail)) tl (length sizes)
            ((body ++ zeros) ++ tail) (omega (arith, total))
            (omega (arith, total, padded at, length-body)) few
        ∙ read-write_entries memory enough tl sizes ds ((body ++ zeros) ++ tail) (zeros ++ tail)
            behind_header s (omega (arith, total)) limit
      where
        aligned : align8 tl ≡ tl
        aligned = omega (arith, total, limit)

  -- Security data that is written at an address that 8 divides is read back as it was, whatever follows
  -- it, when the allocations succeed.
  pub read-write_wim_security_data :
      (sd : SecurityData) (p : ℕ) (tail : List ℕ)
      → IsWritable sd
      → p % 8 ≡ 0
      → read_wim_security_data memory (write_wim_security_data sd p ++ tail) ≡ ok sd
  unfolding write_wim_security_data body zeros
  read-write_wim_security_data sd p tail v at =
      subst
        (λ n.
          read_wim_security_data memory
            (write_wim_security_data (record sd { num_entries = n }) p ++ tail)
          ≡ ok (record sd { num_entries = n }))
        (sym v.counted)
        (read_written sd.total_length p sd.sizes sd.descriptors tail v.sized
          (omega (arith, v.few, v.counted)) (omega (arith, v.total, v.counted)) v.limit at)
