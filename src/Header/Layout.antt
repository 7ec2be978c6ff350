-- ===== src/Header/Layout.antt =====
-- The bytes of the structures of include/wimlib/header.h and include/wimlib/resource.h are read back
-- as the fields that were stored.
use wimlib.Common.{
  ℕ, ◌+◌, ◌^◌, ◌<◌, ◌≡◌, refl, ap, sym, ◌∙◌, List, ◌++◌, length, take, drop, replicate, arith,
  length-append,
}
use wimlib.FileIo.Read.{drop_more}
use wimlib.Common.Bytes.{take-append, drop-append, put_le, get_le, get_le-put_le}
use wimlib.Header.{
  Reshdr, put_wim_reshdr, reshdr_bytes, bytes_reshdr, Header, header_bytes, bytes_header,
  header_to_disk, wim_header_disk_size,
}

-- The values that the fields of the structures can hold.
pub record IsReshdr (r : Reshdr) : Type 0 where
  pub size_in_wim : r.size_in_wim < 2 ^ 56
  pub flags : r.flags < 2 ^ 8
  pub offset_in_wim : r.offset_in_wim < 2 ^ 64
  pub uncompressed_size : r.uncompressed_size < 2 ^ 64

pub record IsHeader (h : Header) : Type 0 where
  pub magic : h.magic < 2 ^ 64
  pub wim_version : h.wim_version < 2 ^ 32
  pub flags : h.flags < 2 ^ 32
  pub chunk_size : h.chunk_size < 2 ^ 32
  pub guid : length h.guid ≡ 16
  pub part_number : h.part_number < 2 ^ 16
  pub total_parts : h.total_parts < 2 ^ 16
  pub image_count : h.image_count < 2 ^ 32
  pub blob_table_reshdr : IsReshdr h.blob_table_reshdr
  pub xml_data_reshdr : IsReshdr h.xml_data_reshdr
  pub boot_metadata_reshdr : IsReshdr h.boot_metadata_reshdr
  pub boot_idx : h.boot_idx < 2 ^ 32
  pub integrity_table_reshdr : IsReshdr h.integrity_table_reshdr

reshdr_layout :
    (r : Reshdr) → IsReshdr r → bytes_reshdr (reshdr_bytes (put_wim_reshdr r)) ≡ put_wim_reshdr r
unfolding bytes_reshdr reshdr_bytes put_wim_reshdr
reshdr_layout r v = λ i. record {
  size_in_wim = put_le 7 r.size_in_wim;
  flags = get_le-put_le 1 r.flags v.flags i;
  offset_in_wim = get_le-put_le 8 r.offset_in_wim v.offset_in_wim i;
  uncompressed_size = get_le-put_le 8 r.uncompressed_size v.uncompressed_size i;
}

length-reshdr_bytes : (r : Reshdr) → length (reshdr_bytes (put_wim_reshdr r)) ≡ 24
unfolding reshdr_bytes put_wim_reshdr
length-reshdr_bytes r = refl

-- The globally unique identifier, whose length is all that is known, and what stands behind it.
module _ (g back : List ℕ) where
  take_guid : (n : ℕ) → length g ≡ n → take n (g ++ back) ≡ g
  take_guid n e = rw (← e) (take-append g back)

  drop_guid : (n k : ℕ) → length g ≡ n → drop (n + k) (g ++ back) ≡ drop k back
  drop_guid n k e = sym (drop_more n k (g ++ back)) ∙ ap (drop k) (rw (← e) (drop-append g back))

  number_behind :
      (k w n : ℕ)
      → length g ≡ 16
      → n < 256 ^ w
      → take w (drop k back) ≡ put_le w n
      → get_le (take w (drop (16 + k) (g ++ back))) ≡ n
  number_behind k w n e fits there =
      ap get_le (ap (take w) (drop_guid 16 k e) ∙ there) ∙ get_le-put_le w n fits

  reshdr_behind :
      (k : ℕ) (r : Reshdr)
      → length g ≡ 16
      → IsReshdr r
      → take 24 (drop k back) ≡ reshdr_bytes (put_wim_reshdr r)
      → bytes_reshdr (take 24 (drop (16 + k) (g ++ back))) ≡ put_wim_reshdr r
  reshdr_behind k r e v there =
      ap bytes_reshdr (ap (take 24) (drop_guid 16 k e) ∙ there) ∙ reshdr_layout r v

-- What stands behind the identifier.
behind : Header → List ℕ
behind h =
    put_le 2 h.part_number
    ++ (put_le 2 h.total_parts
        ++ (put_le 4 h.image_count
            ++ (reshdr_bytes (put_wim_reshdr h.blob_table_reshdr)
                ++ (reshdr_bytes (put_wim_reshdr h.xml_data_reshdr)
                    ++ (reshdr_bytes (put_wim_reshdr h.boot_metadata_reshdr)
                        ++ (put_le 4 h.boot_idx
                            ++ (reshdr_bytes (put_wim_reshdr h.integrity_table_reshdr)
                                ++ replicate 60 0)))))))

-- Every field that `write_wim_header` fills in is found again at its offset.
pub header_layout :
    (h : Header) → IsHeader h → bytes_header (header_bytes (header_to_disk h)) ≡ header_to_disk h
unfolding bytes_header header_bytes header_to_disk reshdr_bytes put_wim_reshdr behind
header_layout h v = λ i. record {
  magic = get_le-put_le 8 h.magic v.magic i;
  hdr_size = wim_header_disk_size;
  wim_version = get_le-put_le 4 h.wim_version v.wim_version i;
  wim_flags = get_le-put_le 4 h.flags v.flags i;
  chunk_size = get_le-put_le 4 h.chunk_size v.chunk_size i;
  guid = take_guid h.guid (behind h) 16 v.guid i;
  part_number = number_behind h.guid (behind h) 0 2 h.part_number v.guid v.part_number refl i;
  total_parts = number_behind h.guid (behind h) 2 2 h.total_parts v.guid v.total_parts refl i;
  image_count = number_behind h.guid (behind h) 4 4 h.image_count v.guid v.image_count refl i;
  blob_table_reshdr =
      reshdr_behind h.guid (behind h) 8 h.blob_table_reshdr v.guid v.blob_table_reshdr refl i;
  xml_data_reshdr =
      reshdr_behind h.guid (behind h) 32 h.xml_data_reshdr v.guid v.xml_data_reshdr refl i;
  boot_metadata_reshdr =
      reshdr_behind h.guid (behind h) 56 h.boot_metadata_reshdr v.guid v.boot_metadata_reshdr refl
        i;
  boot_idx = number_behind h.guid (behind h) 80 4 h.boot_idx v.guid v.boot_idx refl i;
  integrity_table_reshdr =
      reshdr_behind h.guid (behind h) 84 h.integrity_table_reshdr v.guid v.integrity_table_reshdr
        refl i;
  unused = ap (take 60) (drop_guid h.guid (behind h) 16 108 v.guid) i;
}

pub length-header_bytes :
    (h : Header) → length h.guid ≡ 16 → length (header_bytes (header_to_disk h)) ≡ 208
unfolding header_bytes header_to_disk reshdr_bytes put_wim_reshdr
length-header_bytes h e = omega (arith, length-append h.guid)
