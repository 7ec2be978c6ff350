-- ===== src/Header/Tests.antt =====
-- The theorems on src/header.c at the header of an archive of one part, written over an older one.
use wimlib.Common.{ℕ, ◌≡◌, ◌⊎◌, refl, inl, inr, false, List, [], ◌∷◌, replicate, arith}
use wimlib.FileIo.{Filedes, Reply, moves, done, full_read, full_write, overwrite}
use wimlib.Header.{
  Reshdr, Header, wim_magic, pwm_magic, header_bytes, header_to_disk, bytes_header,
  write_wim_header, read_wim_header, wim_version_default, choose_header, check_disk_header,
  bytes_reshdr, reshdr_bytes, get_wim_reshdr, put_wim_reshdr,
}
use wimlib.Header.Layout.{IsHeader, IsReshdr}
use wimlib.Header.Errors.{IsAccepted, read_wim_header-IsAccepted}
use wimlib.Header.RoundTrip.{read-write_wim_header}

abbrev resource : Reshdr
resource = record { size_in_wim = 50; flags = 2; offset_in_wim = 208; uncompressed_size = 50 }

abbrev header : Header
header = record {
  magic = wim_magic;
  wim_version = wim_version_default;
  flags = 0x20002;
  chunk_size = 32768;
  guid = replicate 16 7;
  part_number = 1;
  total_parts = 1;
  image_count = 1;
  blob_table_reshdr = resource;
  xml_data_reshdr = resource;
  boot_metadata_reshdr = resource;
  boot_idx = 1;
  integrity_table_reshdr = resource;
}

resource-IsReshdr : IsReshdr resource
resource-IsReshdr = record {
  size_in_wim = omega arith;
  flags = omega arith;
  offset_in_wim = omega arith;
  uncompressed_size = omega arith;
}

header-IsHeader : IsHeader header
header-IsHeader = record {
  magic = omega arith;
  wim_version = omega arith;
  flags = omega arith;
  chunk_size = omega arith;
  guid = refl;
  part_number = omega arith;
  total_parts = omega arith;
  image_count = omega arith;
  blob_table_reshdr = resource-IsReshdr;
  xml_data_reshdr = resource-IsReshdr;
  boot_metadata_reshdr = resource-IsReshdr;
  boot_idx = omega arith;
  integrity_table_reshdr = resource-IsReshdr;
}

header-IsAccepted : IsAccepted 300 header
header-IsAccepted = record {
  known_version = inl refl;
  some_part = omega arith;
  within_parts = omega arith;
  few_images = omega arith;
  sizes = inr (omega arith, omega arith, omega arith);
}

abbrev file : Filedes
file = record { contents = []; offset = 0; is_pipe = false }

abbrev written : List ℕ
written = header_bytes (header_to_disk header)

abbrev all_at_once : List Reply
all_at_once = moves 300 ∷ []

abbrev one_by_one : List Reply
one_by_one = replicate 208 (moves 0)

read_wim_header-IsAccepted_example :
    IsAccepted 300 header × ((header.magic ≡ wim_magic) ⊎ (header.magic ≡ pwm_magic))
unfolding read_wim_header choose_header check_disk_header full_read header_bytes header_to_disk
    bytes_header bytes_reshdr reshdr_bytes get_wim_reshdr put_wim_reshdr
read_wim_header-IsAccepted_example =
    read_wim_header-IsAccepted all_at_once false
      (record { in_fd = record file { contents = written }; file_size = 300 }) {h = header}
      {rs' = []} refl

read-write_wim_header_example :
    (rs' : List Reply) × (read_wim_header one_by_one false (record {
      in_fd = record { contents = written; offset = 0; is_pipe = false };
      file_size = 300;
    })
      ≡ done header rs')
unfolding write_wim_header full_write overwrite header_bytes header_to_disk reshdr_bytes
    put_wim_reshdr
read-write_wim_header_example =
    read-write_wim_header all_at_once one_by_one header file 300 false false
      {out' = record file { contents = written; offset = 208 }} {ws' = []} refl header-IsHeader
      header-IsAccepted refl tt
