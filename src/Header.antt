-- ===== src/Header.antt =====
-- The WIM header: src/header.c and include/wimlib/header.h, with the resource headers inside it
-- (src/resource.c and include/wimlib/resource.h). A structure on disk is packed and stored field by
-- field in the order of its declaration, so its bytes are the fields' bytes in a row.
pub mod Layout
pub mod Errors
pub mod RoundTrip
mod Tests
use wimlib.Common.{
  ℕ, zero, suc, ◌+◌, ◌-◌, ◌*◌, ◌/◌, ◌%◌, ◌^◌, ◌≤◌, ◌<◌, Bool, true, false, ◌&&◌, ◌||◌, not, List,
  [], ◌∷◌, ◌++◌, length, take, drop, replicate, ltb, ◌==◌, if◌then◌else◌, ◌≡◌,
}
use wimlib.Error.{
  Error, Result, ok, err, image_count, invalid_header, invalid_part_number, not_a_wim_file,
  unknown_version,
}
use wimlib.FileIo.{
  Filedes, Reply, Io, done, failed, waiting, aborts, ◌>>=◌, full_read, full_write, full_pwrite,
}
use wimlib.Common.Bytes.{put_le, get_le, IsByte, All}

abbrev pub wim_magic : ℕ
wim_magic = b'M' + b'S' * 2 ^ 8 + b'W' * 2 ^ 16 + b'I' * 2 ^ 24 + b'M' * 2 ^ 32

abbrev pub pwm_magic : ℕ
pwm_magic = b'W' + b'L' * 2 ^ 8 + b'P' * 2 ^ 16 + b'W' * 2 ^ 24 + b'M' * 2 ^ 32

abbrev pub wim_header_disk_size : ℕ
wim_header_disk_size = 208

abbrev pub wim_version_default : ℕ
wim_version_default = 0x10d00

abbrev pub wim_version_solid : ℕ
wim_version_solid = 0xe00

abbrev pub max_images : ℕ
max_images = 65535

-- struct wim_reshdr; `size_in_wim` has 56 bits and `flags` 8.
pub record Reshdr : Type 0 where
  pub size_in_wim : ℕ
  pub flags : ℕ
  pub offset_in_wim : ℕ
  pub uncompressed_size : ℕ

-- struct wim_reshdr_disk
pub record ReshdrDisk : Type 0 where
  pub size_in_wim : List ℕ
  pub flags : ℕ
  pub offset_in_wim : ℕ
  pub uncompressed_size : ℕ

pub get_wim_reshdr : ReshdrDisk → Reshdr
get_wim_reshdr d = record {
  size_in_wim = get_le d.size_in_wim % 2 ^ 56;
  flags = d.flags;
  offset_in_wim = d.offset_in_wim;
  uncompressed_size = d.uncompressed_size;
}

pub put_wim_reshdr : Reshdr → ReshdrDisk
put_wim_reshdr r = record {
  size_in_wim = put_le 7 r.size_in_wim;
  flags = r.flags;
  offset_in_wim = r.offset_in_wim;
  uncompressed_size = r.uncompressed_size;
}

-- struct wim_header_disk. A field of several bytes is the number that its bytes stand for.
pub record HeaderDisk : Type 0 where
  pub magic : ℕ
  pub hdr_size : ℕ
  pub wim_version : ℕ
  pub wim_flags : ℕ
  pub chunk_size : ℕ
  pub guid : List ℕ
  pub part_number : ℕ
  pub total_parts : ℕ
  pub image_count : ℕ
  pub blob_table_reshdr : ReshdrDisk
  pub xml_data_reshdr : ReshdrDisk
  pub boot_metadata_reshdr : ReshdrDisk
  pub boot_idx : ℕ
  pub integrity_table_reshdr : ReshdrDisk
  pub unused : List ℕ

-- struct wim_header
pub record Header : Type 0 where
  pub magic : ℕ
  pub wim_version : ℕ
  pub flags : ℕ
  pub chunk_size : ℕ
  pub guid : List ℕ
  pub part_number : ℕ
  pub total_parts : ℕ
  pub image_count : ℕ
  pub blob_table_reshdr : Reshdr
  pub xml_data_reshdr : Reshdr
  pub boot_metadata_reshdr : Reshdr
  pub boot_idx : ℕ
  pub integrity_table_reshdr : Reshdr

-- The bytes of `struct wim_reshdr_disk`, and back.
pub reshdr_bytes : ReshdrDisk → List ℕ
reshdr_bytes d =
    d.size_in_wim
    ++ (put_le 1 d.flags ++ (put_le 8 d.offset_in_wim ++ put_le 8 d.uncompressed_size))

pub bytes_reshdr : List ℕ → ReshdrDisk
bytes_reshdr s = record {
  size_in_wim = take 7 s;
  flags = get_le (take 1 (drop 7 s));
  offset_in_wim = get_le (take 8 (drop 8 s));
  uncompressed_size = get_le (take 8 (drop 16 s));
}

-- The bytes of `struct wim_header_disk`, and back, at the offsets that its comments give.
pub header_bytes : HeaderDisk → List ℕ
header_bytes d =
    put_le 8 d.magic
    ++ (put_le 4 d.hdr_size
        ++ (put_le 4 d.wim_version
            ++ (put_le 4 d.wim_flags
                ++ (put_le 4 d.chunk_size
                    ++ (d.guid
                        ++ (put_le 2 d.part_number
                            ++ (put_le 2 d.total_parts
                                ++ (put_le 4 d.image_count
                                    ++ (reshdr_bytes d.blob_table_reshdr
                                        ++ (reshdr_bytes d.xml_data_reshdr
                                            ++ (reshdr_bytes d.boot_metadata_reshdr
                                                ++ (put_le 4 d.boot_idx
                                                    ++ (reshdr_bytes d.integrity_table_reshdr
                                                        ++ d.unused)))))))))))))

-- `width` bytes at an offset
abbrev pub field : ℕ → ℕ → List ℕ → List ℕ
field offset width s = take width (drop offset s)

pub bytes_header : List ℕ → HeaderDisk
bytes_header s = record {
  magic = get_le (field 0x00 8 s);
  hdr_size = get_le (field 0x08 4 s);
  wim_version = get_le (field 0x0c 4 s);
  wim_flags = get_le (field 0x10 4 s);
  chunk_size = get_le (field 0x14 4 s);
  guid = field 0x18 16 s;
  part_number = get_le (field 0x28 2 s);
  total_parts = get_le (field 0x2a 2 s);
  image_count = get_le (field 0x2c 4 s);
  blob_table_reshdr = bytes_reshdr (field 0x30 24 s);
  xml_data_reshdr = bytes_reshdr (field 0x48 24 s);
  boot_metadata_reshdr = bytes_reshdr (field 0x60 24 s);
  boot_idx = get_le (field 0x78 4 s);
  integrity_table_reshdr = bytes_reshdr (field 0x7c 24 s);
  unused = field 0x94 60 s;
}

-- The filling of `disk_hdr` in `write_wim_header`.
pub header_to_disk : Header → HeaderDisk
header_to_disk hdr = record {
  magic = hdr.magic;
  hdr_size = wim_header_disk_size;
  wim_version = hdr.wim_version;
  wim_flags = hdr.flags;
  chunk_size = hdr.chunk_size;
  guid = hdr.guid;
  part_number = hdr.part_number;
  total_parts = hdr.total_parts;
  image_count = hdr.image_count;
  blob_table_reshdr = put_wim_reshdr hdr.blob_table_reshdr;
  xml_data_reshdr = put_wim_reshdr hdr.xml_data_reshdr;
  boot_metadata_reshdr = put_wim_reshdr hdr.boot_metadata_reshdr;
  boot_idx = hdr.boot_idx;
  integrity_table_reshdr = put_wim_reshdr hdr.integrity_table_reshdr;
  unused = replicate 60 0;
}

pub write_wim_header : List Reply → Header → Filedes → ℕ → Io Filedes
write_wim_header rs hdr out_fd offset =
    let disk_hdr = header_bytes (header_to_disk hdr) in
    if offset == out_fd.offset
    then full_write rs out_fd disk_hdr
    else full_pwrite rs out_fd disk_hdr offset

-- Only the flags, at their offset in the header.
pub write_wim_header_flags : List Reply → ℕ → Filedes → Io Filedes
write_wim_header_flags rs hdr_flags out_fd = full_pwrite rs out_fd (put_le 4 hdr_flags) 0x10

-- The part of a WIMStruct that `read_wim_header` uses.
pub record Wim : Type 0 where
  pub in_fd : Filedes
  pub file_size : ℕ

-- Where `lseek(fd, -WIM_HEADER_DISK_SIZE, SEEK_END)` leaves the system's position, at which the next
-- `full_read` reads. The `offset` that the program keeps is not changed by it, and nothing reads that
-- before `read_wim_header` returns, which does not give the descriptor back.
abbrev pub seek_to_trailer : Filedes → Filedes
seek_to_trailer fd = record fd { offset = length fd.contents - wim_header_disk_size }

-- The checks of `read_wim_header` behind the magic number, on the header that was read last.
pub check_disk_header : ℕ → ℕ → HeaderDisk → Result Header
check_disk_header file_size magic d =
    let hdr : Header = record {
      magic = magic;
      wim_version = d.wim_version;
      flags = d.wim_flags;
      chunk_size = d.chunk_size;
      guid = d.guid;
      part_number = d.part_number;
      total_parts = d.total_parts;
      image_count = d.image_count;
      blob_table_reshdr = get_wim_reshdr d.blob_table_reshdr;
      xml_data_reshdr = get_wim_reshdr d.xml_data_reshdr;
      boot_metadata_reshdr = get_wim_reshdr d.boot_metadata_reshdr;
      boot_idx = d.boot_idx;
      integrity_table_reshdr = get_wim_reshdr d.integrity_table_reshdr;
    } in
    if not (d.hdr_size == wim_header_disk_size)
    then err invalid_header
    else if not (d.wim_version == wim_version_default) && not (d.wim_version == wim_version_solid)
    then err unknown_version
    else if d.total_parts == 0 || (d.part_number == 0 || ltb d.total_parts d.part_number)
    then err invalid_part_number
    else if ltb max_images d.image_count
    then err image_count
    else if ltb 0 file_size
        && (ltb file_size d.blob_table_reshdr.uncompressed_size
            || (ltb file_size d.xml_data_reshdr.uncompressed_size
                || ltb file_size d.integrity_table_reshdr.uncompressed_size))
    then err invalid_header
    else ok hdr

abbrev pub lift {ℓ} : {A : Type ℓ} → List Reply → Result A → Io A
lift rs (ok a) = done a rs
lift rs (err e) = failed e

-- A pipable WIM that is no pipe: the header at the end is used, with the magic number of the first.
-- `seeks` says whether the `lseek` succeeds.
pub read_trailer : List Reply → Bool → ℕ → ℕ → Filedes → Io Header
read_trailer rs seeks file_size magic fd =
    let again = full_read rs (seek_to_trailer fd) wim_header_disk_size >>= λ (bs, _) rs'.
    lift rs' (check_disk_header file_size magic (bytes_header bs)) in
    if seeks then again else failed Error.read

-- What is made of the first read.
pub choose_header : List Reply → Bool → ℕ → HeaderDisk → Filedes → Io Header
choose_header rs seeks file_size d fd =
    if d.magic == wim_magic
    then lift rs (check_disk_header file_size d.magic d)
    else if d.magic == pwm_magic
    then (if fd.is_pipe
        then lift rs (check_disk_header file_size d.magic d)
        else read_trailer rs seeks file_size d.magic fd)
    else failed not_a_wim_file

pub read_wim_header : List Reply → Bool → Wim → Io Header
read_wim_header rs seeks wim =
    let chosen = full_read rs wim.in_fd wim_header_disk_size >>= λ (bs, fd) rs'.
    choose_header rs' seeks wim.file_size (bytes_header bs) fd in
    if wim.in_fd.offset == 0 then chosen else aborts
