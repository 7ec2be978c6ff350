-- ===== src/Header/RoundTrip.antt =====
-- A header that was written is read again: `write_wim_header` and `read_wim_header` of src/header.c.
use wimlib.Common.{
  ℕ, ◌%◌, ◌^◌, ◌≤◌, ◌≡◌, inl, inr, refl, ap, ap₂, sym, ◌∙◌, Bool, true, List, length, take, drop,
  ◌==◌, if-cases, ==_iff, arith,
}
use wimlib.Common.Bytes.{put_le, get_le, get_le-put_le}
use wimlib.Error.{ok}
use wimlib.FileIo.{Filedes, Reply, done, overwrite}
use wimlib.FileIo.Read.{full_read_total, full_read-Delivers, Serves}
use wimlib.FileIo.Write.{full_write-Writes, full_pwrite-WritesAt, take-overwrite, length-overwrite}
use wimlib.Header.{
  lift, choose_header, Reshdr, get_wim_reshdr, put_wim_reshdr, Header, HeaderDisk,
  check_disk_header, read_wim_header, write_wim_header, bytes_header, header_bytes, header_to_disk,
  wim_magic, wim_header_disk_size,
}
use wimlib.Header.Layout.{IsReshdr, IsHeader, header_layout, length-header_bytes}
use wimlib.Header.Errors.{IsAccepted}

-- What a resource header holds fits its form on disk.
pub get-put_wim_reshdr : (r : Reshdr) → IsReshdr r → get_wim_reshdr (put_wim_reshdr r) ≡ r
unfolding get_wim_reshdr put_wim_reshdr
get-put_wim_reshdr r v = λ i. record {
  size_in_wim = size i;
  flags = r.flags;
  offset_in_wim = r.offset_in_wim;
  uncompressed_size = r.uncompressed_size;
}
  where
    size : get_le (put_le 7 r.size_in_wim) % 2 ^ 56 ≡ r.size_in_wim
    size = omega (arith, get_le-put_le 7 r.size_in_wim v.size_in_wim, v.size_in_wim)

passes :
    (file_size : ℕ) (d : HeaderDisk) (h : Header)
    → IsAccepted file_size h
    → d ≡ header_to_disk h
    → check_disk_header file_size h.magic d
      ≡ ok (record h {
        blob_table_reshdr = get_wim_reshdr d.blob_table_reshdr;
        xml_data_reshdr = get_wim_reshdr d.xml_data_reshdr;
        boot_metadata_reshdr = get_wim_reshdr d.boot_metadata_reshdr;
        integrity_table_reshdr = get_wim_reshdr d.integrity_table_reshdr;
      })
unfolding check_disk_header header_to_disk put_wim_reshdr
passes file_size d h a e = rw e (ground arith)

check_written :
    (file_size : ℕ) (h : Header)
    → IsHeader h
    → IsAccepted file_size h
    → check_disk_header file_size h.magic (header_to_disk h) ≡ ok h
unfolding header_to_disk
check_written file_size h v a = passes file_size (header_to_disk h) h a refl ∙ λ i. ok (record h {
  blob_table_reshdr = get-put_wim_reshdr h.blob_table_reshdr v.blob_table_reshdr i;
  xml_data_reshdr = get-put_wim_reshdr h.xml_data_reshdr v.xml_data_reshdr i;
  boot_metadata_reshdr = get-put_wim_reshdr h.boot_metadata_reshdr v.boot_metadata_reshdr i;
  integrity_table_reshdr = get-put_wim_reshdr h.integrity_table_reshdr v.integrity_table_reshdr i;
})

chosen :
    (rs : List Reply) (seeks : Bool) (file_size : ℕ) (h : Header) (fd : Filedes)
    → IsHeader h
    → IsAccepted file_size h
    → h.magic ≡ wim_magic
    → choose_header rs seeks file_size (header_to_disk h) fd ≡ done h rs
unfolding choose_header
chosen rs seeks file_size h fd v a m =
    let yes_magic : ((header_to_disk h).magic == wim_magic) ≡ true =
      (==_iff _ _).1 (is_magic ∙ m) in
    rw yes_magic (
      ap (λ n. lift rs (check_disk_header file_size n (header_to_disk h))) is_magic
      ∙ ap (lift rs) (check_written file_size h v a))
  where
    is_magic : (header_to_disk h).magic ≡ h.magic
    is_magic = unfold header_to_disk in refl

-- The 208 bytes that `write_wim_header` leaves at its offset.
written_bytes :
    (ws : List Reply) (h : Header) (out : Filedes) (offset : ℕ) {out' : Filedes} {ws' : List Reply}
    → write_wim_header ws h out offset ≡ done out' ws'
    → offset ≤ length out.contents
    → out'.contents ≡ overwrite offset (header_bytes (header_to_disk h)) out.contents
unfolding write_wim_header
written_bytes ws h out offset e le = elim (if-cases (offset == out.offset) e) [
  | inl (same, k) ↦
      let o : offset ≡ out.offset = (==_iff _ _).0 same in
      (full_write-Writes ws out _ k (omega arith)).written
      ∙ ap (λ t. overwrite t (header_bytes (header_to_disk h)) out.contents) (sym o)
  | inr (_, k) ↦ (full_pwrite-WritesAt ws out _ offset k le).written
]

-- A header that fits its fields and meets the reader's conditions, written at the start of a file, is
-- read back by a reader that stands at the start, as it asserts, if the system serves the read.
pub read-write_wim_header :
    (ws rs : List Reply) (h : Header) (out : Filedes) (file_size : ℕ) (seeks is_pipe : Bool)
    {out' : Filedes} {ws' : List Reply}
    → write_wim_header ws h out 0 ≡ done out' ws'
    → IsHeader h
    → IsAccepted file_size h
    → h.magic ≡ wim_magic
    → Serves wim_header_disk_size rs
    → (rs' : List Reply) × (read_wim_header rs seeks (record {
      in_fd = record { contents = out'.contents; offset = 0; is_pipe = is_pipe };
      file_size = file_size;
    })
        ≡ done h rs')
unfolding read_wim_header
read-write_wim_header ws rs h out file_size seeks is_pipe {out'} e v a m serves =
    let fd : Filedes = record { contents = out'.contents; offset = 0; is_pipe = is_pipe } in
    let bytes = header_bytes (header_to_disk h) in
    let stored : out'.contents ≡ overwrite 0 bytes out.contents =
      written_bytes ws h out 0 e (omega arith) in
    let size : length bytes ≡ 208 = length-header_bytes h v.guid in
    let (p, rs', r) =
      full_read_total rs fd 208
        (omega (arith, length-overwrite 0 bytes out.contents, size, ap length stored)) serves in
    let d = full_read-Delivers rs fd 208 r in
    let same : p.0 ≡ bytes =
      d.bytes
      ∙ ap₂ (λ n s. take n (drop 0 s)) (sym size) stored
      ∙ take-overwrite 0 bytes out.contents in
    (
      rs',
      rw r (
          ap (λ b. choose_header rs' seeks file_size (bytes_header b) p.1) same
          ∙ ap (λ b. choose_header rs' seeks file_size b p.1) (header_layout h v)
          ∙ chosen rs' seeks file_size h p.1 v a m),
    )
