-- ===== src/Header/Errors.antt =====
-- What `read_wim_header` of src/header.c accepts.
use wimlib.Common.{
  ℕ, ◌≤◌, ◌≡◌, ◌⊎◌, inl, inr, sym, Bool, true, false, List, ◌==◌, if-cases, ==_iff, subst, arith,
}
use wimlib.Error.{Error, Result, ok, err}
use wimlib.FileIo.{Filedes, Reply, done, failed, aborts, full_read}
use wimlib.FileIo.Read.{bind-done}
use wimlib.Header.{
  lift, read_trailer, choose_header, get_wim_reshdr, Header, HeaderDisk, Wim, check_disk_header,
  read_wim_header, bytes_header, wim_magic, pwm_magic, wim_version_default, wim_version_solid,
  max_images, wim_header_disk_size, seek_to_trailer,
}

-- The conditions on a header, in the order of the checks.
pub record IsAccepted (file_size : ℕ) (h : Header) : Type 0 where
  pub known_version : (h.wim_version ≡ wim_version_default) ⊎ (h.wim_version ≡ wim_version_solid)
  pub some_part : 1 ≤ h.part_number
  pub within_parts : h.part_number ≤ h.total_parts
  pub few_images : h.image_count ≤ max_images
  pub sizes :
      (file_size ≡ 0)
      ⊎ ((h.blob_table_reshdr.uncompressed_size ≤ file_size)
          × (h.xml_data_reshdr.uncompressed_size ≤ file_size)
          × (h.integrity_table_reshdr.uncompressed_size ≤ file_size))

-- A header that passes the checks meets the conditions.
check-IsAccepted :
    (file_size magic : ℕ) (d : HeaderDisk) (h : Header)
    → check_disk_header file_size magic d ≡ ok h
    → IsAccepted file_size h × (h.magic ≡ magic)
unfolding check_disk_header get_wim_reshdr
check-IsAccepted file_size magic d h e = ground arith

lift-ok :
    (rs : List Reply) (r : Result Header) {h : Header} {rs' : List Reply}
    → lift rs r ≡ done h rs'
    → r ≡ ok h
lift-ok rs (ok a) e = cc
lift-ok rs (err x) e = cc

failed_done : {x : Error} {h : Header} {rs : List Reply} → failed x ≡ done h rs → ⊥
failed_done e = cc

aborts_done : {h : Header} {rs : List Reply} → aborts ≡ done h rs → ⊥
aborts_done e = cc

abbrev KnownMagic : ℕ → Type 0
KnownMagic magic = (magic ≡ wim_magic) ⊎ (magic ≡ pwm_magic)

checked :
    (rs : List Reply) (file_size magic : ℕ) (d : HeaderDisk) {h : Header} {rs' : List Reply}
    → KnownMagic magic
    → lift rs (check_disk_header file_size magic d) ≡ done h rs'
    → IsAccepted file_size h × KnownMagic h.magic
checked rs file_size magic d {h} known e =
    let (a, m) = check-IsAccepted file_size magic d h (lift-ok rs _ e) in
    (a, subst KnownMagic (sym m) known)

trailer-IsAccepted :
    (rs : List Reply) (seeks : Bool) (file_size magic : ℕ) (fd : Filedes) {h : Header}
    {rs' : List Reply}
    → KnownMagic magic
    → read_trailer rs seeks file_size magic fd ≡ done h rs'
    → IsAccepted file_size h × KnownMagic h.magic
unfolding read_trailer
trailer-IsAccepted rs false file_size magic fd known e = absurd (failed_done e)
trailer-IsAccepted rs true file_size magic fd known e =
    let (p, rs', e1, e2) =
      bind-done (full_read rs (seek_to_trailer fd) wim_header_disk_size)
        (λ p rs'. lift rs' (check_disk_header file_size magic (bytes_header p.0))) e in
    checked rs' file_size magic (bytes_header p.0) known e2

chosen-IsAccepted :
    (rs : List Reply) (seeks : Bool) (file_size : ℕ) (d : HeaderDisk) (fd : Filedes) {h : Header}
    {rs' : List Reply}
    → choose_header rs seeks file_size d fd ≡ done h rs'
    → IsAccepted file_size h × KnownMagic h.magic
unfolding choose_header
chosen-IsAccepted rs seeks file_size d fd e = elim (if-cases (d.magic == wim_magic) e) [
  | inl (m, k) ↦ checked rs file_size d.magic d (inl ((==_iff _ _).0 m)) k
  | inr (_, k) ↦ elim (if-cases (d.magic == pwm_magic) k) [
    | inr (_, l) ↦ absurd (failed_done l)
    | inl (m, l) ↦ elim (if-cases fd.is_pipe l) [
      | inl (_, q) ↦ checked rs file_size d.magic d (inr ((==_iff _ _).0 m)) q
      | inr (_, q) ↦ trailer-IsAccepted rs seeks file_size d.magic fd (inr ((==_iff _ _).0 m)) q
    ]
  ]
]

-- A header that is read has one of the two magic numbers and a known version, is a part with a number
-- from 1 to the number of parts, has at most 65535 images, and its blob table, XML data and integrity
-- table are no larger than the file, where the file's size is known.
pub read_wim_header-IsAccepted :
    (rs : List Reply) (seeks : Bool) (wim : Wim) {h : Header} {rs' : List Reply}
    → read_wim_header rs seeks wim ≡ done h rs'
    → IsAccepted wim.file_size h × ((h.magic ≡ wim_magic) ⊎ (h.magic ≡ pwm_magic))
unfolding read_wim_header
read_wim_header-IsAccepted rs seeks wim e = elim (if-cases (wim.in_fd.offset == 0) e) [
  | inl (_, e') ↦
      let (p, rs1, e1, e2) =
        bind-done (full_read rs wim.in_fd wim_header_disk_size)
          (λ p rs'. choose_header rs' seeks wim.file_size (bytes_header p.0) p.1) e' in
      chosen-IsAccepted rs1 seeks wim.file_size (bytes_header p.0) p.1 e2
  | inr (_, e') ↦ absurd (aborts_done e')
]
