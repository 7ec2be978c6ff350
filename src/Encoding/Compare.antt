-- ===== src/Encoding/Compare.antt =====
-- The case folding and the comparison of UTF-16LE strings in src/encoding.c. A string is the list of its
-- code units; the array `upcase` is the list of its values.
use wimlib.Common.{
  ℕ, zero, suc, ◌+◌, ◌*◌, ◌/◌, ◌%◌, ◌^◌, ◌≡◌, ◌↔◌, refl, ap, ap₂, sym, ◌∙◌, Bool, false, List, [],
  ◌∷◌, ◌++◌, length, get_or, ltb, leb, ◌==◌, if◌then◌else◌, ==_iff, if-cases, inl, inr, arith,
}
use wimlib.Common.Int.{ℤ, pos, negsuc}

pub upcase_compressed : List ℕ
upcase_compressed =
    0x0000 ∷ 0x0000 ∷ 0x0060 ∷ 0x0000 ∷ 0x0000 ∷ 0xffe0 ∷ 0x0019 ∷ 0x0061 ∷ 0x0061 ∷ 0x0000 ∷ 0x001b
    ∷ 0x005d ∷ 0x0008 ∷ 0x0060 ∷ 0x0000 ∷ 0x0079 ∷ 0x0000 ∷ 0x0000 ∷ 0x0000 ∷ 0xffff ∷ 0x002f
    ∷ 0x0100 ∷ 0x0002 ∷ 0x0000 ∷ 0x0007 ∷ 0x012b ∷ 0x0011 ∷ 0x0121 ∷ 0x002f ∷ 0x0103 ∷ 0x0006
    ∷ 0x0101 ∷ 0x0000 ∷ 0x00c3 ∷ 0x0006 ∷ 0x0131 ∷ 0x0007 ∷ 0x012e ∷ 0x0004 ∷ 0x0000 ∷ 0x0003
    ∷ 0x012f ∷ 0x0000 ∷ 0x0061 ∷ 0x0004 ∷ 0x0130 ∷ 0x0000 ∷ 0x00a3 ∷ 0x0003 ∷ 0x0000 ∷ 0x0000
    ∷ 0x0082 ∷ 0x000b ∷ 0x0131 ∷ 0x0006 ∷ 0x0189 ∷ 0x0008 ∷ 0x012f ∷ 0x0007 ∷ 0x012e ∷ 0x0000
    ∷ 0x0038 ∷ 0x0006 ∷ 0x0000 ∷ 0x0000 ∷ 0xfffe ∷ 0x0007 ∷ 0x01c4 ∷ 0x000f ∷ 0x0101 ∷ 0x0000
    ∷ 0xffb1 ∷ 0x0015 ∷ 0x011e ∷ 0x0004 ∷ 0x01cc ∷ 0x002a ∷ 0x0149 ∷ 0x0014 ∷ 0x0149 ∷ 0x0007
    ∷ 0x0000 ∷ 0x0009 ∷ 0x018c ∷ 0x000b ∷ 0x0138 ∷ 0x0000 ∷ 0x2a1f ∷ 0x0000 ∷ 0x2a1c ∷ 0x0000
    ∷ 0x0000 ∷ 0x0000 ∷ 0xff2e ∷ 0x0000 ∷ 0xff32 ∷ 0x0000 ∷ 0x0000 ∷ 0x0000 ∷ 0xff33 ∷ 0x0000
    ∷ 0xff33 ∷ 0x0000 ∷ 0x0000 ∷ 0x0000 ∷ 0xff36 ∷ 0x0000 ∷ 0x0000 ∷ 0x0000 ∷ 0xff35 ∷ 0x0004
    ∷ 0x0000 ∷ 0x0002 ∷ 0x0257 ∷ 0x0000 ∷ 0x0000 ∷ 0x0000 ∷ 0xff31 ∷ 0x0004 ∷ 0x0000 ∷ 0x0000
    ∷ 0xff2f ∷ 0x0000 ∷ 0xff2d ∷ 0x0000 ∷ 0x0000 ∷ 0x0000 ∷ 0x29f7 ∷ 0x0003 ∷ 0x0000 ∷ 0x0002
    ∷ 0x0269 ∷ 0x0000 ∷ 0x29fd ∷ 0x0000 ∷ 0xff2b ∷ 0x0002 ∷ 0x0000 ∷ 0x0000 ∷ 0xff2a ∷ 0x0007
    ∷ 0x0000 ∷ 0x0000 ∷ 0x29e7 ∷ 0x0002 ∷ 0x0000 ∷ 0x0000 ∷ 0xff26 ∷ 0x0005 ∷ 0x027e ∷ 0x0003
    ∷ 0x027e ∷ 0x0000 ∷ 0xffbb ∷ 0x0000 ∷ 0xff27 ∷ 0x0000 ∷ 0xff27 ∷ 0x0000 ∷ 0xffb9 ∷ 0x0005
    ∷ 0x0000 ∷ 0x0000 ∷ 0xff25 ∷ 0x0065 ∷ 0x007b ∷ 0x0079 ∷ 0x0293 ∷ 0x0008 ∷ 0x012d ∷ 0x0003
    ∷ 0x019c ∷ 0x0002 ∷ 0x037b ∷ 0x002e ∷ 0x0000 ∷ 0x0000 ∷ 0xffda ∷ 0x0000 ∷ 0xffdb ∷ 0x0002
    ∷ 0x03ad ∷ 0x0012 ∷ 0x0060 ∷ 0x000a ∷ 0x0060 ∷ 0x0000 ∷ 0xffc0 ∷ 0x0000 ∷ 0xffc1 ∷ 0x0000
    ∷ 0xffc1 ∷ 0x0008 ∷ 0x0000 ∷ 0x0000 ∷ 0xfff8 ∷ 0x001a ∷ 0x0118 ∷ 0x0000 ∷ 0x0007 ∷ 0x0008
    ∷ 0x018d ∷ 0x0009 ∷ 0x0233 ∷ 0x0046 ∷ 0x0035 ∷ 0x0006 ∷ 0x0061 ∷ 0x0000 ∷ 0xffb0 ∷ 0x000f
    ∷ 0x0450 ∷ 0x0025 ∷ 0x010e ∷ 0x000a ∷ 0x036b ∷ 0x0032 ∷ 0x048b ∷ 0x000e ∷ 0x0100 ∷ 0x0000
    ∷ 0xfff1 ∷ 0x0037 ∷ 0x048a ∷ 0x0026 ∷ 0x0465 ∷ 0x0034 ∷ 0x0000 ∷ 0x0000 ∷ 0xffd0 ∷ 0x0025
    ∷ 0x0561 ∷ 0x00de ∷ 0x0293 ∷ 0x1714 ∷ 0x0587 ∷ 0x0000 ∷ 0x8a04 ∷ 0x0003 ∷ 0x0000 ∷ 0x0000
    ∷ 0x0ee6 ∷ 0x0087 ∷ 0x02ee ∷ 0x0092 ∷ 0x1e01 ∷ 0x0069 ∷ 0x1df7 ∷ 0x0000 ∷ 0x0008 ∷ 0x0007
    ∷ 0x1f00 ∷ 0x0008 ∷ 0x0000 ∷ 0x000e ∷ 0x1f02 ∷ 0x0008 ∷ 0x1f0e ∷ 0x0010 ∷ 0x1f06 ∷ 0x001a
    ∷ 0x1f06 ∷ 0x0002 ∷ 0x1f0f ∷ 0x0007 ∷ 0x1f50 ∷ 0x0017 ∷ 0x1f19 ∷ 0x0000 ∷ 0x004a ∷ 0x0000
    ∷ 0x004a ∷ 0x0000 ∷ 0x0056 ∷ 0x0003 ∷ 0x1f72 ∷ 0x0000 ∷ 0x0064 ∷ 0x0000 ∷ 0x0064 ∷ 0x0000
    ∷ 0x0080 ∷ 0x0000 ∷ 0x0080 ∷ 0x0000 ∷ 0x0070 ∷ 0x0000 ∷ 0x0070 ∷ 0x0000 ∷ 0x007e ∷ 0x0000
    ∷ 0x007e ∷ 0x0028 ∷ 0x1f1e ∷ 0x000c ∷ 0x1f06 ∷ 0x0000 ∷ 0x0000 ∷ 0x0000 ∷ 0x0009 ∷ 0x000f
    ∷ 0x0000 ∷ 0x000d ∷ 0x1fb3 ∷ 0x000d ∷ 0x1f44 ∷ 0x0008 ∷ 0x1fcd ∷ 0x0006 ∷ 0x03f2 ∷ 0x0015
    ∷ 0x1fbb ∷ 0x014e ∷ 0x0587 ∷ 0x0000 ∷ 0xffe4 ∷ 0x0021 ∷ 0x0000 ∷ 0x0000 ∷ 0xfff0 ∷ 0x000f
    ∷ 0x2170 ∷ 0x000a ∷ 0x0238 ∷ 0x0346 ∷ 0x0587 ∷ 0x0000 ∷ 0xffe6 ∷ 0x0019 ∷ 0x24d0 ∷ 0x0746
    ∷ 0x0587 ∷ 0x0026 ∷ 0x0561 ∷ 0x000b ∷ 0x057e ∷ 0x0004 ∷ 0x012f ∷ 0x0000 ∷ 0xd5d5 ∷ 0x0000
    ∷ 0xd5d8 ∷ 0x000c ∷ 0x022e ∷ 0x000e ∷ 0x03f8 ∷ 0x006e ∷ 0x1e33 ∷ 0x0011 ∷ 0x0000 ∷ 0x0000
    ∷ 0xe3a0 ∷ 0x0025 ∷ 0x2d00 ∷ 0x17f2 ∷ 0x0587 ∷ 0x6129 ∷ 0x2d26 ∷ 0x002e ∷ 0x0201 ∷ 0x002a
    ∷ 0x1def ∷ 0x0098 ∷ 0xa5b7 ∷ 0x0040 ∷ 0x1dff ∷ 0x000e ∷ 0x0368 ∷ 0x000d ∷ 0x022b ∷ 0x034c
    ∷ 0x2184 ∷ 0x5469 ∷ 0x2d26 ∷ 0x007f ∷ 0x0061 ∷ 0x0040 ∷ 0x0000 ∷ []

-- A match may read what it has just written.
pub copy_match : ℕ → ℕ → List ℕ → List ℕ
copy_match zero src_pos upcase = upcase
copy_match (suc length) src_pos upcase =
    copy_match length ((src_pos + 1) % 2 ^ 16) (upcase ++ (get_or upcase src_pos 0 ∷ []))

-- "Simple LZ decoder": what is written of the array up to now, and the input that is left.
pub lz_decode : List ℕ → List ℕ → List ℕ
lz_decode [] upcase = upcase
lz_decode (length ∷ []) upcase = upcase
lz_decode (n ∷ src_pos ∷ in_next) upcase =
    let literal = lz_decode in_next (upcase ++ (src_pos ∷ [])) in
    let match_ = lz_decode in_next (copy_match n src_pos upcase) in
    if leb 65536 (length upcase) then upcase else if n == 0 then literal else match_

-- "Delta filter", from index `i` on.
pub delta_filter : ℕ → List ℕ → List ℕ
delta_filter i [] = []
delta_filter i (c ∷ upcase) = (c + i) % 2 ^ 16 ∷ delta_filter (i + 1) upcase

pub init_upcase : List ℕ
init_upcase = delta_filter 0 (lz_decode upcase_compressed [])

-- The loop of `cmp_utf16le_strings`, with what it compares of a unit, and the lengths behind it.
pub compare_units : (ℕ → ℕ) → List ℕ → List ℕ → ℤ
compare_units fold [] [] = pos 0
compare_units fold [] (b ∷ s2) = negsuc 0
compare_units fold (a ∷ s1) [] = pos 1
compare_units fold (a ∷ s1) (b ∷ s2) =
    let rest = compare_units fold s1 s2 in
    if fold a == fold b then rest else if ltb (fold a) (fold b) then negsuc 0 else pos 1

abbrev pub folding : Bool → ℕ → ℕ
folding ignore_case c = if ignore_case then get_or init_upcase c 0 else c

pub cmp_utf16le_strings : List ℕ → List ℕ → Bool → ℤ
cmp_utf16le_strings s1 s2 ignore_case = compare_units (folding ignore_case) s1 s2

-- What stands before the null terminator.
pub until_null : List ℕ → List ℕ
until_null [] = []
until_null (c ∷ s) = let rest = until_null s in if c == 0 then [] else c ∷ rest

pub utf16le_len_bytes : List ℕ → ℕ
utf16le_len_bytes s = length (until_null s) * 2

pub utf16le_len_chars : List ℕ → ℕ
utf16le_len_chars s = utf16le_len_bytes s / 2

-- The sign of the comparison the other way round.
abbrev pub opposite : ℤ → ℤ
opposite (pos zero) = pos 0
opposite (pos (suc n)) = negsuc n
opposite (negsuc n) = pos (suc n)

module _ (fold : ℕ → ℕ) where
  compare_units-opposite :
      (s1 s2 : List ℕ) → compare_units fold s2 s1 ≡ opposite (compare_units fold s1 s2)
  unfolding compare_units
  compare_units-opposite [] [] = refl
  compare_units-opposite [] (b ∷ s2) = refl
  compare_units-opposite (a ∷ s1) [] = refl
  compare_units-opposite (a ∷ s1) (b ∷ s2) = let rest = compare_units-opposite s1 s2 in ground arith

  compare_units-equal :
      (s1 s2 : List ℕ)
      → ((a b : ℕ) → fold a ≡ fold b → a ≡ b)
      → compare_units fold s1 s2 ≡ pos 0
      → s1 ≡ s2
  unfolding compare_units
  compare_units-equal [] [] inj e = refl
  compare_units-equal [] (b ∷ s2) inj e = cc
  compare_units-equal (a ∷ s1) [] inj e = absurd (ground arith)
  compare_units-equal (a ∷ s1) (b ∷ s2) inj e = elim (if-cases (fold a == fold b) e) [
    | inl (h, e') ↦ ap₂ (◌∷◌) (inj a b ((==_iff _ _).0 h)) (compare_units-equal s1 s2 inj e')
    | inr (h, e') ↦ absurd (ground arith)
  ]

compare_units_self : (fold : ℕ → ℕ) (s : List ℕ) → compare_units fold s s ≡ pos 0
unfolding compare_units
compare_units_self fold [] = refl
compare_units_self fold (a ∷ s) = let rest = compare_units_self fold s in ground arith

-- Comparing two strings the other way round gives the opposite sign, with and without regard to case,
-- and two strings compare as equal with regard to case exactly if they are equal.
pub cmp_utf16le_strings-opposite :
    (s1 s2 : List ℕ) (ignore_case : Bool)
    → (cmp_utf16le_strings s2 s1 ignore_case ≡ opposite (cmp_utf16le_strings s1 s2 ignore_case))
      × ((cmp_utf16le_strings s1 s2 false ≡ pos 0) ↔ (s1 ≡ s2))
unfolding cmp_utf16le_strings
cmp_utf16le_strings-opposite s1 s2 ignore_case = (
  compare_units-opposite (folding ignore_case) s1 s2,
  (
    compare_units-equal (folding false) s1 s2 (λ a b e. e),
    λ e. ap (compare_units (folding false) s1) (sym e) ∙ compare_units_self (folding false) s1,
  ),
)
