-- ===== src/Encoding/Tests.antt =====
-- The theorems on src/encoding.c at short strings: "é", an unpaired surrogate, and a pair.
use wimlib.Common.{ℕ, Bool, true, false, ◌≡◌, ◌↔◌, ◌++◌, ◌%◌, refl, List, [], ◌∷◌, length, arith}
use wimlib.Encoding.{
  ok, ilseq, utf8_to_utf16le, utf16le_to_utf8, utf8_decode_codepoint, utf8_encode_codepoint,
  utf16le_encode_codepoint,
}
use wimlib.Common.Int.{pos}
use wimlib.Encoding.Compare.{cmp_utf16le_strings, opposite, cmp_utf16le_strings-opposite}
use wimlib.Encoding.Convert.{Fits}
use wimlib.Encoding.RoundTrip.{utf16le-utf8-utf16le, conversions-Fit, utf16le_to_utf8-ilseq}
use wimlib.Encoding.Utf8.{utf8_decode-encode}
use wimlib.Encoding.Surrogates.{surrogate_halves, paired, utf8_of, utf16le_of}

abbrev enough_memory : ℕ → Bool
enough_memory n = true

-- "é" and an unpaired high surrogate
abbrev units : List ℕ
units = 0xE9 ∷ 0 ∷ 0x00 ∷ 0xD8 ∷ []

utf16le-utf8-utf16le_example :
    (u : List ℕ) × (utf16le_to_utf8 enough_memory units ≡ ok (u ++ (0 ∷ [])) (length u))
    × (utf8_to_utf16le enough_memory u ≡ ok (units ++ (0 ∷ 0 ∷ [])) (length units))
utf16le-utf8-utf16le_example =
    utf16le-utf8-utf16le enough_memory units (λ n. refl) (ground arith) refl

conversions-Fit_example :
    Fits enough_memory utf16le_encode_codepoint (utf8_to_utf16le enough_memory units)
    × Fits enough_memory utf8_encode_codepoint (utf16le_to_utf8 enough_memory units)
conversions-Fit_example = conversions-Fit enough_memory units (ground arith)

utf16le_to_utf8-ilseq_example :
    (utf16le_to_utf8 enough_memory (0xE9 ∷ 0 ∷ 0 ∷ []) ≡ ilseq)
    ↔ (length {A = ℕ} (0xE9 ∷ 0 ∷ 0 ∷ []) % 2 ≡ 1)
utf16le_to_utf8-ilseq_example =
    utf16le_to_utf8-ilseq enough_memory (0xE9 ∷ 0 ∷ 0 ∷ []) (ground arith)

utf8_decode-encode_example :
    utf8_decode_codepoint (utf8_encode_codepoint 0x20AC ++ (1 ∷ [])) true
    ≡ (length (utf8_encode_codepoint 0x20AC), 0x20AC)
utf8_decode-encode_example = utf8_decode-encode 0x20AC (1 ∷ []) true (omega arith)

surrogate_halves_example :
    (utf8_to_utf16le enough_memory (utf8_of (0xD83D ∷ 0xDE00 ∷ []))
      ≡ ok (utf16le_of (0xD83D ∷ 0xDE00 ∷ []) ++ (0 ∷ 0 ∷ [])) 4)
    × (utf16le_to_utf8 enough_memory (utf16le_of (0xD83D ∷ 0xDE00 ∷ []))
        ≡ ok (utf8_of (paired 0xD83D 0xDE00 ∷ []) ++ (0 ∷ [])) 4)
    × (length (utf8_of (0xD83D ∷ 0xDE00 ∷ [])) ≡ 6)
surrogate_halves_example = surrogate_halves enough_memory 0xD83D 0xDE00 (λ n. refl) refl refl

cmp_utf16le_strings-opposite_example :
    (cmp_utf16le_strings (0x62 ∷ []) (0x61 ∷ 0x63 ∷ []) true
      ≡ opposite (cmp_utf16le_strings (0x61 ∷ 0x63 ∷ []) (0x62 ∷ []) true))
    × ((cmp_utf16le_strings (0x61 ∷ 0x63 ∷ []) (0x62 ∷ []) false ≡ pos 0)
        ↔ (◌≡◌ {A = List ℕ} (0x61 ∷ 0x63 ∷ []) (0x62 ∷ [])))
cmp_utf16le_strings-opposite_example =
    cmp_utf16le_strings-opposite (0x61 ∷ 0x63 ∷ []) (0x62 ∷ []) true
