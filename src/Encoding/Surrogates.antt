-- ===== src/Encoding/Surrogates.antt =====
-- Two surrogates written one by one as UTF-8, which is no WTF-8: src/encoding.c.
use wimlib.Common.{
  ℕ, ◌+◌, ◌-◌, ◌*◌, ◌^◌, ◌≡◌, refl, ap, ◌∙◌, Bool, true, List, [], ◌∷◌, ◌++◌, length, drop_all,
  arith, some,
}
use wimlib.Common.Bytes.{All, IsByte}
use wimlib.Encoding.{
  ok, is_high_surrogate, is_low_surrogate, utf8_encode_codepoint, utf16le_decode_codepoint,
  utf16le_encode_codepoint, utf8_to_utf16le, utf16le_to_utf8,
}
use wimlib.Encoding.Convert.{
  codepoints, codepoints_step, nil_codepoints, encode_all, outcome, outcome-some,
  convert_string-outcome,
}
use wimlib.Encoding.RoundTrip.{utf8-IsDecoder, utf16le-IsDecoder, utf8_codepoints, utf8-All-IsByte}

-- The supplementary codepoint that a pair of surrogates stands for.
abbrev pub paired : ℕ → ℕ → ℕ
paired h l = 0x10000 + (h - 0xD800) * 2 ^ 10 + (l - 0xDC00)

abbrev pub utf8_of : List ℕ → List ℕ
utf8_of = encode_all utf8_encode_codepoint

abbrev pub utf16le_of : List ℕ → List ℕ
utf16le_of = encode_all utf16le_encode_codepoint

module _ (h l : ℕ) (high : is_high_surrogate h ≡ true) (low : is_low_surrogate l ≡ true) where
  pair_decodes : utf16le_decode_codepoint (utf16le_of (h ∷ l ∷ [])) true ≡ (4, paired h l)
  unfolding utf16le_decode_codepoint utf16le_encode_codepoint
  pair_decodes = ground arith

  pair_bytes : (length (utf16le_of (h ∷ l ∷ [])) ≡ 4) × All IsByte (utf16le_of (h ∷ l ∷ []))
  unfolding utf16le_encode_codepoint
  pair_bytes = ground arith

  utf8_lengths : (length (utf8_of (h ∷ l ∷ [])) ≡ 6) × (length (utf8_of (paired h l ∷ [])) ≡ 4)
  unfolding utf8_encode_codepoint
  utf8_lengths = ground arith

-- A high and a low surrogate, each written as three bytes of UTF-8, are accepted and become one
-- pair, which converts back to four bytes: the string was six bytes, and does not come back.
pub surrogate_halves :
    (malloc : ℕ → Bool) (h l : ℕ)
    → ((n : ℕ) → malloc n ≡ true)
    → is_high_surrogate h ≡ true
    → is_low_surrogate l ≡ true
    → (utf8_to_utf16le malloc (utf8_of (h ∷ l ∷ []))
        ≡ ok (utf16le_of (h ∷ l ∷ []) ++ (0 ∷ 0 ∷ [])) 4)
      × (utf16le_to_utf8 malloc (utf16le_of (h ∷ l ∷ []))
          ≡ ok (utf8_of (paired h l ∷ []) ++ (0 ∷ [])) 4)
      × (length (utf8_of (h ∷ l ∷ [])) ≡ 6)
unfolding utf8_to_utf16le utf16le_to_utf8
surrogate_halves malloc h l memory high low = (
  convert_string-outcome _ utf16le_encode_codepoint utf8-IsDecoder malloc (utf8_of (h ∷ l ∷ []))
        (utf8-All-IsByte (h ∷ l ∷ []))
      ∙ ap (outcome utf16le_encode_codepoint malloc)
          (utf8_codepoints _ (h ∷ l ∷ []) (omega arith) (ground arith, (ground arith, tt)))
      ∙ outcome-some utf16le_encode_codepoint malloc (h ∷ l ∷ []) memory
      ∙ ap (λ n. ok (utf16le_of (h ∷ l ∷ []) ++ utf16le_encode_codepoint 0) n)
          (pair_bytes h l high low).0
      ∙ (unfold utf16le_encode_codepoint in refl),
  convert_string-outcome _ utf8_encode_codepoint utf16le-IsDecoder malloc (utf16le_of (h ∷ l ∷ []))
        (pair_bytes h l high low).1
      ∙ ap (outcome utf8_encode_codepoint malloc) one_codepoint
      ∙ outcome-some utf8_encode_codepoint malloc (paired h l ∷ []) memory
      ∙ ap (λ n. ok (utf8_of (paired h l ∷ []) ++ utf8_encode_codepoint 0) n)
          (utf8_lengths h l high low).1
      ∙ (unfold utf8_encode_codepoint in refl),
  (utf8_lengths h l high low).0,
)
  where
    four : length (utf16le_of (h ∷ l ∷ [])) ≡ 4
    four = (pair_bytes h l high low).0

    one_codepoint :
        codepoints utf16le_decode_codepoint
          (length (utf16le_of (h ∷ l ∷ [])))
          (utf16le_of (h ∷ l ∷ []))
        ≡ some (paired h l ∷ [])
    one_codepoint = rw four (
        codepoints_step utf16le_decode_codepoint 3 (utf16le_of (h ∷ l ∷ [])) []
          (omega (arith, four)) (pair_decodes h l high low) (ground arith)
          (rw (drop_all 4 (utf16le_of (h ∷ l ∷ [])) (omega (arith, four)))
            (nil_codepoints utf16le_decode_codepoint 3)))
