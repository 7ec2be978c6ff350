-- ===== src/Encoding/Utf16.antt =====
-- One codepoint of UTF-16LE: src/encoding.c, `utf16le_decode_codepoint` and
-- `utf16le_encode_codepoint`.
use wimlib.Common.{
  ℕ, ◌-◌, ◌%◌, ◌≤◌, ◌<◌, ◌≡◌, refl, Bool, true, List, [], ◌∷◌, ◌++◌, take, length, arith,
}
use wimlib.Common.Bytes.{All, IsByte}
use wimlib.Common.Bits.{bit_and_mask}
use wimlib.Encoding.{
  utf16le_encode_codepoint, utf16le_decode_codepoint, invalid_codepoint, is_high_surrogate,
  is_low_surrogate, unit0,
}

pub record Reads (s : List ℕ) (n c : ℕ) : Type 0 where
  pub in_range : c < 0x110000
  pub some_bytes : 1 ≤ n
  pub in_string : n ≤ length s
  pub canonical : utf16le_encode_codepoint c ≡ take n s

-- Any two bytes are a valid beginning, and what is read from them is written back as it was.
pub decode-Reads :
    (s : List ℕ) (n c : ℕ) (validate : Bool)
    → All IsByte s
    → 2 ≤ length s
    → utf16le_decode_codepoint s validate ≡ (n, c)
    → Reads s n c
unfolding utf16le_decode_codepoint utf16le_encode_codepoint
decode-Reads [] n c validate bytes some e = absurd (omega arith)
decode-Reads (a ∷ []) n c validate bytes some e = absurd (omega arith)
decode-Reads (a ∷ b ∷ []) n c validate bytes some e = ground arith
decode-Reads (a ∷ b ∷ d ∷ []) n c validate bytes some e = ground arith
decode-Reads (a ∷ b ∷ d ∷ f ∷ s) n c validate bytes some e =
    ground (arith, bit_and_mask 10 (c - 0x10000))

-- A single byte is no valid string.
pub decode_odd : (a : ℕ) → utf16le_decode_codepoint (a ∷ []) true ≡ (1, invalid_codepoint)
unfolding utf16le_decode_codepoint
decode_odd a = refl

-- The number of bytes consumed is even.
pub decode_even :
    (s : List ℕ) (validate : Bool) → 2 ≤ length s → (utf16le_decode_codepoint s validate).0 % 2 ≡ 0
unfolding utf16le_decode_codepoint
decode_even s validate h = ground arith

-- A high surrogate that is followed by a low one is the first half of a pair.
abbrev pub Pairs : ℕ → List ℕ → Type 0
Pairs c rest =
    (is_high_surrogate c ≡ true) × (is_low_surrogate (unit0 rest) ≡ true) × (2 ≤ length rest)

-- A codepoint that is written is read back, unless it is taken for the first half of a pair.
pub utf16le_decode-encode :
    (c : ℕ) (rest : List ℕ) (validate : Bool)
    → c < 0x110000
    → ¬ Pairs c rest
    → utf16le_decode_codepoint (utf16le_encode_codepoint c ++ rest) validate
      ≡ (length (utf16le_encode_codepoint c), c)
unfolding utf16le_decode_codepoint utf16le_encode_codepoint
utf16le_decode-encode c [] validate h np = ground (arith, bit_and_mask 10 (c - 0x10000))
utf16le_decode-encode c (a ∷ []) validate h np = ground (arith, bit_and_mask 10 (c - 0x10000))
utf16le_decode-encode c (a ∷ b ∷ rest) validate h np = ground (arith, bit_and_mask 10 (c - 0x10000))
