-- ===== src/Encoding/RoundTrip.antt =====
-- `utf8_to_utf16le` and `utf16le_to_utf8` of src/encoding.c on whole strings.
use wimlib.Common.{
  ℕ, zero, suc, ◌+◌, ◌%◌, ◌≤◌, ◌<◌, ◌≡◌, ◌≢◌, ◌↔◌, refl, ap, ap₂, sym, ◌∙◌, Bool, true, false, List,
  [], ◌∷◌, ◌++◌, drop, length, length-append, length-drop, take-append-drop, arith, none, some,
}
use native.Mathlib.Decide.{dec_lt}
use wimlib.Common.Bytes.{All, IsByte, drop-append}
use wimlib.Encoding.{
  ok, ilseq, invalid_codepoint, utf8_decode_codepoint, utf8_encode_codepoint,
  utf16le_decode_codepoint, utf16le_encode_codepoint, utf8_to_utf16le, utf16le_to_utf8,
}
use wimlib.Encoding.Convert.{
  IsDecoder, codepoints, encode_all, drop-IsByte, outcome, convert_string-outcome, shorter,
  codepoints_step, nil_codepoints, outcome-some, outcome-none, outcome-ilseq, Fits, no_codepoints,
  invalid_codepoints, none-codepoints, convert_string-Fits,
}
use wimlib.Encoding.Utf8
use wimlib.Encoding.Utf16

pub utf8-IsDecoder : IsDecoder utf8_decode_codepoint
utf8-IsDecoder = record { progress = positive; unchecked = same }
  where
    positive :
        (b : ℕ) (s : List ℕ) → All IsByte (b ∷ s) → 1 ≤ (utf8_decode_codepoint (b ∷ s) true).0
    positive b s _ = unfold utf8_decode_codepoint in ground arith

    same :
        (b : ℕ) (s : List ℕ)
        → All IsByte (b ∷ s)
        → (utf8_decode_codepoint (b ∷ s) true).1 ≢ invalid_codepoint
        → utf8_decode_codepoint (b ∷ s) false ≡ utf8_decode_codepoint (b ∷ s) true
    same b s _ ne = unfold utf8_decode_codepoint in ground arith

pub utf16le-IsDecoder : IsDecoder utf16le_decode_codepoint
utf16le-IsDecoder = record { progress = positive; unchecked = same }
  where
    positive :
        (b : ℕ) (s : List ℕ) → All IsByte (b ∷ s) → 1 ≤ (utf16le_decode_codepoint (b ∷ s) true).0
    positive b s _ = unfold utf16le_decode_codepoint in ground arith

    same :
        (b : ℕ) (s : List ℕ)
        → All IsByte (b ∷ s)
        → (utf16le_decode_codepoint (b ∷ s) true).1 ≢ invalid_codepoint
        → utf16le_decode_codepoint (b ∷ s) false ≡ utf16le_decode_codepoint (b ∷ s) true
    same b s _ ne = unfold utf16le_decode_codepoint in ground arith

abbrev pub IsScalar : ℕ → Type 0
IsScalar c = c < 0x110000

-- Every string of whole units is made of codepoints, and these are written back as the same string.
utf16le_codepoints :
    (fuel : ℕ) (s : List ℕ)
    → length s ≤ fuel
    → All IsByte s
    → length s % 2 ≡ 0
    → (cs : List ℕ) × (codepoints utf16le_decode_codepoint fuel s ≡ some cs)
      × All IsScalar cs
      × (encode_all utf16le_encode_codepoint cs ≡ s)
utf16le_codepoints zero [] h bytes even = ([], nil_codepoints utf16le_decode_codepoint _, tt, refl)
utf16le_codepoints (suc fuel) [] h bytes even =
    ([], nil_codepoints utf16le_decode_codepoint _, tt, refl)
utf16le_codepoints zero (b ∷ s) h bytes even = absurd (omega arith)
utf16le_codepoints (suc fuel) (b ∷ s) h bytes even =
    let n = (utf16le_decode_codepoint (b ∷ s) true).0 in
    let c = (utf16le_decode_codepoint (b ∷ s) true).1 in
    let r : Utf16.Reads (b ∷ s) n c =
      Utf16.decode-Reads (b ∷ s) n c true bytes (omega arith) refl in
    let (cs, split, small, back) =
      utf16le_codepoints fuel (drop n (b ∷ s)) (shorter n b s fuel r.some_bytes h)
        (drop-IsByte n (b ∷ s) bytes)
        (omega (
          arith,
          length-drop n (b ∷ s),
          Utf16.decode_even (b ∷ s) true (omega arith),
          r.in_string,
        )) in
    (
      c ∷ cs,
      codepoints_step utf16le_decode_codepoint fuel (b ∷ s) cs (omega arith) refl r.in_range split,
      (r.in_range, small),
      ap₂ ◌++◌ r.canonical back ∙ take-append-drop n (b ∷ s),
    )

utf8_length : (c : ℕ) → 1 ≤ length (utf8_encode_codepoint c)
utf8_length c = unfold utf8_encode_codepoint in ground arith

pub utf8_codepoints :
    (fuel : ℕ) (cs : List ℕ)
    → length (encode_all utf8_encode_codepoint cs) ≤ fuel
    → All IsScalar cs
    → codepoints utf8_decode_codepoint fuel (encode_all utf8_encode_codepoint cs) ≡ some cs
utf8_codepoints fuel [] h small = nil_codepoints utf8_decode_codepoint fuel
utf8_codepoints zero (c ∷ cs) h (hc, small) = absurd (
    omega (
      arith,
      utf8_length c,
      length-append (utf8_encode_codepoint c) (encode_all utf8_encode_codepoint cs),
    ))
utf8_codepoints (suc fuel) (c ∷ cs) h (hc, small) =
    codepoints_step utf8_decode_codepoint fuel _ cs (omega (arith, utf8_length c, sum))
      (Utf8.utf8_decode-encode c (encode_all utf8_encode_codepoint cs) true hc) hc
      (rw (drop-append (utf8_encode_codepoint c) (encode_all utf8_encode_codepoint cs))
        (utf8_codepoints fuel cs (omega (arith, utf8_length c, sum)) small))
  where
    sum :
        length (utf8_encode_codepoint c ++ encode_all utf8_encode_codepoint cs)
        ≡ length (utf8_encode_codepoint c) + length (encode_all utf8_encode_codepoint cs)
    sum = length-append (utf8_encode_codepoint c) (encode_all utf8_encode_codepoint cs)

utf8_encode-IsByte : (c : ℕ) → All IsByte (utf8_encode_codepoint c)
utf8_encode-IsByte c = unfold utf8_encode_codepoint in ground arith

pub append-IsByte : (xs ys : List ℕ) → All IsByte xs → All IsByte ys → All IsByte (xs ++ ys)
append-IsByte [] ys h k = k
append-IsByte (x ∷ xs) ys (hx, h) k = (hx, append-IsByte xs ys h k)

pub utf8-All-IsByte : (cs : List ℕ) → All IsByte (encode_all utf8_encode_codepoint cs)
utf8-All-IsByte [] = tt
utf8-All-IsByte (c ∷ cs) = append-IsByte _ _ (utf8_encode-IsByte c) (utf8-All-IsByte cs)

-- A string of whole UTF-16LE units, unpaired surrogates included, converts to UTF-8 and back to
-- itself, with its terminator, if memory does not run out.
pub utf16le-utf8-utf16le :
    (malloc : ℕ → Bool) (s : List ℕ)
    → ((n : ℕ) → malloc n ≡ true)
    → All IsByte s
    → length s % 2 ≡ 0
    → (u : List ℕ) × (utf16le_to_utf8 malloc s ≡ ok (u ++ (0 ∷ [])) (length u))
      × (utf8_to_utf16le malloc u ≡ ok (s ++ (0 ∷ 0 ∷ [])) (length s))
unfolding utf16le_to_utf8 utf8_to_utf16le
utf16le-utf8-utf16le malloc s memory bytes even =
    let (cs, split, small, back) = utf16le_codepoints (length s) s (omega arith) bytes even in
    (
      encode_all utf8_encode_codepoint cs,
      convert_string-outcome _ utf8_encode_codepoint utf16le-IsDecoder malloc s bytes
          ∙ ap (outcome utf8_encode_codepoint malloc) split
          ∙ outcome-some utf8_encode_codepoint malloc cs memory
          ∙ utf8_zero (encode_all utf8_encode_codepoint cs),
      convert_string-outcome _ utf16le_encode_codepoint utf8-IsDecoder malloc
            (encode_all utf8_encode_codepoint cs) (utf8-All-IsByte cs)
          ∙ ap (outcome utf16le_encode_codepoint malloc) (utf8_codepoints _ cs (omega arith) small)
          ∙ outcome-some utf16le_encode_codepoint malloc cs memory
          ∙ utf16le_zero (encode_all utf16le_encode_codepoint cs)
          ∙ ap (λ t. ok (t ++ (0 ∷ 0 ∷ [])) (length t)) back,
    )
  where
    utf8_zero :
        (u : List ℕ) → ok (u ++ utf8_encode_codepoint 0) (length u) ≡ ok (u ++ (0 ∷ [])) (length u)
    utf8_zero u = unfold utf8_encode_codepoint in refl

    utf16le_zero :
        (u : List ℕ)
        → ok (u ++ utf16le_encode_codepoint 0) (length u) ≡ ok (u ++ (0 ∷ 0 ∷ [])) (length u)
    utf16le_zero u = unfold utf16le_encode_codepoint in refl

odd_codepoints :
    (fuel : ℕ) (s : List ℕ)
    → All IsByte s
    → length s % 2 ≡ 1
    → codepoints utf16le_decode_codepoint fuel s ≡ none
odd_codepoints fuel [] bytes odd = absurd (omega arith)
odd_codepoints zero (b ∷ s) bytes odd = no_codepoints utf16le_decode_codepoint b s
odd_codepoints (suc fuel) (b ∷ []) bytes odd =
    invalid_codepoints utf16le_decode_codepoint fuel b [] (ap (λ p. p.1) (Utf16.decode_odd b))
odd_codepoints (suc fuel) (b ∷ b' ∷ s) bytes odd =
    let n = (utf16le_decode_codepoint (b ∷ b' ∷ s) true).0 in
    let r =
      Utf16.decode-Reads (b ∷ b' ∷ s) n (utf16le_decode_codepoint (b ∷ b' ∷ s) true).1 true bytes
        (omega arith) refl in
    none-codepoints utf16le_decode_codepoint fuel b (b' ∷ s) (
      odd_codepoints fuel (drop n (b ∷ b' ∷ s)) (drop-IsByte n (b ∷ b' ∷ s) bytes) (
        omega (
          arith,
          length-drop n (b ∷ b' ∷ s),
          Utf16.decode_even (b ∷ b' ∷ s) true (omega arith),
          r.in_string,
        )))

-- The conversion to UTF-8 rejects exactly the strings with half a unit at the end.
pub utf16le_to_utf8-ilseq :
    (malloc : ℕ → Bool) (s : List ℕ)
    → All IsByte s
    → (utf16le_to_utf8 malloc s ≡ ilseq) ↔ (length s % 2 ≡ 1)
unfolding utf16le_to_utf8
utf16le_to_utf8-ilseq malloc s bytes =
    let e = convert_string-outcome _ utf8_encode_codepoint utf16le-IsDecoder malloc s bytes in
    (
      λ h. elim (dec_lt (length s % 2) 1) [
        | yes even ↦
            let (cs, split, small, back) =
              utf16le_codepoints (length s) s (omega arith) bytes (omega arith) in
            absurd (outcome-ilseq utf8_encode_codepoint malloc cs (rw split at (sym e ∙ h)))
        | no odd ↦ omega arith
      ],
      λ odd.
          e
          ∙ ap (outcome utf8_encode_codepoint malloc) (odd_codepoints (length s) s bytes odd)
          ∙ outcome-none utf8_encode_codepoint malloc,
    )

-- Either conversion of any bytes ends, and what it writes, terminator included, is as long as what it
-- allocated.
pub conversions-Fit :
    (malloc : ℕ → Bool) (s : List ℕ)
    → All IsByte s
    → Fits malloc utf16le_encode_codepoint (utf8_to_utf16le malloc s)
      × Fits malloc utf8_encode_codepoint (utf16le_to_utf8 malloc s)
unfolding utf8_to_utf16le utf16le_to_utf8
conversions-Fit malloc s bytes = (
  convert_string-Fits _ _ utf8-IsDecoder malloc s bytes,
  convert_string-Fits _ _ utf16le-IsDecoder malloc s bytes,
)
