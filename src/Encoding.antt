-- ===== src/Encoding.antt =====
-- src/encoding.c: the codepoint codecs of UTF-8 and UTF-16LE, and the conversion of a whole string.
-- A string is the list of its bytes. A decoder is given what is left of the string, so that the
-- length of the list is the source's `remaining`; a read past the end, which `validate` rules out,
-- is a read of 0.
pub mod Bytes
pub mod Utf8
pub mod Utf16
pub mod Convert
pub mod RoundTrip
pub mod Surrogates
pub mod Compare
mod Tests
use wimlib.Common.{
  ℕ, zero, suc, ◌+◌, ◌-◌, ◌*◌, ◌/◌, ◌%◌, ◌^◌, Bool, true, false, not, ◌&&◌, ◌||◌, List, [], ◌∷◌,
  ◌++◌, length, get_or, drop, ltb, leb, ◌==◌, if◌then◌else◌, min,
}
use wimlib.Common.Bytes.{put_le, get_le}
use Prim.Native.Nat.{bit_and, bit_or}

abbrev pub invalid_codepoint : ℕ
invalid_codepoint = 0xFFFF_FFFF

abbrev pub is_surrogate : ℕ → Bool
is_surrogate c = leb 0xD800 c && ltb c 0xE000

abbrev pub is_high_surrogate : ℕ → Bool
is_high_surrogate c = leb 0xD800 c && ltb c 0xDC00

abbrev pub is_low_surrogate : ℕ → Bool
is_low_surrogate c = leb 0xDC00 c && ltb c 0xE000

abbrev pub is_utf8_tail : ℕ → Bool
is_utf8_tail c = bit_and c 0xC0 == 0x80

-- `in[i]`
abbrev pub at : List ℕ → ℕ → ℕ
at s i = get_or s i 0

-- VALIDATE: a test that is made only on request.
abbrev pub rejects : Bool → Bool → Bool
rejects validate holds = validate && not holds

-- The two, three and four bytes of a longer UTF-8 sequence put together.
abbrev pub join2 : List ℕ → ℕ
join2 s = bit_or (bit_and (at s 0) 0x1F * 2 ^ 6) (bit_and (at s 1) 0x3F)

abbrev pub join3 : List ℕ → ℕ
join3 s =
    bit_or (bit_or (bit_and (at s 0) 0x0F * 2 ^ 12) (bit_and (at s 1) 0x3F * 2 ^ 6))
      (bit_and (at s 2) 0x3F)

abbrev pub join4 : List ℕ → ℕ
join4 s =
    bit_or
      (bit_or (bit_or (bit_and (at s 0) 0x07 * 2 ^ 18) (bit_and (at s 1) 0x3F * 2 ^ 12))
        (bit_and (at s 2) 0x3F * 2 ^ 6))
      (bit_and (at s 3) 0x3F)

-- The bytes consumed, and the codepoint.
pub utf8_decode_codepoint : List ℕ → Bool → ℕ × ℕ
utf8_decode_codepoint s validate =
    if ltb (at s 0) 0x80
    then (1, at s 0)
    else if ltb (at s 0) 0xE0
    then (if rejects validate (leb 0xC2 (at s 0) && (leb 2 (length s) && is_utf8_tail (at s 1)))
        then (1, invalid_codepoint)
        else (2, join2 s))
    else if ltb (at s 0) 0xF0
    then (if rejects validate (leb 3 (length s) && (is_utf8_tail (at s 1) && is_utf8_tail (at s 2)))
        then (1, invalid_codepoint)
        else if rejects validate (leb 0x800 (join3 s))
        then (1, invalid_codepoint)
        else (3, join3 s))
    else if rejects validate (
        ltb (at s 0) 0xF8
        && (leb 4 (length s)
            && (is_utf8_tail (at s 1) && (is_utf8_tail (at s 2) && is_utf8_tail (at s 3)))))
    then (1, invalid_codepoint)
    else if rejects validate (leb 0x10000 (join4 s) && leb (join4 s) 0x10FFFF)
    then (1, invalid_codepoint)
    else (4, join4 s)

-- What is written at `out`; a store to a `u8` keeps the low byte.
pub utf8_encode_codepoint : ℕ → List ℕ
utf8_encode_codepoint c =
    if ltb c 0x80
    then c % 256 ∷ []
    else if ltb c 0x800
    then bit_or 0xC0 (c / 2 ^ 6) % 256 ∷ bit_or 0x80 (bit_and c 0x3F) % 256 ∷ []
    else if ltb c 0x10000
    then (bit_or 0xE0 (c / 2 ^ 12) % 256)
      ∷ (bit_or 0x80 (bit_and (c / 2 ^ 6) 0x3F) % 256)
      ∷ (bit_or 0x80 (bit_and c 0x3F) % 256)
      ∷ []
    else (bit_or 0xF0 (c / 2 ^ 18) % 256)
      ∷ (bit_or 0x80 (bit_and (c / 2 ^ 12) 0x3F) % 256)
      ∷ (bit_or 0x80 (bit_and (c / 2 ^ 6) 0x3F) % 256)
      ∷ (bit_or 0x80 (bit_and c 0x3F) % 256)
      ∷ []

-- `get_unaligned_le16(in)` and `get_unaligned_le16(in + 2)`
abbrev pub unit0 : List ℕ → ℕ
unit0 s = at s 0 + 256 * at s 1

abbrev pub unit1 : List ℕ → ℕ
unit1 s = at s 2 + 256 * at s 3

-- ALLOW_UNPAIRED_SURROGATES is 1: a surrogate outside a pair stands for itself.
pub utf16le_decode_codepoint : List ℕ → Bool → ℕ × ℕ
utf16le_decode_codepoint s validate =
    if rejects validate (leb 2 (length s))
    then (min (length s) 2, invalid_codepoint)
    else if is_surrogate (unit0 s)
    then (if not (is_high_surrogate (unit0 s)) || ltb (length s) 4
        then (2, unit0 s)
        else if not (is_low_surrogate (unit1 s))
        then (2, unit0 s)
        else (4, 0x10000 + (unit0 s - 0xD800) * 2 ^ 10 + (unit1 s - 0xDC00)))
    else (2, unit0 s)

pub utf16le_encode_codepoint : ℕ → List ℕ
utf16le_encode_codepoint c =
    if ltb c 0x10000
    then put_le 2 c
    else put_le 2 (0xD800 + (c - 0x10000) / 2 ^ 10)
      ++ put_le 2 (0xDC00 + bit_and (c - 0x10000) 0x3FF)

abbrev pub DecodeCodepoint : Type 0
DecodeCodepoint = List ℕ → Bool → ℕ × ℕ

abbrev pub EncodeCodepoint : Type 0
EncodeCodepoint = ℕ → List ℕ

-- What `convert_string` returns: the allocated bytes with `*out_nbytes_ret`, or an error. `stuck` is
-- none of the source's: the model's loop ran out of fuel.
pub data Converted : Type 0 where
  ok : List ℕ → ℕ → Converted
  ilseq nomem stuck : Converted

-- The outcome of the first loop.
pub data Sized : Type 0 where
  valid : ℕ → Sized
  malformed unfinished : Sized

module _ (decode : DecodeCodepoint) (encode : EncodeCodepoint) where
  -- The first loop: validate the string and add up the output's size.
  pub measure : ℕ → List ℕ → ℕ → Sized
  measure fuel [] out_nbytes = valid out_nbytes
  measure zero (b ∷ s) out_nbytes = unfinished
  measure (suc fuel) (b ∷ s) out_nbytes =
      let (n, c) = decode (b ∷ s) true in
      let rest = measure fuel (drop n (b ∷ s)) (out_nbytes + length (encode c)) in
      if c == invalid_codepoint then malformed else rest

  -- The second loop: what is written from `p_out` on.
  pub emit : ℕ → List ℕ → List ℕ
  emit fuel [] = []
  emit zero (b ∷ s) = []
  emit (suc fuel) (b ∷ s) =
      let (n, c) = decode (b ∷ s) false in encode c ++ emit fuel (drop n (b ∷ s))

  -- Allocation, the second loop and the terminator. `malloc` says whether an allocation of that many
  -- bytes succeeds.
  pub finish : (ℕ → Bool) → List ℕ → Sized → Converted
  finish malloc s malformed = ilseq
  finish malloc s unfinished = stuck
  finish malloc s (valid out_nbytes) =
      if malloc (out_nbytes + length (encode 0))
      then ok (emit (length s) s ++ encode 0) out_nbytes
      else nomem

  pub convert_string : (ℕ → Bool) → List ℕ → Converted
  convert_string malloc s = finish malloc s (measure (length s) s 0)

pub utf8_to_utf16le : (ℕ → Bool) → List ℕ → Converted
utf8_to_utf16le = convert_string utf8_decode_codepoint utf16le_encode_codepoint

pub utf16le_to_utf8 : (ℕ → Bool) → List ℕ → Converted
utf16le_to_utf8 = convert_string utf16le_decode_codepoint utf8_encode_codepoint
