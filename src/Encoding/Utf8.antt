-- ===== src/Encoding/Utf8.antt =====
-- One codepoint of UTF-8: src/encoding.c, `utf8_decode_codepoint` and `utf8_encode_codepoint`.
use Prim.Native.Nat.{bit_and}
use wimlib.Common.{
  ℕ, ◌+◌, ◌*◌, ◌/◌, ◌%◌, ◌≤◌, ◌<◌, ◌≡◌, ◌≢◌, refl, ap₂, ◌∙◌, ◌⊎◌, inl, inr, Bool, true, false, List,
  [], ◌∷◌, ◌++◌, take, length, ltb, if◌then◌else◌, arith,
}
use wimlib.Common.Bytes.{All, IsByte}
use native.Mathlib.Decide.{dec_lt}
use wimlib.Encoding.{join4, utf8_encode_codepoint, utf8_decode_codepoint, invalid_codepoint}
use wimlib.Encoding.Bytes.{top_two, tail_byte, lead2, lead3, lead4, join2-sum, join3-sum, join4-sum}

abbrev tail : ℕ → ℕ
tail x = 128 + x % 64

abbrev sequence : ℕ → List ℕ
sequence c =
    if ltb c 0x80
    then c ∷ []
    else if ltb c 0x800
    then (192 + c / 64) ∷ tail c ∷ []
    else if ltb c 0x10000
    then (224 + c / 4096) ∷ tail (c / 64) ∷ tail c ∷ []
    else (240 + c / 262144) ∷ tail (c / 4096) ∷ tail (c / 64) ∷ tail c ∷ []

pub encode-sequence : (c : ℕ) → c < 0x110000 → utf8_encode_codepoint c ≡ sequence c
unfolding utf8_encode_codepoint
encode-sequence c h = ground (
  arith,
  tail_byte c,
  tail_byte (c / 64),
  tail_byte (c / 4096),
  lead2 (c / 64),
  lead3 (c / 4096),
  lead4 (c / 262144),
)

module _ (a x : ℕ) (rest : List ℕ) (validate : Bool) (hx : x < 64) where
  decode_two :
      2 ≤ a
      → a < 32
      → utf8_decode_codepoint ((192 + a) ∷ (128 + x) ∷ rest) validate ≡ (2, a * 64 + x)
  unfolding utf8_decode_codepoint
  decode_two lo hi = ground (arith, top_two (128 + x), join2-sum ((192 + a) ∷ (128 + x) ∷ rest))

  decode_three :
      (y : ℕ)
      → y < 64
      → a < 16
      → 0x800 ≤ (a * 64 + y) * 64 + x
      → utf8_decode_codepoint ((224 + a) ∷ (128 + y) ∷ (128 + x) ∷ rest) validate
        ≡ (3, (a * 64 + y) * 64 + x)
  unfolding utf8_decode_codepoint
  decode_three y hy hi lo = ground (
    arith,
    top_two (128 + x),
    top_two (128 + y),
    join3-sum ((224 + a) ∷ (128 + y) ∷ (128 + x) ∷ rest),
  )

  decode_four :
      (z y : ℕ)
      → z < 64
      → y < 64
      → a < 8
      → 0x10000 ≤ ((a * 64 + z) * 64 + y) * 64 + x
      → ((a * 64 + z) * 64 + y) * 64 + x < 0x110000
      → utf8_decode_codepoint ((240 + a) ∷ (128 + z) ∷ (128 + y) ∷ (128 + x) ∷ rest) validate
        ≡ (4, ((a * 64 + z) * 64 + y) * 64 + x)
  unfolding utf8_decode_codepoint
  decode_four z y hz hy ha lo hi = ground (
    arith,
    top_two (128 + x),
    top_two (128 + y),
    top_two (128 + z),
    join4-sum ((240 + a) ∷ (128 + z) ∷ (128 + y) ∷ (128 + x) ∷ rest),
  )

decode_one :
    (c : ℕ) (rest : List ℕ) (validate : Bool)
    → c < 128
    → utf8_decode_codepoint (c ∷ rest) validate ≡ (1, c)
unfolding utf8_decode_codepoint
decode_one c rest validate h = ground arith

pub decode-sequence :
    (c : ℕ) (rest : List ℕ) (validate : Bool)
    → c < 0x110000
    → utf8_decode_codepoint (sequence c ++ rest) validate ≡ (length (sequence c), c)
decode-sequence c rest validate h = ground (
  arith,
  decode_one c rest validate,
  decode_two (c / 64) (c % 64) rest validate (omega arith),
  decode_three (c / 4096) (c % 64) rest validate (omega arith) (c / 64 % 64),
  decode_four (c / 262144) (c % 64) rest validate (omega arith) (c / 4096 % 64) (c / 64 % 64),
)

-- A codepoint that is written is read back, whatever follows it.
pub utf8_decode-encode :
    (c : ℕ) (rest : List ℕ) (validate : Bool)
    → c < 0x110000
    → utf8_decode_codepoint (utf8_encode_codepoint c ++ rest) validate
      ≡ (length (utf8_encode_codepoint c), c)
utf8_decode-encode c rest validate h = rw (encode-sequence c h) (decode-sequence c rest validate h)

-- A codepoint that was read, seen from the bytes it was read from.
pub record Reads (s : List ℕ) (n c : ℕ) : Type 0 where
  pub in_range : c < 0x110000
  pub some_bytes : 1 ≤ n
  pub in_string : n ≤ length s
  pub canonical : sequence c ≡ take n s

four_bytes :
    (a b d f c : ℕ)
    → c ≡ ((a % 8 * 64 + b % 64) * 64 + d % 64) * 64 + f % 64
    → a < 248
    → 240 ≤ a
    → b / 64 ≡ 2
    → d / 64 ≡ 2
    → f / 64 ≡ 2
    → 0x10000 ≤ c
    → sequence c ≡ a ∷ b ∷ d ∷ f ∷ []
four_bytes a b d f c sum ha lo tb td tf cl =
    rw (lt_false c 0x80 (omega arith), lt_false c 0x800 (omega arith), lt_false c 0x10000 cl)
      (ap₂ ◌∷◌ (omega arith)
        (ap₂ ◌∷◌ (omega arith) (ap₂ ◌∷◌ (omega arith) (ap₂ ◌∷◌ (omega arith) refl))))
  where
    lt_false : (x y : ℕ) → y ≤ x → ltb x y ≡ false
    lt_false x y h = ground arith

module _ (a : ℕ) (n c : ℕ) (ne : c ≢ invalid_codepoint) where
  Reads-two :
      (b : ℕ) (s : List ℕ)
      → b < 256
      → 128 ≤ a
      → a < 224
      → utf8_decode_codepoint (a ∷ b ∷ s) true ≡ (n, c)
      → Reads (a ∷ b ∷ s) n c
  unfolding utf8_decode_codepoint
  Reads-two b s hb lo hi e = ground (arith, top_two b, join2-sum (a ∷ b ∷ s))

  Reads-three :
      (b d : ℕ) (s : List ℕ)
      → b < 256
      → d < 256
      → 224 ≤ a
      → a < 240
      → utf8_decode_codepoint (a ∷ b ∷ d ∷ s) true ≡ (n, c)
      → Reads (a ∷ b ∷ d ∷ s) n c
  unfolding utf8_decode_codepoint
  Reads-three b d s hb hd lo hi e = ground (arith, top_two b, top_two d, join3-sum (a ∷ b ∷ d ∷ s))

  accepts_four :
      (b d f : ℕ) (s : List ℕ)
      → 240 ≤ a
      → utf8_decode_codepoint (a ∷ b ∷ d ∷ f ∷ s) true ≡ (n, c)
      → (n ≡ 4)
        × (c ≡ join4 (a ∷ b ∷ d ∷ f ∷ s))
        × (a < 248)
        × (bit_and b 0xC0 ≡ 0x80)
        × (bit_and d 0xC0 ≡ 0x80)
        × (bit_and f 0xC0 ≡ 0x80)
        × (0x10000 ≤ c)
        × (c < 0x110000)
  unfolding utf8_decode_codepoint
  accepts_four b d f s lo e = ground arith

  Reads-four :
      (b d f : ℕ) (s : List ℕ)
      → b < 256
      → d < 256
      → f < 256
      → 240 ≤ a
      → utf8_decode_codepoint (a ∷ b ∷ d ∷ f ∷ s) true ≡ (n, c)
      → Reads (a ∷ b ∷ d ∷ f ∷ s) n c
  Reads-four b d f s hb hd hf lo e = fields (accepts_four b d f s lo e)
    where
      fields :
          (n ≡ 4)
            × (c ≡ join4 (a ∷ b ∷ d ∷ f ∷ s))
            × (a < 248)
            × (bit_and b 0xC0 ≡ 0x80)
            × (bit_and d 0xC0 ≡ 0x80)
            × (bit_and f 0xC0 ≡ 0x80)
            × (0x10000 ≤ c)
            × (c < 0x110000)
          → Reads (a ∷ b ∷ d ∷ f ∷ s) n c
      fields (en, ec, ha, eb, ed, ef, cl, ch) =
          let sum : c ≡ ((a % 8 * 64 + b % 64) * 64 + d % 64) * 64 + f % 64 =
            ec ∙ join4-sum (a ∷ b ∷ d ∷ f ∷ s) in
          let tb : b / 64 ≡ 2 = omega (arith, top_two b) in
          let td : d / 64 ≡ 2 = omega (arith, top_two d) in
          let tf : f / 64 ≡ 2 = omega (arith, top_two f) in
          record {
            in_range = ch;
            some_bytes = omega arith;
            in_string = omega arith;
            canonical = rw en (four_bytes a b d f c sum ha lo tb td tf cl);
          }

  Reads-one :
      (s : List ℕ) → a < 128 → utf8_decode_codepoint (a ∷ s) true ≡ (n, c) → Reads (a ∷ s) n c
  unfolding utf8_decode_codepoint
  Reads-one s h e = ground arith

  reads_short :
      (s : List ℕ)
      → length s ≡ 0 ⊎ (224 ≤ a) × (length s ≡ 1) ⊎ (240 ≤ a) × (length s ≡ 2)
      → 128 ≤ a
      → utf8_decode_codepoint (a ∷ s) true ≡ (n, c)
      → ⊥
  unfolding utf8_decode_codepoint
  reads_short s h lo e = ground arith

-- What the decoder accepts is a codepoint, and the bytes consumed are its one encoding.
pub decode-Reads :
    (s : List ℕ) (n c : ℕ)
    → All IsByte s
    → 0 < length s
    → utf8_decode_codepoint s true ≡ (n, c)
    → c ≢ invalid_codepoint
    → Reads s n c
decode-Reads [] n c bytes some e ne = absurd (omega arith)
decode-Reads (a ∷ s) n c bytes some e ne = elim (dec_lt a 128) [
  | yes h ↦ Reads-one a n c ne s h e
  | no h ↦ longer s bytes.1 (omega arith) e
]
  where
    longer :
        (s : List ℕ)
        → All IsByte s
        → 128 ≤ a
        → utf8_decode_codepoint (a ∷ s) true ≡ (n, c)
        → Reads (a ∷ s) n c
    longer [] _ h e = absurd (reads_short a n c ne [] (inl refl) h e)
    longer (b ∷ []) (hb, _) h e = elim (dec_lt a 224) [
      | yes k ↦ Reads-two a n c ne b [] hb h k e
      | no k ↦ absurd (reads_short a n c ne (b ∷ []) (inr (inl (omega arith, refl))) h e)
    ]
    longer (b ∷ d ∷ []) (hb, (hd, _)) h e = elim (dec_lt a 224) [
      | yes k ↦ Reads-two a n c ne b (d ∷ []) hb h k e
      | no k ↦ elim (dec_lt a 240) [
        | yes l ↦ Reads-three a n c ne b d [] hb hd (omega arith) l e
        | no l ↦ absurd (reads_short a n c ne (b ∷ d ∷ []) (inr (inr (omega arith, refl))) h e)
      ]
    ]
    longer (b ∷ d ∷ f ∷ s) (hb, (hd, (hf, _))) h e = elim (dec_lt a 224) [
      | yes k ↦ Reads-two a n c ne b (d ∷ f ∷ s) hb h k e
      | no k ↦ elim (dec_lt a 240) [
        | yes l ↦ Reads-three a n c ne b d (f ∷ s) hb hd (omega arith) l e
        | no l ↦ Reads-four a n c ne b d f s hb hd hf (omega arith) e
      ]
    ]
