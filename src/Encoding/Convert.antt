-- ===== src/Encoding/Convert.antt =====
-- The two loops of `convert_string` against the list of codepoints that a string stands for.
use wimlib.Common.{
  ℕ, zero, suc, ◌+◌, ◌≤◌, ◌<◌, ◌≡◌, ◌≢◌, refl, ap, sym, ◌∙◌, Bool, true, false, List, [], ◌∷◌, ◌++◌,
  drop, length, length-append, length-drop, ◌==◌, ==_iff, if◌then◌else◌, arith, Option, none, some,
  Bool-cases, Option-cases, inl, inr,
}
use mathlib.Core.Bool.{true≢false}
use native.Mathlib.Nat.{zero-add}
use wimlib.Common.Bytes.{All, IsByte}
use wimlib.Encoding.{
  DecodeCodepoint, EncodeCodepoint, Converted, ok, ilseq, nomem, stuck, Sized, valid, malformed,
  measure, emit, finish, convert_string, invalid_codepoint,
}

abbrev prepend : ℕ → Option (List ℕ) → Option (List ℕ)
prepend c none = none
prepend c (some cs) = some (c ∷ cs)

-- The codepoints of a string; `none` if a part of it is malformed.
pub codepoints : DecodeCodepoint → ℕ → List ℕ → Option (List ℕ)
codepoints decode fuel [] = some []
codepoints decode zero (b ∷ s) = none
codepoints decode (suc fuel) (b ∷ s) =
    let (n, c) = decode (b ∷ s) true in
    let rest = codepoints decode fuel (drop n (b ∷ s)) in
    if c == invalid_codepoint then none else prepend c rest

-- The encodings of codepoints, one after the other.
abbrev pub encode_all : EncodeCodepoint → List ℕ → List ℕ
encode_all encode [] = []
encode_all encode (c ∷ cs) = encode c ++ encode_all encode cs

-- What the loops need of a decoder, on the strings `P` that they meet.
pub record IsDecoder (decode : DecodeCodepoint) : Type 0 where
  pub progress : (b : ℕ) (s : List ℕ) → All IsByte (b ∷ s) → 1 ≤ (decode (b ∷ s) true).0
  pub unchecked :
      (b : ℕ) (s : List ℕ)
      → All IsByte (b ∷ s)
      → (decode (b ∷ s) true).1 ≢ invalid_codepoint
      → decode (b ∷ s) false ≡ decode (b ∷ s) true

pub drop-IsByte : (n : ℕ) (s : List ℕ) → All IsByte s → All IsByte (drop n s)
drop-IsByte zero s h = h
drop-IsByte (suc n) [] h = h
drop-IsByte (suc n) (b ∷ s) h = drop-IsByte n s h.1

-- A string is malformed, or it is made of codepoints.
abbrev pub sized : EncodeCodepoint → ℕ → Option (List ℕ) → Sized
sized encode k none = malformed
sized encode k (some cs) = valid (k + length (encode_all encode cs))

pub shorter :
    (n b : ℕ) (s : List ℕ) (fuel : ℕ)
    → 1 ≤ n
    → length (b ∷ s) ≤ suc fuel
    → length (drop n (b ∷ s)) ≤ fuel
shorter n b s fuel h le = omega (arith, length-drop n (b ∷ s))

none-some : {cs : List ℕ} → ◌≡◌ {A = Option (List ℕ)} none (some cs) → ⊥
none-some e = cc

some_eq : {cs cs' : List ℕ} → ◌≡◌ {A = Option (List ℕ)} (some cs) (some cs') → cs ≡ cs'
some_eq e = cc

pub codepoints_nil :
    (decode : DecodeCodepoint) (fuel : ℕ) (cs : List ℕ)
    → codepoints decode fuel [] ≡ some cs
    → [] ≡ cs
unfolding codepoints
codepoints_nil decode zero cs e = cc
codepoints_nil decode (suc fuel) cs e = cc

-- The first codepoint of a string, and the rest.
pub codepoints_cons :
    (decode : DecodeCodepoint) (fuel b : ℕ) (s cs : List ℕ)
    → codepoints decode (suc fuel) (b ∷ s) ≡ some cs
    → ((decode (b ∷ s) true).1 ≢ invalid_codepoint)
      × (cs' : List ℕ) × (codepoints decode fuel (drop (decode (b ∷ s) true).0 (b ∷ s)) ≡ some cs')
      × (cs ≡ (decode (b ∷ s) true).1 ∷ cs')
unfolding codepoints
codepoints_cons decode fuel b s cs e =
    elim (Bool-cases ((decode (b ∷ s) true).1 == invalid_codepoint)) [
      | inl i ↦ absurd (none-some (rw i at e))
      | inr i ↦
          elim (Option-cases (codepoints decode fuel (drop (decode (b ∷ s) true).0 (b ∷ s)))) [
            | inl n ↦ absurd (none-some (rw (i, n) at e))
            | inr (cs', n) ↦ (
              λ q. true≢false (sym ((==_iff _ _).1 q) ∙ i),
              cs',
              n,
              sym (some_eq (rw (i, n) at e)),
            )
          ]
    ]

pub nil_codepoints : (decode : DecodeCodepoint) (fuel : ℕ) → codepoints decode fuel [] ≡ some []
unfolding codepoints
nil_codepoints decode zero = refl
nil_codepoints decode (suc fuel) = refl

pub no_codepoints :
    (decode : DecodeCodepoint) (b : ℕ) (s : List ℕ) → codepoints decode zero (b ∷ s) ≡ none
unfolding codepoints
no_codepoints decode b s = refl

pub invalid_codepoints :
    (decode : DecodeCodepoint) (fuel b : ℕ) (s : List ℕ)
    → (decode (b ∷ s) true).1 ≡ invalid_codepoint
    → codepoints decode (suc fuel) (b ∷ s) ≡ none
unfolding codepoints
invalid_codepoints decode fuel b s e = rw ((==_iff _ _).1 e) refl

pub none-codepoints :
    (decode : DecodeCodepoint) (fuel b : ℕ) (s : List ℕ)
    → codepoints decode fuel (drop (decode (b ∷ s) true).0 (b ∷ s)) ≡ none
    → codepoints decode (suc fuel) (b ∷ s) ≡ none
unfolding codepoints
none-codepoints decode fuel b s e = rw e (ground arith)

pub codepoints_step :
    (decode : DecodeCodepoint) (fuel : ℕ) (s cs : List ℕ) {n c : ℕ}
    → 1 ≤ length s
    → decode s true ≡ (n, c)
    → c < 0x110000
    → codepoints decode fuel (drop n s) ≡ some cs
    → codepoints decode (suc fuel) s ≡ some (c ∷ cs)
unfolding codepoints
codepoints_step decode fuel [] cs some_bytes e lt rest = absurd (omega arith)
codepoints_step decode fuel (b ∷ s) cs {n} {c} some_bytes e lt rest =
    let fine : (c == invalid_codepoint) ≡ false = ground arith in rw (e, fine, rest) refl

-- The outcome of a conversion: an error if the string is malformed, or if there is no memory for
-- the output and its terminator, and otherwise the encodings of the codepoints.
pub outcome : EncodeCodepoint → (ℕ → Bool) → Option (List ℕ) → Converted
outcome encode malloc none = ilseq
outcome encode malloc (some cs) =
    if malloc (length (encode_all encode cs) + length (encode 0))
    then ok (encode_all encode cs ++ encode 0) (length (encode_all encode cs))
    else nomem

pub outcome-some :
    (encode : EncodeCodepoint) (malloc : ℕ → Bool) (cs : List ℕ)
    → ((n : ℕ) → malloc n ≡ true)
    → outcome encode malloc (some cs)
      ≡ ok (encode_all encode cs ++ encode 0) (length (encode_all encode cs))
unfolding outcome
outcome-some encode malloc cs memory = rw (memory _) refl

pub outcome-none :
    (encode : EncodeCodepoint) (malloc : ℕ → Bool) → outcome encode malloc none ≡ ilseq
unfolding outcome
outcome-none encode malloc = refl

pub outcome-ilseq :
    (encode : EncodeCodepoint) (malloc : ℕ → Bool) (cs : List ℕ)
    → outcome encode malloc (some cs) ≢ ilseq
unfolding outcome
outcome-ilseq encode malloc cs = ground arith

-- What `p_out` runs over is what was allocated.
abbrev pub Fits : (ℕ → Bool) → EncodeCodepoint → Converted → Type 0
Fits malloc encode (ok out n) = (length out ≡ n + length (encode 0)) × (malloc (length out) ≡ true)
Fits malloc encode ilseq = Unit
Fits malloc encode nomem = Unit
Fits malloc encode stuck = ⊥

outcome-Fits :
    (encode : EncodeCodepoint) (malloc : ℕ → Bool) (o : Option (List ℕ))
    → Fits malloc encode (outcome encode malloc o)
unfolding outcome
outcome-Fits encode malloc none = tt
outcome-Fits encode malloc (some cs) =
    elim (Bool-cases (malloc (length (encode_all encode cs) + length (encode 0)))) [
      | inl e ↦ rw e (sum, rw sum e)
      | inr e ↦ rw e tt
    ]
  where
    sum :
        length (encode_all encode cs ++ encode 0)
        ≡ length (encode_all encode cs) + length (encode 0)
    sum = length-append (encode_all encode cs) (encode 0)

module _ (decode : DecodeCodepoint) (encode : EncodeCodepoint) (d : IsDecoder decode) where
  measure-codepoints :
      (fuel : ℕ) (s : List ℕ) (k : ℕ)
      → length s ≤ fuel
      → All IsByte s
      → measure decode encode fuel s k ≡ sized encode k (codepoints decode fuel s)
  unfolding measure codepoints
  measure-codepoints fuel [] k h bytes = ap valid (omega arith)
  measure-codepoints zero (b ∷ s) k h bytes = absurd (omega arith)
  measure-codepoints (suc fuel) (b ∷ s) k h bytes =
      elim (Bool-cases ((decode (b ∷ s) true).1 == invalid_codepoint)) [
        | inl e ↦ rw e refl
        | inr e ↦ rw e (
            later (codepoints decode fuel (drop (decode (b ∷ s) true).0 (b ∷ s))) (
              measure-codepoints fuel (drop (decode (b ∷ s) true).0 (b ∷ s))
                (k + length (encode (decode (b ∷ s) true).1))
                (shorter _ b s fuel (d.progress b s bytes) h)
                (drop-IsByte (decode (b ∷ s) true).0 (b ∷ s) bytes)))
      ]
    where
      later :
          (o : Option (List ℕ)) {m : Sized}
          → m ≡ sized encode (k + length (encode (decode (b ∷ s) true).1)) o
          → m ≡ sized encode k (prepend (decode (b ∷ s) true).1 o)
      later none e = e
      later (some cs) e =
          e
          ∙ ap valid
              (omega (arith, length-append (encode (decode (b ∷ s) true).1) (encode_all encode cs)))

  emit-codepoints :
      (fuel : ℕ) (s cs : List ℕ)
      → length s ≤ fuel
      → All IsByte s
      → codepoints decode fuel s ≡ some cs
      → emit decode encode fuel s ≡ encode_all encode cs
  unfolding emit
  emit-codepoints fuel [] cs h bytes e = ap (encode_all encode) (codepoints_nil decode fuel cs e)
  emit-codepoints zero (b ∷ s) cs h bytes e = absurd (omega arith)
  emit-codepoints (suc fuel) (b ∷ s) cs h bytes e =
      let (ne, cs', e', split) = codepoints_cons decode fuel b s cs e in
      rw (d.unchecked b s bytes ne, split)
        (ap (◌++◌ (encode (decode (b ∷ s) true).1)) (
          emit-codepoints fuel (drop (decode (b ∷ s) true).0 (b ∷ s)) cs'
            (shorter _ b s fuel (d.progress b s bytes) h)
            (drop-IsByte (decode (b ∷ s) true).0 (b ∷ s) bytes) e'))

  pub convert_string-outcome :
      (malloc : ℕ → Bool) (s : List ℕ)
      → All IsByte s
      → convert_string decode encode malloc s
        ≡ outcome encode malloc (codepoints decode (length s) s)
  unfolding convert_string finish outcome
  convert_string-outcome malloc s bytes = elim (Option-cases (codepoints decode (length s) s)) [
    | inl e ↦ rw (measure-codepoints (length s) s 0 (omega arith) bytes, e) refl
    | inr (cs, e) ↦
        rw
          (
            measure-codepoints (length s) s 0 (omega arith) bytes,
            e,
            emit-codepoints (length s) s cs (omega arith) bytes e,
            zero-add,
          )
          refl
  ]

  -- The conversion ends, and where it succeeds the bytes that the second loop and the terminator
  -- write are as many as were allocated.
  pub convert_string-Fits :
      (malloc : ℕ → Bool) (s : List ℕ)
      → All IsByte s
      → Fits malloc encode (convert_string decode encode malloc s)
  convert_string-Fits malloc s bytes =
      rw (convert_string-outcome malloc s bytes)
        (outcome-Fits encode malloc (codepoints decode (length s) s))
