-- ===== src/Huffman/PrefixFree.antt =====
-- The codewords that src/compress_common.c's `gen_codewords` gives make a prefix code.
use wimlib.Common.{
  ℕ, zero, suc, ◌+◌, ◌-◌, ◌*◌, ◌/◌, ◌^◌, ◌≤◌, ◌<◌, ◌≡◌, ◌≢◌, ap, ◌∙◌, List, [], ◌∷◌, get_or, take,
  length, arith,
}
use wimlib.Common.Bytes.{All}
use native.Mathlib.Nat.{pow-suc, pow-le-pow_right, one-le-pow, le-div_iff_mul-le}
use wimlib.Huffman.{next_codeword, next_codewords, codeword_loop, max_codeword_len}
use wimlib.Huffman.Numbering.{
  number_of, used, used_fits, codeword_loop-number, next_codewords-get, length-next_codewords,
  next_codeword-used,
}

number_of-take :
    (len : ℕ) (lens : List ℕ) (i : ℕ)
    → i < length lens
    → get_or lens i 0 ≡ len
    → number_of len (take i lens) < number_of len lens
number_of-take len [] i h e = absurd (omega arith)
number_of-take len (l ∷ lens) zero h e = ground (arith, e)
number_of-take len (l ∷ lens) (suc i) h e =
    let rest = number_of-take len lens i (omega arith) e in omega (arith, rest)

number_of_later :
    (len : ℕ) (lens : List ℕ) (i j : ℕ)
    → i < j
    → j < length lens
    → get_or lens i 0 ≡ len
    → number_of len (take i lens) < number_of len (take j lens)
number_of_later len [] i j k h e = absurd (omega arith)
number_of_later len (l ∷ lens) i zero k h e = absurd (omega arith)
number_of_later len (l ∷ lens) zero (suc j) k h e = ground (arith, e)
number_of_later len (l ∷ lens) (suc i) (suc j) k h e =
    let rest = number_of_later len lens i j (omega arith) (omega arith) e in omega (arith, rest)

used_grows :
    (len_counts : List ℕ) (len n more : ℕ)
    → n ≡ len + more
    → used len_counts len * 2 ^ more ≤ used len_counts n
used_grows len_counts len n zero e =
    let same : len ≡ n = omega (arith, e) in omega (arith, ap (used len_counts) same)
used_grows len_counts len zero (suc more) e = absurd (omega (arith, e))
used_grows len_counts len (suc n) (suc more) e = omega (
  arith,
  used_grows len_counts len n more (omega (arith, e)),
  ap (λ (t : ℕ). used len_counts len * t) (pow-suc 2 more),
)

-- The lengths that the symbols have are no more than the counts say, and there is a place for each.
pub record IsCounted (len_counts lens : List ℕ) (longest : ℕ) : Type 0 where
  pub short : longest ≤ max_codeword_len
  pub fits : used len_counts longest ≤ 2 ^ longest
  pub lengths : All (λ l. l ≤ longest) lens
  pub counted : (len : ℕ) → 1 ≤ len → len ≤ longest → number_of len lens ≤ get_or len_counts len 0

short_at :
    {longest : ℕ} (lens : List ℕ) (i : ℕ) {len : ℕ}
    → All (λ l. l ≤ longest) lens
    → i < length lens
    → get_or lens i 0 ≡ len
    → len ≤ longest
short_at [] i a h e = absurd (omega arith)
short_at (l ∷ lens) zero (a, b) h e = omega (arith, e)
short_at (l ∷ lens) (suc i) (a, b) h e = short_at lens i b (omega arith) e

All-map : {P Q : ℕ → Type 0} (xs : List ℕ) → ((x : ℕ) → P x → Q x) → All P xs → All Q xs
All-map [] f a = tt
All-map (x ∷ xs) f (p, a) = (f x p, All-map xs f a)

div-one : (n : ℕ) → n / 1 ≡ n
div-one n = omega arith

module _ (len_counts lens : List ℕ) (longest : ℕ) (c : IsCounted len_counts lens longest) where
  abbrev pub codewords : List ℕ
  codewords = codeword_loop (next_codewords len_counts 0 (suc longest)) lens

  codeword_at :
      (i len : ℕ)
      → i < length lens
      → get_or lens i 0 ≡ suc len
      → get_or codewords i 0 ≡ used len_counts len * 2 + number_of (suc len) (take i lens)
  codeword_at i len h e =
      let k : suc len ≤ longest = short_at lens i c.lengths h e in
      let next = next_codewords len_counts 0 (suc longest) in
      let size = length-next_codewords len_counts 0 (suc longest) in
      let fit : used len_counts (suc len) ≤ 2 ^ suc len =
        used_fits len_counts (suc len) longest (longest - suc len) (omega arith) c.fits in
      let first : get_or next (suc len) 0 ≡ used len_counts len * 2 =
        next_codewords-get len_counts 0 (suc longest) (suc len) (omega (arith, k))
        ∙ ap (next_codeword len_counts) (omega arith)
        ∙ next_codeword-used len_counts len (omega (arith, c.short, k)) fit in
      let small : 2 ^ suc len ≤ 2 ^ max_codeword_len =
        pow-le-pow_right (omega arith) {j = max_codeword_len} (omega (arith, c.short, k)) in
      let numbered =
        codeword_loop-number (suc len) next lens i
          (All-map lens (λ l b. omega (arith, b, size)) c.lengths)
          (omega (arith, first, small, fit, c.counted (suc len) (omega arith) k)) h e in
      omega (arith, first, numbered)

  -- It is below the codewords of the length that are used up.
  codeword_at-used :
      (i len : ℕ)
      → i < length lens
      → get_or lens i 0 ≡ suc len
      → get_or codewords i 0 < used len_counts (suc len)
  codeword_at-used i len h e =
      let k : suc len ≤ longest = short_at lens i c.lengths h e in
      omega (
        arith,
        codeword_at i len h e,
        number_of-take (suc len) lens i h e,
        c.counted (suc len) (omega arith) k,
      )

  -- A codeword is of its length.
  pub codeword_fits :
      (i len : ℕ) → i < length lens → get_or lens i 0 ≡ suc len → get_or codewords i 0 < 2 ^ suc len
  codeword_fits i len h e =
      let k : suc len ≤ longest = short_at lens i c.lengths h e in
      omega (
        arith,
        codeword_at-used i len h e,
        used_fits len_counts (suc len) longest (longest - suc len) (omega arith) c.fits,
      )

  -- Two symbols of one length, and one that is shorter.
  same_length :
      (i j len : ℕ)
      → i < j
      → j < length lens
      → get_or lens i 0 ≡ suc len
      → get_or lens j 0 ≡ suc len
      → get_or codewords i 0 < get_or codewords j 0
  same_length i j len k h ei ej = omega (
    arith,
    codeword_at i len (omega (arith, k, h)) ei,
    codeword_at j len h ej,
    number_of_later (suc len) lens i j k h ei,
  )

  shorter :
      (i j li lj : ℕ)
      → i < length lens
      → j < length lens
      → get_or lens i 0 ≡ suc li
      → get_or lens j 0 ≡ suc lj
      → li < lj
      → get_or codewords i 0 < get_or codewords j 0 / 2 ^ (lj - li)
  shorter i j li lj hi hj ei ej k =
      let grown = used_grows len_counts (suc li) lj (lj - suc li) (omega arith) in
      let power : 2 ^ (lj - li) ≡ 2 ^ (lj - suc li) * 2 =
        ap (λ (n : ℕ). 2 ^ n) (omega arith) ∙ pow-suc 2 (lj - suc li) in
      let enough : used len_counts (suc li) * 2 ^ (lj - li) ≤ get_or codewords j 0 = omega (
        arith,
        grown,
        ap (λ (t : ℕ). used len_counts (suc li) * t) power,
        codeword_at j lj hj ej,
      ) in
      let some_bits : 0 < 2 ^ (lj - li) = omega (arith, one-le-pow (lj - li) 2) in
      let bound : used len_counts (suc li) ≤ get_or codewords j 0 / 2 ^ (lj - li) =
        (le-div_iff_mul-le some_bits).1 enough in
      omega (arith, bound, codeword_at-used i li hi ei)

  pub prefix_free :
      (i j li lj : ℕ)
      → i ≢ j
      → i < length lens
      → j < length lens
      → get_or lens i 0 ≡ suc li
      → get_or lens j 0 ≡ suc lj
      → li ≤ lj
      → get_or codewords i 0 ≢ get_or codewords j 0 / 2 ^ (lj - li)
  prefix_free i j li lj n hi hj ei ej le same =
      let one : lj ≤ li → get_or codewords j 0 / 2 ^ (lj - li) ≡ get_or codewords j 0 = λ k.
        let none : lj - li ≡ 0 = omega arith in
        ap (λ (x : ℕ). get_or codewords j 0 / 2 ^ x) none ∙ div-one (get_or codewords j 0) in
      ground
        (arith, same, one, shorter i j li lj hi hj ei ej, same_length i j li, same_length j i li)
