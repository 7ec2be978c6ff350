-- ===== src/Huffman/Codes.antt =====
-- `gen_codewords` of src/compress_common.c as a whole.
use wimlib.Common.{
  ℕ, suc, ◌-◌, ◌/◌, ◌^◌, ◌≤◌, ◌<◌, ◌≡◌, ◌≢◌, ap, ◌∙◌, List, [], ◌∷◌, map, get_or, length, leb,
  if◌then◌else◌, false, arith,
}
use wimlib.Common.Bytes.{All}
use wimlib.Huffman.{symbol, length_loop, gen_codewords, max_codeword_len}
use wimlib.Huffman.Numbering.{number_of, used}
use wimlib.Huffman.Lengths.{
  has, AreDistinct, total_count, none_settled, length_loop-settled, count_upto-count,
}
use wimlib.Huffman.PrefixFree.{IsCounted, codeword_fits, prefix_free}

-- The entries are different symbols, as many as the counts say; all other symbols have the length 0; and
-- there are no more codewords than there are places for them (Kraft's inequality).
pub record IsCodeSize (syms lens len_counts : List ℕ) (longest : ℕ) : Type 0 where
  pub short : longest ≤ max_codeword_len
  pub fits : used len_counts longest ≤ 2 ^ longest
  pub complete : length syms ≡ total_count len_counts longest
  pub distinct : AreDistinct (length lens) syms
  pub unused : (s : ℕ) → has (map symbol syms) s ≡ false → get_or lens s 0 ≡ 0

All-short :
    (longest : ℕ) (lens : List ℕ)
    → ((len : ℕ) → longest < len → number_of len lens ≡ 0)
    → All (λ l. l ≤ longest) lens
All-short longest [] f = tt
All-short longest (l ∷ lens) f =
    (ground (arith, f l), All-short longest lens (λ len h. omega (arith, f len h)))

module _ (syms lens len_counts : List ℕ) (longest : ℕ)
    (c : IsCodeSize syms lens len_counts longest) where
  -- `gen_codewords` gives every length from 1 to the longest to as many symbols as the counts say, and no
  -- symbol a longer one.
  pub gen_codewords-lengths :
      (len : ℕ)
      → 1 ≤ len
      → number_of len (gen_codewords syms lens len_counts longest).0
        ≡ (if leb len longest then get_or len_counts len 0 else 0)
  unfolding gen_codewords
  gen_codewords-lengths len h = omega (
    arith,
    (length_loop-settled longest len_counts syms lens (omega (arith, c.short)) c.complete
          c.distinct).1
        len,
    none_settled len 0 lens (map symbol syms) h
        (λ i e. c.unused i (ap (has (map symbol syms)) (omega arith) ∙ e)),
    count_upto-count len_counts longest len h,
  )

  lengths-IsCounted : IsCounted len_counts (gen_codewords syms lens len_counts longest).0 longest
  lengths-IsCounted = record {
    short = c.short;
    fits = c.fits;
    lengths =
        All-short longest (gen_codewords syms lens len_counts longest).0
          (λ len h. ground (arith, gen_codewords-lengths len));
    counted = λ len h k. ground (arith, gen_codewords-lengths len);
  }

-- Each symbol's codeword is of its length, and is not the front of another symbol's: the bits of a longer
-- codeword, cut to the shorter length, are a different number.
pub record IsPrefixCode (lens codewords : List ℕ) : Type 0 where
  pub bits :
      (i len : ℕ) → i < length lens → get_or lens i 0 ≡ suc len → get_or codewords i 0 < 2 ^ suc len
  pub apart :
      (i j li lj : ℕ)
      → i ≢ j
      → i < length lens
      → j < length lens
      → get_or lens i 0 ≡ suc li
      → get_or lens j 0 ≡ suc lj
      → li ≤ lj
      → get_or codewords i 0 ≢ get_or codewords j 0 / 2 ^ (lj - li)

-- `gen_codewords` makes a prefix code, from different symbols and counts that satisfy Kraft's inequality
-- with a longest length of at most 16.
pub gen_codewords-IsPrefixCode :
    (syms lens len_counts : List ℕ) (longest : ℕ)
    → IsCodeSize syms lens len_counts longest
    → let (lens', codewords) = gen_codewords syms lens len_counts longest in
      IsPrefixCode lens' codewords
unfolding gen_codewords
gen_codewords-IsPrefixCode syms lens len_counts longest c =
    let lens' = length_loop longest len_counts syms lens in
    let counted = lengths-IsCounted syms lens len_counts longest c in
    record {
      bits = codeword_fits len_counts lens' longest counted;
      apart = prefix_free len_counts lens' longest counted;
    }
