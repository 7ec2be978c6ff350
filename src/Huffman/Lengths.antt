-- ===== src/Huffman/Lengths.antt =====
-- The lengths that the first loop of src/compress_common.c's `gen_codewords` gives the symbols: as many of
-- each as the counts say.
use wimlib.Common.{
  ℕ, zero, suc, ◌+◌, ◌%◌, ◌^◌, ◌≤◌, ◌<◌, ◌≡◌, refl, sym, ap, ◌∙◌, List, [], ◌∷◌, map, get_or, set,
  length, length-set, subst, Bool, true, false, not, ◌&&◌, ◌==◌, leb, if◌then◌else◌, arith,
}
use wimlib.Huffman.{symbol, assign_loop, length_loop}
use wimlib.Huffman.Numbering.{number_of}

abbrev pub has : List ℕ → ℕ → Bool
has [] s = false
has (x ∷ xs) s = if x == s then true else has xs s

-- How many symbols have a length and do not wait for one, from the symbol `k` on.
abbrev pub settled : (len k : ℕ) → (lens waiting : List ℕ) → ℕ
settled len k [] waiting = 0
settled len k (l ∷ lens) waiting =
    (if (l == len) && not (has waiting k) then 1 else 0) + settled len (suc k) lens waiting

settled_past :
    (len k a : ℕ) (lens waiting : List ℕ)
    → a < k
    → settled len k lens (a ∷ waiting) ≡ settled len k lens waiting
settled_past len k a [] waiting h = refl
settled_past len k a (l ∷ lens) waiting h =
    ground (arith, settled_past len (suc k) a lens waiting (omega arith))

settled-set :
    (len k m a v : ℕ) (lens waiting : List ℕ)
    → a ≡ k + m
    → m < length lens
    → has waiting a ≡ false
    → settled len k (set lens m v) waiting
      ≡ settled len k lens (a ∷ waiting) + (if v == len then 1 else 0)
settled-set len k m a v [] waiting e h f = absurd (omega arith)
settled-set len k zero a v (l ∷ lens) waiting e h f =
    let past = settled_past len (suc k) a lens waiting (omega arith) in
    let same : a ≡ k = omega arith in ground (arith, past, f, ap (has waiting) same)
settled-set len k (suc m) a v (l ∷ lens) waiting e h f =
    ground (arith, settled-set len (suc k) m a v lens waiting (omega arith) (omega arith) f)

settled-number_of : (len k : ℕ) (lens : List ℕ) → settled len k lens [] ≡ number_of len lens
settled-number_of len k [] = refl
settled-number_of len k (l ∷ lens) = ground (arith, settled-number_of len (suc k) lens)

pub none_settled :
    (len k : ℕ) (lens waiting : List ℕ)
    → 1 ≤ len
    → ((i : ℕ) → has waiting (k + i) ≡ false → get_or lens i 0 ≡ 0)
    → settled len k lens waiting ≡ 0
none_settled len k [] waiting h f = refl
none_settled len k (l ∷ lens) waiting h f =
    let rest : settled len (suc k) lens waiting ≡ 0 =
      none_settled len (suc k) lens waiting h
        (λ i e. f (suc i) (ap (has waiting) (omega arith) ∙ e)) in
    let here : has waiting k ≡ false → l ≡ 0 = λ e. f 0 (ap (has waiting) (omega arith) ∙ e) in
    ground (arith, rest, here)

-- The symbols of the entries are different ones of the alphabet.
abbrev pub AreDistinct : (num_syms : ℕ) → List ℕ → Type 0
AreDistinct num_syms [] = Unit {_}
AreDistinct num_syms (a ∷ syms) =
    (symbol a < num_syms) × (has (map symbol syms) (symbol a) ≡ false) × AreDistinct num_syms syms

-- What a step leaves: the entries that still wait, and how many symbols of a length have settled.
record IsStep (syms lens : List ℕ) (counts : ℕ → ℕ) (total : ℕ) (result : List ℕ × List ℕ)
    : Type 0 where
  pub distinct : AreDistinct (length lens) result.0
  pub left_over : length result.0 + total ≡ length syms
  pub same_size : length result.1 ≡ length lens
  pub settles :
      (len : ℕ)
      → settled len 0 result.1 (map symbol result.0)
        ≡ settled len 0 lens (map symbol syms) + counts len

assign_loop-IsStep :
    (v count : ℕ) (syms lens : List ℕ)
    → v < 2 ^ 8
    → count ≤ length syms
    → AreDistinct (length lens) syms
    → IsStep syms lens (λ len. if v == len then count else 0) count (assign_loop v count syms lens)
unfolding assign_loop
assign_loop-IsStep v zero syms lens b h d = record {
  distinct = d;
  left_over = omega arith;
  same_size = refl;
  settles = λ len. ground arith;
}
assign_loop-IsStep v (suc count) [] lens b h d = absurd (omega arith)
assign_loop-IsStep v (suc count) (a ∷ syms) lens b h (inside, apart, d) =
    let lens' = set lens (symbol a) (v % 2 ^ 8) in
    let size : length lens' ≡ length lens = length-set lens (symbol a) (v % 2 ^ 8) in
    let same : v % 2 ^ 8 ≡ v = omega (arith, b) in
    let rest =
      assign_loop-IsStep v count syms lens' b (omega arith)
        (subst (λ n. AreDistinct n syms) (sym size) d) in
    record {
      distinct = subst (λ n. AreDistinct n (assign_loop v count syms lens').0) size rest.distinct;
      left_over = omega (arith, rest.left_over);
      same_size = rest.same_size ∙ size;
      settles = λ len.
          let one =
            settled-set len 0 (symbol a) (symbol a) (v % 2 ^ 8) lens (map symbol syms) (omega arith)
              inside apart in
          ground (arith, rest.settles len, one, same);
    }

-- How many entries the counts of the lengths up to `longest` take.
abbrev pub total_count : (len_counts : List ℕ) → (longest : ℕ) → ℕ
total_count len_counts zero = 0
total_count len_counts (suc len) = get_or len_counts (suc len) 0 + total_count len_counts len

pub count_upto : (len_counts : List ℕ) → (longest len : ℕ) → ℕ
count_upto len_counts zero len = 0
count_upto len_counts (suc n) len =
    (if suc n == len then get_or len_counts (suc n) 0 else 0) + count_upto len_counts n len

pub length_loop-settled :
    (longest : ℕ) (len_counts syms lens : List ℕ)
    → longest < 2 ^ 8
    → length syms ≡ total_count len_counts longest
    → AreDistinct (length lens) syms
    → (length (length_loop longest len_counts syms lens) ≡ length lens)
      × ((len : ℕ)
          → number_of len (length_loop longest len_counts syms lens)
            ≡ settled len 0 lens (map symbol syms) + count_upto len_counts longest len)
unfolding length_loop count_upto
length_loop-settled zero len_counts [] lens b h d =
    (refl, λ len. omega (arith, settled-number_of len 0 lens))
length_loop-settled zero len_counts (a ∷ syms) lens b h d = absurd (omega (arith, h))
length_loop-settled (suc n) len_counts syms lens b h d =
    let count = get_or len_counts (suc n) 0 in
    let (syms', lens') = assign_loop (suc n) count syms lens in
    let step = assign_loop-IsStep (suc n) count syms lens b (omega (arith, h)) d in
    let (size, settles) =
      length_loop-settled n len_counts syms' lens' (omega (arith, b))
        (omega (arith, step.left_over, h))
        (subst (λ k. AreDistinct k syms') (sym step.same_size) step.distinct) in
    (size ∙ step.same_size, λ len. omega (arith, settles len, step.settles len))

pub count_upto-count :
    (len_counts : List ℕ) (longest len : ℕ)
    → 1 ≤ len
    → count_upto len_counts longest len ≡ (if leb len longest then get_or len_counts len 0 else 0)
unfolding count_upto
count_upto-count len_counts zero len h = ground arith
count_upto-count len_counts (suc n) len h = ground (arith, count_upto-count len_counts n len h)
