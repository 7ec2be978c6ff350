-- ===== src/Huffman/Numbering.antt =====
-- The codewords that the last loops of src/compress_common.c's `gen_codewords` give, by number.
use wimlib.Common.{
  ℕ, zero, suc, ◌+◌, ◌*◌, ◌%◌, ◌^◌, ◌≤◌, ◌<◌, ◌≡◌, ◌≢◌, refl, sym, ap, ◌∙◌, List, [], ◌∷◌, get_or,
  set, take, subst, length, length-set, ◌==◌, if◌then◌else◌, arith, Bool-cases, inl, inr, ==_iff,
}
use native.Mathlib.Nat.{pow-suc, pow-le-pow_right}
use wimlib.Common.Bytes.{All}
use wimlib.Huffman.{next_codeword, next_codewords, codeword_loop, max_codeword_len}

-- How many symbols have a length.
abbrev pub number_of : (len : ℕ) → List ℕ → ℕ
number_of len [] = 0
number_of len (l ∷ lens) = (if l == len then 1 else 0) + number_of len lens

-- The codewords that there are of a length, once those of the shorter lengths are extended to it.
abbrev pub used : (len_counts : List ℕ) → ℕ → ℕ
used len_counts zero = 0
used len_counts (suc len) = used len_counts len * 2 + get_or len_counts (suc len) 0

-- A place is free for every codeword, at all lengths up to the longest.
pub used_fits :
    (len_counts : List ℕ) (len n more : ℕ)
    → n ≡ len + more
    → used len_counts n ≤ 2 ^ n
    → used len_counts len ≤ 2 ^ len
used_fits len_counts len n zero e h =
    let same : n ≡ len = omega (arith, e) in subst (λ x. used len_counts x ≤ 2 ^ x) same h
used_fits len_counts len zero (suc more) e h = absurd (omega (arith, e))
used_fits len_counts len (suc n) (suc more) e h =
    used_fits len_counts len n more (omega (arith, e)) (omega (arith, pow-suc 2 n, h))

pub get_or-set_self : (xs : List ℕ) (i v : ℕ) → i < length xs → get_or (set xs i v) i 0 ≡ v
get_or-set_self [] i v h = absurd (omega arith)
get_or-set_self (x ∷ xs) zero v h = refl
get_or-set_self (x ∷ xs) (suc i) v h = get_or-set_self xs i v (omega arith)

pub get_or-set_ne : (xs : List ℕ) (i j v : ℕ) → i ≢ j → get_or (set xs i v) j 0 ≡ get_or xs j 0
get_or-set_ne [] i j v h = refl
get_or-set_ne (x ∷ xs) zero zero v h = absurd (h refl)
get_or-set_ne (x ∷ xs) zero (suc j) v h = refl
get_or-set_ne (x ∷ xs) (suc i) zero v h = refl
get_or-set_ne (x ∷ xs) (suc i) (suc j) v h = get_or-set_ne xs i j v (λ e. h (ap suc e))

-- A number is taken from the length's counter.
bumped :
    (len l : ℕ) (next : List ℕ)
    → l < length next
    → get_or next len 0 + (if l == len then 1 else 0) < 2 ^ 32
    → get_or (set next l ((get_or next l 0 + 1) % 2 ^ 32)) len 0
      ≡ get_or next len 0 + (if l == len then 1 else 0)
bumped len l next k b =
    let v = (get_or next l 0 + 1) % 2 ^ 32 in
    elim (Bool-cases (l == len)) [
      | inl h ↦
          let e : l ≡ len = (==_iff l len).0 h in
          let first : get_or (set next l v) len 0 ≡ v =
            ap (λ (x : ℕ). get_or (set next l v) x 0) (sym e) ∙ get_or-set_self next l v k in
          ground (arith, first, ap (λ (x : ℕ). get_or next x 0) e, b)
      | inr h ↦ ground (arith, get_or-set_ne next l len v, h)
    ]

-- The codewords of a length are numbered in the order of the symbols.
pub codeword_loop-number :
    (len : ℕ) (next lens : List ℕ) (i : ℕ)
    → All (λ l. l < length next) lens
    → get_or next len 0 + number_of len lens < 2 ^ 32
    → i < length lens
    → get_or lens i 0 ≡ len
    → get_or (codeword_loop next lens) i 0 ≡ get_or next len 0 + number_of len (take i lens)
unfolding codeword_loop
codeword_loop-number len next [] i k b h e = absurd (omega arith)
codeword_loop-number len next (l ∷ lens) zero k b h e = rw e (omega arith)
codeword_loop-number len next (l ∷ lens) (suc i) (k, ks) b h e =
    let next' = set next l ((get_or next l 0 + 1) % 2 ^ 32) in
    let start = bumped len l next k (omega (arith, b)) in
    let size = length-set next l ((get_or next l 0 + 1) % 2 ^ 32) in
    omega (
      arith,
      start,
      codeword_loop-number len next' lens i (subst (λ n. All (λ l. l < n) lens) (sym size) ks)
          (omega (arith, start, b)) (omega arith) e,
    )

pub next_codewords-get :
    (len_counts : List ℕ) (len count i : ℕ)
    → i < count
    → get_or (next_codewords len_counts len count) i 0 ≡ next_codeword len_counts (i + len)
unfolding next_codewords
next_codewords-get len_counts len zero i h = absurd (omega arith)
next_codewords-get len_counts len (suc count) zero h = ap (next_codeword len_counts) (omega arith)
next_codewords-get len_counts len (suc count) (suc i) h =
    next_codewords-get len_counts (suc len) count i (omega arith)
    ∙ ap (next_codeword len_counts) (omega arith)

pub length-next_codewords :
    (len_counts : List ℕ) (len count : ℕ) → length (next_codewords len_counts len count) ≡ count
unfolding next_codewords
length-next_codewords len_counts len zero = refl
length-next_codewords len_counts len (suc count) =
    ap suc (length-next_codewords len_counts (suc len) count)

-- The first codeword of a length is past all the shorter ones.
pub next_codeword-used :
    (len_counts : List ℕ) (len : ℕ)
    → suc len ≤ max_codeword_len
    → used len_counts (suc len) ≤ 2 ^ suc len
    → next_codeword len_counts (suc len) ≡ used len_counts len * 2
unfolding next_codeword
next_codeword-used len_counts zero k h = refl
next_codeword-used len_counts (suc len) k h =
    let shorter : used len_counts (suc len) ≤ 2 ^ suc len = omega (arith, pow-suc 2 (suc len), h) in
    let before = next_codeword-used len_counts len (omega arith) shorter in
    let small : 2 ^ suc (suc len) ≤ 2 ^ max_codeword_len = pow-le-pow_right (omega arith) k in
    omega (arith, before, small, shorter, pow-suc 2 (suc len))
