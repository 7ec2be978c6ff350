-- ===== src/Huffman/Making.antt =====
-- The codes that src/compress_common.c's `make_canonical_huffman_code` makes of two symbols or more.
use wimlib.Common.{
  ℕ, zero, suc, ◌+◌, ◌-◌, ◌*◌, ◌/◌, ◌%◌, ◌^◌, ◌≤◌, ◌<◌, ◌≡◌, refl, sym, ap, ◌∙◌, subst, List, [],
  ◌∷◌, map, take, get_or, set, length, length-take, length-map, false, Bool-cases, inl, inr, arith,
}
use Prim.Native.Nat.{bit_or}
use wimlib.Common.Bits.{bit_and_mask, bit_or_disjoint, bit_and_multiple}
use wimlib.Huffman.{
  num_symbol_bits, symbol, freq, put_upper, put_node, put_parent, Forest, two_leaves, two_inner,
  build_step, build_loop, build_tree, compute_length_counts, make_code, max_codeword_len,
}
use wimlib.Huffman.Lengths.{has, AreDistinct}
use wimlib.Huffman.Codes.{IsPrefixCode, gen_codewords-IsPrefixCode}
use wimlib.Huffman.Counts.{IsComplete}
use wimlib.Huffman.Trees.{compute_length_counts-build_tree}

-- A field above the symbol leaves the symbol.
kept_low : (n a : ℕ) → symbol (n * 2 ^ num_symbol_bits + symbol a) ≡ symbol a
kept_low n a = omega (
  arith,
  bit_and_mask num_symbol_bits (n * 2 ^ num_symbol_bits + symbol a),
  bit_and_mask num_symbol_bits a,
)

map-set :
    (xs : List ℕ) (k v : ℕ)
    → symbol v ≡ symbol (get_or xs k 0)
    → map symbol (set xs k v) ≡ map symbol xs
map-set [] k v e = refl
map-set (x ∷ xs) zero v e = ap (λ s. s ∷ map symbol xs) e
map-set (x ∷ xs) (suc k) v e = ap (◌∷◌ (symbol x)) (map-set xs k v e)

symbol-put_upper : (a n : ℕ) → symbol (put_upper a n) ≡ symbol a
symbol-put_upper a n =
    ap symbol
      (bit_or_disjoint num_symbol_bits n (symbol a) (omega (arith, bit_and_mask num_symbol_bits a)))
    ∙ kept_low n a

map-put_parent : (e k : ℕ) (nodes : List ℕ) → map symbol (put_parent e k nodes) ≡ map symbol nodes
unfolding put_parent
map-put_parent e k nodes =
    map-set nodes k (put_upper (get_or nodes k 0) e) (symbol-put_upper (get_or nodes k 0) e)

freq_multiple : (nodes : List ℕ) (k : ℕ) → freq nodes k % 2 ^ num_symbol_bits ≡ 0
freq_multiple nodes k =
    omega (arith, bit_and_multiple num_symbol_bits (2 ^ 22 - 1) (get_or nodes k 0))

map-put_node :
    (sum e : ℕ) (nodes : List ℕ)
    → sum % 2 ^ num_symbol_bits ≡ 0
    → map symbol (put_node sum e nodes) ≡ map symbol nodes
unfolding put_node
map-put_node sum e nodes h =
    let a = get_or nodes e 0 in
    let high = sum % 2 ^ 32 / 2 ^ num_symbol_bits in
    let parts : sum % 2 ^ 32 ≡ high * 2 ^ num_symbol_bits = omega (arith, h) in
    map-set nodes e (bit_or (sum % 2 ^ 32) (symbol a))
      (ap (λ (n : ℕ). symbol (bit_or n (symbol a))) parts ∙ symbol-put_upper a high)

two_freqs : (nodes : List ℕ) (j k : ℕ) → (freq nodes j + freq nodes k) % 2 ^ num_symbol_bits ≡ 0
two_freqs nodes j k = omega (arith, freq_multiple nodes j, freq_multiple nodes k)

map-build_step :
    (last_idx : ℕ) (f : Forest) → map symbol (build_step last_idx f).nodes ≡ map symbol f.nodes
unfolding build_step
map-build_step last_idx f = elim (Bool-cases (two_leaves last_idx f)) [
  | inl a ↦ rw a (
      map-put_node (freq f.nodes f.i + freq f.nodes (f.i + 1)) f.e f.nodes
        (two_freqs f.nodes f.i (f.i + 1)))
  | inr a ↦ elim (Bool-cases (two_inner last_idx f)) [
    | inl c ↦
        rw (a, c)
          (map-put_node (freq f.nodes f.b + freq f.nodes (suc f.b)) f.e
              (put_parent f.e (suc f.b) (put_parent f.e f.b f.nodes))
              (two_freqs f.nodes f.b (suc f.b))
            ∙ map-put_parent f.e (suc f.b) (put_parent f.e f.b f.nodes)
            ∙ map-put_parent f.e f.b f.nodes)
    | inr c ↦
        rw (a, c)
          (map-put_node (freq f.nodes f.i + freq f.nodes f.b) f.e (put_parent f.e f.b f.nodes)
              (two_freqs f.nodes f.i f.b)
            ∙ map-put_parent f.e f.b f.nodes)
  ]
]

map-build_loop :
    (rounds last_idx : ℕ) (f : Forest)
    → map symbol (build_loop rounds last_idx f).nodes ≡ map symbol f.nodes
unfolding build_loop
map-build_loop zero last_idx f = refl
map-build_loop (suc rounds) last_idx f =
    map-build_loop rounds last_idx (build_step last_idx f) ∙ map-build_step last_idx f

map-build_tree : (nodes : List ℕ) (n : ℕ) → map symbol (build_tree nodes n) ≡ map symbol nodes
unfolding build_tree
map-build_tree nodes n =
    map-build_loop (n - 1) (n - 1) (record { i = 0; b = 0; e = 0; nodes = nodes })

map-take : (n : ℕ) (xs : List ℕ) → map symbol (take n xs) ≡ take n (map symbol xs)
map-take zero xs = refl
map-take (suc n) [] = refl
map-take (suc n) (x ∷ xs) = ap (◌∷◌ (symbol x)) (map-take n xs)

-- The front of the built array has the symbols that it had.
built_symbols :
    (nodes : List ℕ) (n : ℕ) → map symbol (take n (build_tree nodes n)) ≡ map symbol (take n nodes)
built_symbols nodes n =
    map-take n (build_tree nodes n) ∙ ap (take n) (map-build_tree nodes n) ∙ sym (map-take n nodes)

-- Distinctness is a matter of the symbols.
AreApart : (num_syms : ℕ) → List ℕ → Type 0
AreApart num_syms [] = Unit {_}
AreApart num_syms (s ∷ ss) = (s < num_syms) × (has ss s ≡ false) × AreApart num_syms ss

AreDistinct→AreApart :
    (num_syms : ℕ) (xs : List ℕ) → AreDistinct num_syms xs → AreApart num_syms (map symbol xs)
unfolding AreApart
AreDistinct→AreApart num_syms [] d = tt
AreDistinct→AreApart num_syms (x ∷ xs) (h, k, d) = (h, k, AreDistinct→AreApart num_syms xs d)

AreApart→AreDistinct :
    (num_syms : ℕ) (xs : List ℕ) → AreApart num_syms (map symbol xs) → AreDistinct num_syms xs
unfolding AreApart
AreApart→AreDistinct num_syms [] d = tt
AreApart→AreDistinct num_syms (x ∷ xs) (h, k, d) = (h, k, AreApart→AreDistinct num_syms xs d)

AreDistinct-map :
    (num_syms : ℕ) (xs ys : List ℕ)
    → map symbol xs ≡ map symbol ys
    → AreDistinct num_syms ys
    → AreDistinct num_syms xs
AreDistinct-map num_syms xs ys e d =
    AreApart→AreDistinct num_syms xs
      (subst (AreApart num_syms) (sym e) (AreDistinct→AreApart num_syms ys d))

length-build_tree : (nodes : List ℕ) (n : ℕ) → length (build_tree nodes n) ≡ length nodes
length-build_tree nodes n =
    sym (length-map (build_tree nodes n) symbol)
    ∙ ap length (map-build_tree nodes n)
    ∙ length-map nodes symbol

-- The used symbols stand at the front of the array, each once; the others have the length 0.
pub record AreUsed (num_used_syms : ℕ) (lens codewords : List ℕ) : Type 0 where
  pub size : num_used_syms ≤ length codewords
  pub distinct : AreDistinct (length lens) (take num_used_syms codewords)
  pub unused :
      (s : ℕ) → has (map symbol (take num_used_syms codewords)) s ≡ false → get_or lens s 0 ≡ 0

-- For two symbols or more, whatever their frequencies are, `make_canonical_huffman_code` ends with a
-- prefix code: from the sorted symbols it builds the tree, counts the lengths and numbers the codewords,
-- and no codeword is the front of another. The longest length is at most 16 and allows so many symbols, the
-- symbols are different ones at the front of the array, and the others have the length 0.
pub make_code-IsPrefixCode :
    (num_used_syms longest : ℕ) (lens codewords : List ℕ)
    → 2 ≤ num_used_syms
    → AreUsed num_used_syms lens codewords
    → longest ≤ max_codeword_len
    → num_used_syms ≤ 2 ^ longest
    → let (lens', codewords') = make_code num_used_syms longest lens codewords in
      IsPrefixCode lens' codewords'
unfolding make_code
make_code-IsPrefixCode zero longest lens codewords two u short enough = absurd (omega arith)
make_code-IsPrefixCode (suc zero) longest lens codewords two u short enough = absurd (omega arith)
make_code-IsPrefixCode (suc (suc n)) longest lens codewords two u short enough =
    gen_codewords-IsPrefixCode (take (suc (suc n)) built) lens counts longest (record {
      short = short;
      fits = omega (arith, c.kraft);
      complete = omega (
        arith,
        c.symbols,
        length-take (suc (suc n)) built,
        length-build_tree codewords (suc (suc n)),
        u.size,
      );
      distinct =
          AreDistinct-map (length lens) (take (suc (suc n)) built) (take (suc (suc n)) codewords)
            symbols u.distinct;
      unused = λ s h. u.unused s (ap (λ xs. has xs s) (sym symbols) ∙ h);
    })
  where
    built : List ℕ
    built = build_tree codewords (suc (suc n))

    counts : List ℕ
    counts = compute_length_counts built n longest

    symbols : map symbol (take (suc (suc n)) built) ≡ map symbol (take (suc (suc n)) codewords)
    symbols = built_symbols codewords (suc (suc n))

    c : IsComplete (suc (suc n)) longest counts
    c =
        let e : suc (suc n) - 2 ≡ n = omega arith in
        subst (λ k. IsComplete (suc (suc n)) longest (compute_length_counts built k longest)) e
          (compute_length_counts-build_tree codewords (suc (suc n)) longest two u.size short enough)
