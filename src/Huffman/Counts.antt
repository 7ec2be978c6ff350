-- ===== src/Huffman/Counts.antt =====
-- `compute_length_counts` of src/compress_common.c as a whole.
use wimlib.Common.{
  ℕ, zero, suc, ◌+◌, ◌*◌, ◌^◌, ◌≤◌, ◌<◌, ◌≡◌, refl, sym, ap, ◌∙◌, subst, List, ◌∷◌, get_or, set,
  replicate, length, length-set, length-replicate, inl, inr, Bool-cases, ==_iff, ◌==◌, arith,
}
use native.Mathlib.Nat.{pow-suc}
use wimlib.Common.Bits.{bit_and_mask, bit_or_disjoint}
use wimlib.Huffman.{
  symbol, num_symbol_bits, upper, put_upper, count_node, nodes_loop, compute_length_counts,
  max_codeword_len,
}
use wimlib.Huffman.Numbering.{number_of, used, get_or-set_self, get_or-set_ne}
use wimlib.Huffman.Lengths.{total_count}
use wimlib.Huffman.Kraft.{IsOpen, count_nodes, count_nodes-IsOpen}
use wimlib.Huffman.Depths.{
  IsTree, depths_below, depths_below-AreOrdered, depths_below-positive, depths_below-room,
}

symbol_below : (a : ℕ) → symbol a < 2 ^ num_symbol_bits
symbol_below a = omega (arith, bit_and_mask num_symbol_bits a)

pub upper-put_upper : (a n : ℕ) → upper (put_upper a n) ≡ n
upper-put_upper a n =
    omega (arith, bit_or_disjoint num_symbol_bits n (symbol a) (symbol_below a), symbol_below a)

upper-symbol : (a : ℕ) → upper (symbol a) ≡ 0
upper-symbol a = omega (arith, symbol_below a)

-- Two codewords of one bit, to begin with.
abbrev two_codewords : ℕ → List ℕ
two_codewords n = 0 ∷ (2 ∷ replicate n 0)

nothing_more : (n i : ℕ) → get_or (replicate {A = ℕ} n 0) i 0 ≡ 0
nothing_more zero i = refl
nothing_more (suc n) zero = refl
nothing_more (suc n) (suc i) = nothing_more n i

two_codewords-sums :
    (n m : ℕ)
    → (used (two_codewords n) (suc m) ≡ 2 ^ suc m) × (total_count (two_codewords n) (suc m) ≡ 2)
two_codewords-sums n zero = (refl, refl)
two_codewords-sums n (suc m) =
    let (u, c) = two_codewords-sums n m in
    (omega (arith, u, nothing_more n m, pow-suc 2 (suc m)), omega (arith, c, nothing_more n m))

module _ (root : ℕ) (parent depth : ℕ → ℕ) (t : IsTree root parent depth) where
  -- Below `node` the entries hold parents, and from there on depths.
  record IsHalfDone (node : ℕ) (nodes : List ℕ) : Type 0 where
    pub size : root < length nodes
    pub parents : (k : ℕ) → k < node → upper (get_or nodes k 0) ≡ parent k
    pub depths : (k : ℕ) → node ≤ k → k ≤ root → upper (get_or nodes k 0) ≡ depth k

  stepped :
      (node : ℕ) (nodes : List ℕ) (entry : ℕ)
      → node < root
      → IsHalfDone (suc node) nodes
      → upper entry ≡ depth node
      → IsHalfDone node (set nodes node entry)
  stepped node nodes entry h v e = record {
    size = omega (arith, v.size, length-set nodes node entry);
    parents = λ k l.
        ap upper (get_or-set_ne nodes node k entry (λ f. omega (arith, f, l)))
        ∙ v.parents k (omega (arith, l));
    depths = λ k l m. elim (Bool-cases (node == k)) [
      | inl same ↦
          let f : node ≡ k = (==_iff node k).0 same in
          subst (λ i. upper (get_or (set nodes node entry) i 0) ≡ depth i) f
            (ap upper (get_or-set_self nodes node entry (omega (arith, v.size))) ∙ e)
      | inr other ↦
          ap upper (get_or-set_ne nodes node k entry (λ f. ground (arith, f, other)))
          ∙ v.depths k (ground (arith, l, other)) m
    ];
  }

  nodes_loop-depths :
      (longest node : ℕ) (nodes counts : List ℕ)
      → node ≤ root
      → IsHalfDone node nodes
      → nodes_loop longest node nodes counts ≡ count_nodes longest (depths_below depth node) counts
  unfolding nodes_loop
  nodes_loop-depths longest zero nodes counts h v = refl
  nodes_loop-depths longest (suc node) nodes counts h v =
      let entry = get_or nodes node 0 in
      let d = upper (get_or nodes (upper entry) 0) + 1 in
      let (up, top) = t.above node h in
      let e : d ≡ depth node =
        ap (λ (i : ℕ). upper (get_or nodes i 0) + 1) (v.parents node (omega arith))
        ∙ ap (λ (n : ℕ). n + 1) (v.depths (parent node) (omega (arith, up)) top)
        ∙ sym (t.at_child node h) in
      nodes_loop-depths longest node (set nodes node (put_upper entry d))
        (count_node longest d counts) (omega arith)
        (stepped node nodes (put_upper entry d) h v (upper-put_upper entry d ∙ e))
      ∙ ap (λ n. count_nodes longest (depths_below depth node) (count_node longest n counts)) e

  two_codewords-IsOpen :
      (n : ℕ) → IsOpen (suc n) (root + 2) (depths_below depth root) (two_codewords n)
  two_codewords-IsOpen n = record {
    size = ap (λ (k : ℕ). suc (suc k)) (length-replicate n 0);
    kraft = (two_codewords-sums n n).0;
    leaves = omega (arith, (two_codewords-sums n n).1, length-depths root);
    room = λ len k. room len;
  }
    where
      length-depths : (k : ℕ) → length (depths_below depth k) ≡ k
      length-depths zero = refl
      length-depths (suc k) = ap suc (length-depths k)

      room :
          (len : ℕ)
          → number_of (suc len) (depths_below depth root)
            ≤ get_or (two_codewords n) (suc len) 0 + 2 * number_of len (depths_below depth root)
      room zero = ground (arith, depths_below-room root parent depth t 0)
      room (suc len) = ground (arith, depths_below-room root parent depth t (suc len), t.at_root)

-- The counts leave no codeword unused (equality in Kraft's inequality), and there is one for each symbol.
pub record IsComplete (num_syms longest : ℕ) (len_counts : List ℕ) : Type 0 where
  pub size : length len_counts ≡ suc longest
  pub kraft : used len_counts longest ≡ 2 ^ longest
  pub symbols : total_count len_counts longest ≡ num_syms

-- `compute_length_counts` of a tree with `root_idx + 1` inner nodes gives a complete code for the
-- `root_idx + 2` symbols: as many codewords, none longer than the longest length, which use up every place,
-- wherever that length allows so many symbols.
pub compute_length_counts-IsComplete :
    (root_idx longest : ℕ) (parent depth : ℕ → ℕ) (nodes : List ℕ)
    → IsTree root_idx parent depth
    → root_idx < length nodes
    → ((k : ℕ) → k < root_idx → upper (get_or nodes k 0) ≡ parent k)
    → longest ≤ max_codeword_len
    → root_idx + 2 ≤ 2 ^ longest
    → IsComplete (root_idx + 2) longest (compute_length_counts nodes root_idx longest)
unfolding compute_length_counts
compute_length_counts-IsComplete root_idx zero parent depth nodes t h p short enough =
    absurd (omega (arith, enough))
compute_length_counts-IsComplete root_idx (suc n) parent depth nodes t h p short enough =
    let entry = symbol (get_or nodes root_idx 0) in
    let started = set nodes root_idx entry in
    let v : IsHalfDone root_idx parent depth t root_idx started = record {
      size = omega (arith, h, length-set nodes root_idx entry);
      parents =
          λ k l. ap upper (get_or-set_ne nodes root_idx k entry (λ f. omega (arith, f, l))) ∙ p k l;
      depths = λ k l m.
          let same : root_idx ≡ k = omega (arith, l, m) in
          subst (λ i. upper (get_or started i 0) ≡ depth i) same
            (ap upper (get_or-set_self nodes root_idx entry h)
              ∙ upper-symbol (get_or nodes root_idx 0)
              ∙ sym t.at_root);
    } in
    let loop =
      nodes_loop-depths root_idx parent depth t (suc n) root_idx started (two_codewords n)
        (omega arith) v in
    let done =
      count_nodes-IsOpen (suc n) (root_idx + 2) short enough (depths_below depth root_idx)
        (two_codewords n) (depths_below-AreOrdered root_idx parent depth t root_idx (omega arith))
        (depths_below-positive root_idx parent depth t root_idx (omega arith)) (omega arith)
        (two_codewords-IsOpen root_idx parent depth t n) in
    subst (IsComplete (root_idx + 2) (suc n)) (sym loop)
      (record { size = done.size; kraft = done.kraft; symbols = omega (arith, done.leaves) })
