-- ===== src/Huffman/Tests.antt =====
-- src/compress_common.c's code for four symbols, of which three are used.
use wimlib.Common.{
  ℕ, ◌≡◌, refl, List, [], ◌∷◌, get_or, zero, suc, true, false, ◌==◌, if◌then◌else◌, arith,
}
use wimlib.Huffman.Trees.{compute_length_counts-build_tree}
use wimlib.Huffman.Counts.{IsComplete}
use wimlib.Huffman.{
  make_code, build_tree, build_loop, build_step, put_node, put_parent, compute_length_counts,
  nodes_loop, count_node, shorter_len, split_codeword, gen_codewords, length_loop, assign_loop,
  codeword_loop, next_codewords, next_codeword,
}
use wimlib.Huffman.Codes.{IsPrefixCode}
use wimlib.Huffman.Making.{AreUsed, make_code-IsPrefixCode}

-- The symbols 3, 0 and 2, by increasing frequencies; 9 stands for a length that is not set.
abbrev some_entries : List ℕ
some_entries = 1027 ∷ 2048 ∷ 5122 ∷ []

abbrev unset_lens : List ℕ
unset_lens = 9 ∷ 0 ∷ 9 ∷ 9 ∷ []

abbrev some_counts : List ℕ
some_counts = 0 ∷ 1 ∷ 2 ∷ []

-- With a place for the codeword of the fourth symbol.
abbrev some_array : List ℕ
some_array = 1027 ∷ 2048 ∷ 5122 ∷ 0 ∷ []

some_array-AreUsed : AreUsed 3 unset_lens some_array
some_array-AreUsed = record {
  size = omega arith;
  distinct = (omega arith, refl, (omega arith, refl, (omega arith, refl, tt)));
  unused = others;
}
  where
    others :
        (s : ℕ)
        → (if 3 == s then true else if 0 == s then true else if 2 == s then true else false) ≡ false
        → get_or unset_lens s 0 ≡ 0
    others zero e = ground arith
    others (suc zero) e = refl
    others (suc (suc zero)) e = ground arith
    others (suc (suc (suc zero))) e = ground arith
    others (suc (suc (suc (suc s)))) e = refl

make_code-IsPrefixCode_example :
    IsPrefixCode (make_code 3 2 unset_lens some_array).0 (make_code 3 2 unset_lens some_array).1
make_code-IsPrefixCode_example =
    make_code-IsPrefixCode 3 2 unset_lens some_array (omega arith) some_array-AreUsed (omega arith)
      (omega arith)

-- The lengths 2, 0, 1, 2 and the codewords 10, -, 0 and 11.
some_code : make_code 3 2 unset_lens some_array ≡ (2 ∷ 0 ∷ 1 ∷ 2 ∷ [], 2 ∷ 0 ∷ 0 ∷ 3 ∷ [])
unfolding make_code gen_codewords length_loop assign_loop codeword_loop next_codewords next_codeword
    compute_length_counts nodes_loop count_node shorter_len split_codeword build_tree build_loop
    build_step put_node put_parent
some_code = refl

compute_length_counts-build_tree_example :
    IsComplete 3 2 (compute_length_counts (build_tree some_entries 3) 1 2)
compute_length_counts-build_tree_example =
    compute_length_counts-build_tree some_entries 3 2 (omega arith) (omega arith) (omega arith)
      (omega arith)

-- One codeword of one bit and two of two bits.
three_counts : compute_length_counts (build_tree some_entries 3) 1 2 ≡ 0 ∷ 1 ∷ 2 ∷ []
unfolding compute_length_counts nodes_loop count_node shorter_len split_codeword build_tree
    build_loop build_step put_node put_parent
three_counts = refl
