-- ===== src/Huffman.antt =====
-- src/compress_common.c: the codewords of a canonical prefix code from the frequencies of the symbols. The
-- array `A` holds the used symbols in the low bits of its entries, sorted by their frequencies, and above
-- them the frequencies, then the parents of the inner nodes, then their depths.
pub mod Lengths
pub mod Numbering
pub mod PrefixFree
pub mod Codes
pub mod Splits
pub mod Kraft
pub mod Depths
pub mod Counts
pub mod Rounds
pub mod Trees
pub mod Making
mod Tests
use Prim.Native.Nat.{bit_and, bit_or}
use wimlib.Common.{
  ℕ, zero, suc, ◌+◌, ◌-◌, ◌*◌, ◌/◌, ◌%◌, ◌^◌, List, [], ◌∷◌, get_or, set, take, replicate, ltb, leb,
  Bool, ◌&&◌, ◌||◌, ◌==◌, if◌then◌else◌,
}

abbrev pub num_symbol_bits : ℕ
num_symbol_bits = 10

abbrev pub max_codeword_len : ℕ
max_codeword_len = 16

abbrev pub symbol_mask : ℕ
symbol_mask = 2 ^ num_symbol_bits - 1

-- The symbol of an entry.
abbrev pub symbol : ℕ → ℕ
symbol a = bit_and a symbol_mask

-- The field above the symbol, a node's parent or its depth.
abbrev pub upper : ℕ → ℕ
upper a = a / 2 ^ num_symbol_bits

abbrev pub put_upper : ℕ → ℕ → ℕ
put_upper a n = bit_or (n * 2 ^ num_symbol_bits) (symbol a)

abbrev pub freq_mask : ℕ
freq_mask = 2 ^ 32 - 2 ^ num_symbol_bits

-- The variables of `build_tree`: the next leaf, the next inner node without a parent, the next place, and
-- the array.
pub record Forest : Type 0 where
  pub i : ℕ
  pub b : ℕ
  pub e : ℕ
  pub nodes : List ℕ

abbrev pub freq : List ℕ → ℕ → ℕ
freq nodes k = bit_and (get_or nodes k 0) freq_mask

-- A[k] gets the parent `e`.
pub put_parent : (e k : ℕ) → List ℕ → List ℕ
put_parent e k nodes = set nodes k (put_upper (get_or nodes k 0) e)

-- The new node, of a frequency of 32 bits.
pub put_node : (new_freq e : ℕ) → List ℕ → List ℕ
put_node new_freq e nodes = set nodes e (bit_or (new_freq % 2 ^ 32) (symbol (get_or nodes e 0)))

abbrev pub two_leaves : (last_idx : ℕ) → Forest → Bool
two_leaves last_idx f =
    leb (f.i + 1) last_idx && ((f.b == f.e) || leb (freq f.nodes (f.i + 1)) (freq f.nodes f.b))

abbrev pub two_inner : (last_idx : ℕ) → Forest → Bool
two_inner last_idx f =
    leb (f.b + 2) f.e && (ltb last_idx f.i || ltb (freq f.nodes (f.b + 1)) (freq f.nodes f.i))

-- A round of the loop of `build_tree`, which makes the node `e`.
pub build_step : (last_idx : ℕ) → Forest → Forest
build_step last_idx f =
    let sum : ℕ → ℕ → ℕ = λ j k. freq f.nodes j + freq f.nodes k in
    let next : (i b new_freq : ℕ) → List ℕ → Forest = λ i b new_freq nodes. record {
      i = i;
      b = b;
      e = f.e + 1;
      nodes = put_node new_freq f.e nodes;
    } in
    if two_leaves last_idx f
    then next (f.i + 2) f.b (sum f.i (f.i + 1)) f.nodes
    else if two_inner last_idx f
    then next f.i (suc (suc f.b)) (sum f.b (suc f.b))
        (put_parent f.e (suc f.b) (put_parent f.e f.b f.nodes))
    else next (f.i + 1) (suc f.b) (sum f.i f.b) (put_parent f.e f.b f.nodes)

-- The rounds of the loop that there are.
pub build_loop : (rounds last_idx : ℕ) → Forest → Forest
build_loop zero last_idx f = f
build_loop (suc rounds) last_idx f = build_loop rounds last_idx (build_step last_idx f)

-- With two symbols at least; `e` goes from 0 up to the last index.
pub build_tree : List ℕ → (sym_count : ℕ) → List ℕ
build_tree nodes sym_count =
    (build_loop (sym_count - 1) (sym_count - 1)
      (record { i = 0; b = 0; e = 0; nodes = nodes })).nodes

-- The loop for the longest length that is shorter than `len` and has a codeword.
pub shorter_len : (len : ℕ) → (len_counts : List ℕ) → ℕ
shorter_len zero len_counts = 0
shorter_len (suc len) len_counts =
    let rest = shorter_len len len_counts in if get_or len_counts len 0 == 0 then rest else len

-- One codeword of a length gives way to two of the next; the counts are words of 32 bits.
pub split_codeword : (len : ℕ) → List ℕ → List ℕ
split_codeword len len_counts =
    let less = set len_counts len ((get_or len_counts len 0 + (2 ^ 32 - 1)) % 2 ^ 32) in
    set less (suc len) ((get_or less (suc len) 0 + 2) % 2 ^ 32)

-- A node that is not a leaf, at a depth.
pub count_node : (longest depth : ℕ) → List ℕ → List ℕ
count_node longest depth len_counts =
    let len = if ltb depth longest then depth else shorter_len longest len_counts in
    split_codeword len len_counts

-- The loop of `compute_length_counts` over the nodes below `node`, from the last one down.
pub nodes_loop : (longest node : ℕ) → (nodes len_counts : List ℕ) → List ℕ
nodes_loop longest zero nodes len_counts = len_counts
nodes_loop longest (suc node) nodes len_counts =
    let entry = get_or nodes node 0 in
    let depth = upper (get_or nodes (upper entry) 0) + 1 in
    nodes_loop longest node (set nodes node (put_upper entry depth))
      (count_node longest depth len_counts)

pub compute_length_counts : (nodes : List ℕ) → (root_idx longest : ℕ) → List ℕ
compute_length_counts nodes root_idx longest =
    nodes_loop longest root_idx (set nodes root_idx (symbol (get_or nodes root_idx 0)))
      (set (replicate (suc longest) 0) 1 2)

-- `while (count--)` of `gen_codewords`: the entries that are left, and the lengths, bytes.
pub assign_loop : (len count : ℕ) → List ℕ → List ℕ → List ℕ × List ℕ
assign_loop len zero syms lens = (syms, lens)
assign_loop len (suc count) [] lens = ([], lens)
assign_loop len (suc count) (a ∷ syms) lens =
    assign_loop len count syms (set lens (symbol a) (len % 2 ^ 8))

-- The loop from the longest length down to 1.
pub length_loop : (len : ℕ) → (len_counts syms lens : List ℕ) → List ℕ
length_loop zero len_counts syms lens = lens
length_loop (suc len) len_counts syms lens =
    let (syms', lens') = assign_loop (suc len) (get_or len_counts (suc len) 0) syms lens in
    length_loop len len_counts syms' lens'

-- The first codeword of a length, a word of 32 bits.
pub next_codeword : (len_counts : List ℕ) → ℕ → ℕ
next_codeword len_counts zero = 0
next_codeword len_counts (suc zero) = 0
next_codeword len_counts (suc (suc len)) =
    (next_codeword len_counts (suc len) + get_or len_counts (suc len) 0) * 2 % 2 ^ 32

-- `next_codewords`, from the length `len` on.
pub next_codewords : (len_counts : List ℕ) → (len count : ℕ) → List ℕ
next_codewords len_counts len zero = []
next_codewords len_counts len (suc count) =
    next_codeword len_counts len ∷ next_codewords len_counts (suc len) count

-- The last loop, over the symbols' lengths.
pub codeword_loop : (next lens : List ℕ) → List ℕ
codeword_loop next [] = []
codeword_loop next (len ∷ lens) =
    get_or next len 0 ∷ codeword_loop (set next len ((get_or next len 0 + 1) % 2 ^ 32)) lens

-- The lengths and the codewords of all symbols.
pub gen_codewords : (syms lens len_counts : List ℕ) → (longest : ℕ) → List ℕ × List ℕ
gen_codewords syms lens len_counts longest =
    let lens' = length_loop longest len_counts syms lens in
    (lens', codeword_loop (next_codewords len_counts 0 (suc longest)) lens')

-- `make_canonical_huffman_code` after the symbols have been sorted: the front of the array that becomes the
-- codewords holds the used symbols. `compute_length_counts` changes its entries only above the symbols.
pub make_code : (num_used_syms longest : ℕ) → (lens codewords : List ℕ) → List ℕ × List ℕ
make_code zero longest lens codewords = (lens, codewords)
make_code (suc zero) longest lens codewords =
    let sym = symbol (get_or codewords 0 0) in
    let nonzero_idx = if sym == 0 then 1 else sym in
    (set (set lens 0 1) nonzero_idx 1, set (set codewords 0 0) nonzero_idx 1)
make_code (suc (suc n)) longest lens codewords =
    let built = build_tree codewords (suc (suc n)) in
    gen_codewords (take (suc (suc n)) built) lens (compute_length_counts built n longest) longest
