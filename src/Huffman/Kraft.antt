-- ===== src/Huffman/Kraft.antt =====
-- The counts of `compute_length_counts` of src/compress_common.c use up all the codewords there are.
use wimlib.Common.{
  ℕ, zero, suc, ◌+◌, ◌-◌, ◌*◌, ◌^◌, ◌≤◌, ◌<◌, ◌≡◌, refl, sym, ap, subst, ltb→lt, ◌∙◌, List, [], ◌∷◌,
  get_or, length, ltb, arith, Bool-cases, inl, inr,
}
use wimlib.Common.Bytes.{All}
use native.Mathlib.Nat.{pow-le-pow_right}
use wimlib.Huffman.{count_node, split_codeword, shorter_len, max_codeword_len}
use wimlib.Huffman.Numbering.{used, number_of}
use wimlib.Huffman.Lengths.{total_count}
use wimlib.Huffman.Splits.{
  IsSplit, split_codeword-IsSplit, used_kept, total_grows, count_le, IsShorter,
  shorter_len-IsShorter,
}

-- The counts after the nodes at these depths.
abbrev pub count_nodes : (longest : ℕ) → (depths counts : List ℕ) → List ℕ
count_nodes longest [] counts = counts
count_nodes longest (depth ∷ depths) counts =
    count_nodes longest depths (count_node longest depth counts)

-- Depths from the root's children on, none before a smaller one.
abbrev pub AreOrdered : List ℕ → Type 0
AreOrdered [] = Unit {_}
AreOrdered (d ∷ ds) = All (λ e. d ≤ e) ds × AreOrdered ds

-- What holds while the nodes at these depths are still to come.
pub record IsOpen (longest num_syms : ℕ) (depths counts : List ℕ) : Type 0 where
  pub size : length counts ≡ suc longest
  pub kraft : used counts longest ≡ 2 ^ longest
  pub leaves : total_count counts longest + length depths ≡ num_syms
  pub room :
      (len : ℕ)
      → suc len < longest
      → number_of (suc len) depths ≤ get_or counts (suc len) 0 + 2 * number_of len depths

number_of-All : (len d : ℕ) (ds : List ℕ) → All (λ e. d ≤ e) ds → len < d → number_of len ds ≡ 0
number_of-All len d [] a h = refl
number_of-All len d (e ∷ ds) (k, a) h = ground (arith, number_of-All len d ds a h)

used_zero : (counts : List ℕ) (n : ℕ) → total_count counts n ≡ 0 → used counts n ≡ 0
used_zero counts zero h = refl
used_zero counts (suc n) h = omega (arith, used_zero counts n (omega (arith, h)), h)

module _ (longest num_syms : ℕ) (short : longest ≤ max_codeword_len)
    (enough : num_syms ≤ 2 ^ longest) where
  small : 2 ^ longest ≤ 2 ^ max_codeword_len
  small = pow-le-pow_right (omega arith) short

  -- A length that has a codeword is split.
  split-IsOpen :
      (l depth : ℕ) (depths counts : List ℕ)
      → IsOpen longest num_syms (depth ∷ depths) counts
      → suc l < longest
      → 1 ≤ get_or counts (suc l) 0
      → ((len : ℕ)
          → suc len < longest
          → number_of (suc len) depths
            ≤ get_or (split_codeword (suc l) counts) (suc len) 0 + 2 * number_of len depths)
      → IsOpen longest num_syms depths (split_codeword (suc l) counts)
  split-IsOpen l depth depths counts v h some room =
      let more = longest - suc (suc l) in
      let one = count_le counts l longest (longest - suc l) (omega arith) in
      let two = count_le counts (suc l) longest more (omega arith) in
      let s =
        split_codeword-IsSplit (suc l) counts (omega (arith, v.size)) some
          (omega (arith, one, v.leaves, small)) (omega (arith, two, v.leaves, small)) in
      record {
        size = s.same_size ∙ v.size;
        kraft =
            used_kept l counts (split_codeword (suc l) counts) s longest more (omega arith)
            ∙ v.kraft;
        leaves = omega (
          arith,
          v.leaves,
          total_grows l counts (split_codeword (suc l) counts) s longest more (omega arith),
        );
        room = room;
      }

  -- A node above the longest length.
  upper-IsOpen :
      (l : ℕ) (depths counts : List ℕ)
      → IsOpen longest num_syms (suc l ∷ depths) counts
      → All (λ e. suc l ≤ e) depths
      → suc l < longest
      → IsOpen longest num_syms depths (split_codeword (suc l) counts)
  upper-IsOpen l depths counts v above h =
      split-IsOpen l (suc l) depths counts v h some
        (λ len k. ground (arith, v.room len k, s.taken, s.added, s.others (suc len), here))
    where
      here : number_of l (suc l ∷ depths) ≡ 0
      here = number_of-All l (suc l) (suc l ∷ depths) (omega arith, above) (omega arith)

      some : 1 ≤ get_or counts (suc l) 0
      some = ground (arith, v.room l h, here)

      s : IsSplit (suc l) counts (split_codeword (suc l) counts)
      s =
          split_codeword-IsSplit (suc l) counts (omega (arith, v.size, h)) some
            (omega
              (arith, count_le counts l longest (longest - suc l) (omega arith), v.leaves, small))
            (omega (
              arith,
              count_le counts (suc l) longest (longest - suc (suc l)) (omega arith),
              v.leaves,
              small,
            ))

  -- A node as low as the longest length or lower: the longest of the shorter lengths is split.
  lower-IsOpen :
      (l n : ℕ) (depths counts : List ℕ)
      → IsOpen longest num_syms (suc l ∷ depths) counts
      → All (λ e. suc l ≤ e) depths
      → longest ≤ suc l
      → longest ≡ suc n
      → IsOpen longest num_syms depths (split_codeword (shorter_len longest counts) counts)
  lower-IsOpen l n depths counts v above h e = by_found (shorter_len longest counts) (
      subst (λ k. IsShorter k (shorter_len k counts) counts) (sym e)
        (shorter_len-IsShorter n counts some_shorter))
    where
      some_shorter : 1 ≤ total_count counts n
      some_shorter =
          let all = v.leaves in
          let sum = v.kraft in
          let last : used counts longest ≡ used counts n * 2 + get_or counts (suc n) 0 =
            ap (used counts) e in
          let total : total_count counts longest ≡ get_or counts (suc n) 0 + total_count counts n =
            ap (total_count counts) e in
          ground (arith, used_zero counts n, all, sum, last, total)

      by_found :
          (found : ℕ)
          → IsShorter longest found counts
          → IsOpen longest num_syms depths (split_codeword found counts)
      by_found zero s = absurd (omega (arith, s.least))
      by_found (suc m) s = split-IsOpen m (suc l) depths counts v s.below s.some (λ len k.
          omega (arith, number_of-All (suc len) (suc l) depths above (omega (arith, k, h))))

  count_node-IsOpen :
      (depth : ℕ) (depths counts : List ℕ)
      → 1 ≤ depth
      → IsOpen longest num_syms (depth ∷ depths) counts
      → All (λ e. depth ≤ e) depths
      → 1 ≤ longest
      → IsOpen longest num_syms depths (count_node longest depth counts)
  unfolding count_node
  count_node-IsOpen zero depths counts k v a h = absurd (omega arith)
  count_node-IsOpen (suc l) depths counts k v a h = elim (Bool-cases (ltb (suc l) longest)) [
    | inl e ↦ rw e (upper-IsOpen l depths counts v a (ltb→lt (suc l) longest e))
    | inr e ↦
        let low : longest ≤ suc l = ground (arith, e) in
        rw e (lower-IsOpen l (longest - 1) depths counts v a low (omega arith))
  ]

  pub count_nodes-IsOpen :
      (depths counts : List ℕ)
      → AreOrdered depths
      → All (λ d. 1 ≤ d) depths
      → 1 ≤ longest
      → IsOpen longest num_syms depths counts
      → IsOpen longest num_syms [] (count_nodes longest depths counts)
  count_nodes-IsOpen [] counts o p h v = v
  count_nodes-IsOpen (d ∷ ds) counts (a, o) (k, p) h v =
      count_nodes-IsOpen ds (count_node longest d counts) o p h
        (count_node-IsOpen d ds counts k v a h)
