-- ===== src/Huffman/Trees.antt =====
-- `build_tree` of src/compress_common.c, and the code that comes from its tree.
use wimlib.Common.{
  ℕ, zero, suc, ◌+◌, ◌-◌, ◌^◌, ◌≤◌, ◌<◌, ◌≡◌, refl, subst, List, length, ltb, if◌then◌else◌, arith,
}
use wimlib.Huffman.{
  Forest, build_step, build_loop, build_tree, compute_length_counts, max_codeword_len,
}
use wimlib.Huffman.Depths.{IsTree}
use wimlib.Huffman.Counts.{IsComplete, compute_length_counts-IsComplete}
use wimlib.Huffman.Rounds.{parent, AreLinked, IsForest, build_step_e, build_step-IsForest}

build_loop-IsForest :
    (n last_idx rounds : ℕ) (f : Forest)
    → n ≡ suc last_idx
    → f.e + rounds ≡ last_idx
    → IsForest n f
    → (IsForest n (build_loop rounds last_idx f)) × ((build_loop rounds last_idx f).e ≡ last_idx)
unfolding build_loop
build_loop-IsForest n last_idx zero f last h v = (v, omega (arith, h))
build_loop-IsForest n last_idx (suc rounds) f last h v =
    build_loop-IsForest n last_idx rounds (build_step last_idx f) last
      (omega (arith, h, build_step_e last_idx f))
      (build_step-IsForest n f v (omega (arith, last, h)) last_idx last)

-- The depth of a node, going up at most `fuel` parents.
node_depth : (fuel root : ℕ) → (ℕ → ℕ) → ℕ → ℕ
node_depth zero root parent k = 0
node_depth (suc fuel) root parent k =
    let up = node_depth fuel root parent (parent k) in if ltb k root then up + 1 else 0

module _ (root : ℕ) (parent : ℕ → ℕ)
    (above : (k : ℕ) → k < root → (k < parent k) × (parent k ≤ root)) where
  node_depth_fuel :
      (more less k : ℕ)
      → root ≤ k + less
      → less ≤ more
      → node_depth more root parent k ≡ node_depth less root parent k
  unfolding node_depth
  node_depth_fuel zero zero k h l = refl
  node_depth_fuel zero (suc less) k h l = absurd (omega arith)
  node_depth_fuel (suc more) zero k h l = ground (arith, h)
  node_depth_fuel (suc more) (suc less) k h l =
      ground (arith, node_depth_fuel more less (parent k), above k)

  node_depth-child :
      (k : ℕ)
      → k < root
      → node_depth root root parent k ≡ node_depth root root parent (parent k) + 1
  unfolding node_depth
  node_depth-child k h = by_root root refl
    where
      by_root :
          (fuel : ℕ)
          → root ≡ fuel
          → node_depth fuel root parent k ≡ node_depth fuel root parent (parent k) + 1
      by_root zero e = absurd (omega (arith, e, h))
      by_root (suc fuel) e = ground (
        arith,
        node_depth_fuel (suc fuel) fuel (parent k) (omega (arith, above k h, e)) (omega arith),
        h,
      )

  node_depth-root : node_depth root root parent root ≡ 0
  unfolding node_depth
  node_depth-root = by_fuel root
    where
      by_fuel : (fuel : ℕ) → node_depth fuel root parent root ≡ 0
      by_fuel zero = refl
      by_fuel (suc fuel) = ground arith

linked-IsTree :
    (root : ℕ) (nodes : List ℕ)
    → AreLinked root (suc root) nodes
    → IsTree root (parent nodes) (node_depth root root (parent nodes))
linked-IsTree root nodes v = record {
  at_root = node_depth-root root (parent nodes) above;
  at_child = node_depth-child root (parent nodes) above;
  above = above;
  ordered = v.ordered;
  two = v.two;
}
  where
    above : (k : ℕ) → k < root → (k < parent nodes k) × (parent nodes k ≤ root)
    above k h = let (p, q) = v.above k h in (p, omega (arith, q))

-- Whatever the frequencies of two symbols or more are, `build_tree` makes a tree of one inner node less
-- than there are symbols, the last one its root, in the order that `compute_length_counts` expects.
abbrev IsBuilt : (root : ℕ) → List ℕ → Type 0
IsBuilt root nodes =
    IsTree root (parent nodes) (node_depth root root (parent nodes)) × (suc root < length nodes)

build_tree-IsBuilt :
    (nodes : List ℕ) (root : ℕ)
    → suc (suc root) ≤ length nodes
    → IsBuilt root (build_tree nodes (suc (suc root)))
unfolding build_tree
build_tree-IsBuilt nodes root h =
    let start : Forest = record { i = 0; b = 0; e = 0; nodes = nodes } in
    let n = suc (suc root) in
    let (w, last) = build_loop-IsForest n (suc root) (suc root) start refl (omega arith) fresh in
    let f = build_loop (suc root) (suc root) start in
    let all : f.b ≡ root =
      omega (arith, w.pairs, w.leaves, w.unfinished (omega (arith, last)), last) in
    let linked : AreLinked root (suc root) f.nodes =
      subst (λ b. AreLinked b (suc root) f.nodes) all
        (subst (λ e. AreLinked f.b e f.nodes) last w.linked) in
    let rounds : suc root ≡ suc (suc root) - 1 = omega arith in
    subst (λ k. IsBuilt root (build_loop k k start).nodes) rounds
      (linked-IsTree root f.nodes linked, w.size)
  where
    fresh : IsForest (suc (suc root)) (record { i = 0; b = 0; e = 0; nodes = nodes })
    fresh = record {
      size = h;
      pairs = refl;
      leaves = omega arith;
      inner = omega arith;
      unfinished = λ k. absurd (omega arith);
      linked = record {
        above = λ k l. absurd (omega arith);
        ordered = λ j k l m. absurd (omega arith);
        two = λ k l. absurd (omega arith);
      };
    }

-- `build_tree` and then `compute_length_counts` give a complete code, whatever the frequencies in the array
-- are: as many codewords as there are symbols, two at least, none longer than the longest length, and no
-- place is left for another; wherever the longest length, 16 at most, allows so many symbols.
pub compute_length_counts-build_tree :
    (nodes : List ℕ) (sym_count longest : ℕ)
    → 2 ≤ sym_count
    → sym_count ≤ length nodes
    → longest ≤ max_codeword_len
    → sym_count ≤ 2 ^ longest
    → IsComplete sym_count longest
        (compute_length_counts (build_tree nodes sym_count) (sym_count - 2) longest)
compute_length_counts-build_tree nodes sym_count longest two h short enough =
    by_root (sym_count - 2) refl
  where
    by_root :
        (root : ℕ)
        → sym_count - 2 ≡ root
        → IsComplete sym_count longest
            (compute_length_counts (build_tree nodes sym_count) root longest)
    by_root root e =
        let same : suc (suc root) ≡ sym_count = omega (arith, e, two) in
        let sum : root + 2 ≡ suc (suc root) = omega arith in
        let (t, size) = build_tree-IsBuilt nodes root (omega (arith, same, h)) in
        let built = build_tree nodes (suc (suc root)) in
        subst (λ n. IsComplete n longest (compute_length_counts (build_tree nodes n) root longest))
          same
          (subst (λ n. IsComplete n longest (compute_length_counts built root longest)) sum
            (compute_length_counts-IsComplete root longest (parent built)
              (node_depth root root (parent built)) built t (omega (arith, size)) (λ k l. refl)
              short (omega (arith, same, enough))))
