-- ===== src/AvlTree/Tests.antt =====
-- src/avl_tree.c on a tree of five numbers.
use Prim.Native.Nat.{compare}
use mathlib.Core.List.{reverse}
use wimlib.Common.{ℕ, ◌≡◌, refl, [], ◌∷◌, arith, length, ◌^◌, ◌/◌, ◌+◌, ◌≤◌}
use wimlib.Common.Order.{IsTotalOrder}
use wimlib.AvlTree.{
  left, right, even, heavy, Tree, leaf, node, frame, zip, avl_tree_insert, insert_loop,
  avl_tree_remove, avl_tree_rebalance_after_insert, growth_loop,
}
use wimlib.AvlTree.Entries.{entries}
use wimlib.AvlTree.Heights.{height, IsAvl}
use wimlib.AvlTree.Sorted.{IsSorted}
use wimlib.AvlTree.Insert.{IsInserted, avl_tree_insert-IsInserted}
use wimlib.AvlTree.Remove.{IsRemoved, avl_tree_remove-IsRemoved}
use wimlib.AvlTree.Depth.{Built, untouched, inserted, removed, Built-height}
use wimlib.AvlTree.Traversal.{avl_tree_for_each, avl_tree_for_each-entries}
use wimlib.AvlTree.Postorder.{
  avl_tree_for_each_in_postorder, postorder, avl_tree_for_each_in_postorder-postorder,
}

compare-IsTotalOrder : IsTotalOrder compare
compare-IsTotalOrder = record {
  turned = λ x y. ground arith;
  chain = λ x y z e f. ground arith;
  same = λ x y e. ground arith;
}

-- 2 and 7 below 5, each with a child on the left.
abbrev low : Tree ℕ ℕ
low = node (node leaf 1 10 even leaf) 2 20 (heavy left) leaf

abbrev high : Tree ℕ ℕ
high = node (node leaf 6 60 even leaf) 7 70 (heavy left) leaf

abbrev root : Tree ℕ ℕ
root = node low 5 50 even high

root-IsAvl : IsAvl root
root-IsAvl = (((tt, tt, refl), tt, refl), ((tt, tt, refl), tt, refl), refl)

root-IsSorted : IsSorted compare (entries root)
root-IsSorted = (
  (refl, (refl, (refl, (refl, tt)))),
  ((refl, (refl, (refl, tt))), ((refl, (refl, tt)), ((refl, tt), (tt, tt)))),
)

-- 0 makes the left side rotate.
avl_tree_insert-IsInserted_example :
    IsInserted compare compare-IsTotalOrder root 0 9 (avl_tree_insert compare root 0 9)
avl_tree_insert-IsInserted_example =
    avl_tree_insert-IsInserted compare compare-IsTotalOrder root 0 9 root-IsAvl root-IsSorted

avl_tree_remove-IsRemoved_example :
    IsRemoved
      (2, 20)
      root
      (avl_tree_remove
        (node leaf 1 10 even leaf)
        (heavy left)
        leaf
        (frame left 5 50 even high ∷ []))
unfolding zip
avl_tree_remove-IsRemoved_example =
    avl_tree_remove-IsRemoved (node leaf 1 10 even leaf) 2 20 (heavy left) leaf
      (frame left 5 50 even high ∷ []) root-IsAvl

-- 5, 2 and 7 are inserted and 2 is removed.
abbrev three : Tree ℕ ℕ
three = node (node leaf 2 20 even leaf) 5 50 even (node leaf 7 70 even leaf)

three-Built : Built compare three
unfolding avl_tree_insert insert_loop avl_tree_rebalance_after_insert growth_loop zip
three-Built = inserted _ (inserted _ (inserted leaf untouched 5 50) 2 20) 7 70

abbrev two_left : Tree ℕ ℕ
two_left = avl_tree_remove leaf even leaf (frame left 5 50 even (node leaf 7 70 even leaf) ∷ [])

two_left-Built : Built compare two_left
unfolding zip
two_left-Built =
    removed leaf 2 20 even leaf (frame left 5 50 even (node leaf 7 70 even leaf) ∷ []) three-Built

Built-height_example : 2 ^ (height two_left / 2) ≤ length (entries two_left) + 1
Built-height_example = Built-height compare compare-IsTotalOrder two_left-Built

avl_tree_for_each-entries_example :
    (avl_tree_for_each 5 right root ≡ entries root)
    × (avl_tree_for_each 5 left root ≡ reverse (entries root))
avl_tree_for_each-entries_example = avl_tree_for_each-entries root 5 (omega arith)

avl_tree_for_each_in_postorder-postorder_example :
    avl_tree_for_each_in_postorder 5 root ≡ postorder root
avl_tree_for_each_in_postorder-postorder_example =
    avl_tree_for_each_in_postorder-postorder root 5 (omega arith)
