-- ===== src/AvlTree.antt =====
-- src/avl_tree.c and include/wimlib/avl_tree.h. A node's children are trees, and the chain of parent
-- pointers from a node up to the root is a list of frames, the parent first; a frame is a parent and what
-- hangs on its other side. A key and a value stand for the item that a node is embedded in.
pub mod Entries
pub mod Heights
pub mod Growth
pub mod Shrinkage
pub mod Sorted
pub mod Parts
pub mod Insert
pub mod Remove
pub mod Depth
pub mod Traversal
pub mod Postorder
mod Tests
use Prim.Native.Nat.{Ordering}
use Prim.Native.Nat.Ordering.{lt, eq, gt}
use wimlib.Common.{Bool, true, false, not, List, [], ◌∷◌, if◌then◌else◌, Option, none, some}

-- The source's sign: -1 is `left`, +1 is `right`.
pub data Sign : Type 0 where
  left right : Sign

abbrev pub opposite : Sign → Sign
opposite left = right
opposite right = left

abbrev pub same_sign : Sign → Sign → Bool
same_sign left left = true
same_sign left right = false
same_sign right left = false
same_sign right right = true

-- A balance factor: `even` is 0 and `heavy s` is the sign `s`.
pub data Balance : Type 0 where
  even : Balance
  heavy : Sign → Balance

-- `avl_adjust_balance_factor`; its caller ensures that the factor stays in range.
abbrev pub avl_adjust_balance_factor : Balance → Sign → Balance
avl_adjust_balance_factor even s = heavy s
avl_adjust_balance_factor (heavy s) t = if same_sign s t then heavy s else even

-- Whether the factor times the sign is above 0.
abbrev pub leans : Balance → Sign → Bool
leans even s = false
leans (heavy t) s = same_sign t s

-- What `avl_do_double_rotate` with sign `-s` gives `A` and `B`, from the factor `e` of `E`.
abbrev pub factor_a : Sign → Balance → Balance
factor_a s e = if leans e s then heavy (opposite s) else even

abbrev pub factor_b : Sign → Balance → Balance
factor_b s e = if leans e (opposite s) then heavy s else even

-- struct avl_tree_node, and a null pointer.
pub data Tree {ℓ κ} (K : Type ℓ) (V : Type κ) : Type (ℓ ⊔ κ) where
  leaf : Tree K V
  node : Tree K V → K → V → Balance → Tree K V → Tree K V

-- A parent: the side on which the child hangs, the parent's item and balance factor, its other child.
pub data Frame {ℓ κ} (K : Type ℓ) (V : Type κ) : Type (ℓ ⊔ κ) where
  frame : Sign → K → V → Balance → Tree K V → Frame K V

module _ {ℓ κ} {K : Type ℓ} {V : Type κ} where
  -- The node that a parent and its children make, with the first child on the side of the sign.
  abbrev pub join : Sign → K → V → Balance → Tree K V → Tree K V → Tree K V
  join left k v b child other = node child k v b other
  join right k v b child other = node other k v b child

  -- The whole tree, from a subtree and its parents.
  pub zip : Tree K V → List (Frame K V) → Tree K V
  zip t [] = t
  zip t (frame s k v b other ∷ path) = zip (join s k v b t other) path

  abbrev pub avl_get_child : Tree K V → Sign → Tree K V
  avl_get_child leaf s = leaf
  avl_get_child (node l k v b r) left = l
  avl_get_child (node l k v b r) right = r

  abbrev pub avl_get_balance_factor : Tree K V → Balance
  avl_get_balance_factor leaf = even
  avl_get_balance_factor (node l k v b r) = b

  -- `avl_rotate` with sign `-s` of the parent `A`, whose child `B` hangs on the side `s`; `a` and `b` are
  -- the balance factors that the two have afterwards.
  pub avl_rotate : Sign → K → V → (a b : Balance) → (B C : Tree K V) → Tree K V
  avl_rotate s k v a b leaf C = join s k v a leaf C
  avl_rotate left k v a b (node D bk bv old E) C = node D bk bv b (node E k v a C)
  avl_rotate right k v a b (node E bk bv old D) C = node (node C k v a E) bk bv b D

  -- `avl_do_double_rotate` with sign `-s`, as above.
  pub avl_do_double_rotate : Sign → K → V → (B C : Tree K V) → Tree K V
  avl_do_double_rotate left k v (node D bk bv old (node F ek ev e G)) C =
      node (node D bk bv (factor_b left e) F) ek ev even (node G k v (factor_a left e) C)
  avl_do_double_rotate right k v (node (node G ek ev e F) bk bv old D) C =
      node (node C k v (factor_a right e) G) ek ev even (node F bk bv (factor_b right e) D)
  avl_do_double_rotate s k v B C = join s k v even B C

  -- The subtree of the parent once its child `child` on the side `s` has grown, and whether the tree is
  -- balanced now; if not, that subtree has grown.
  pub avl_handle_subtree_growth :
      Sign → K → V → Balance → (child other : Tree K V) → Tree K V × Bool
  avl_handle_subtree_growth s k v even child other = (join s k v (heavy s) child other, false)
  avl_handle_subtree_growth s k v (heavy t) child other =
      if not (same_sign t s)
      then (join s k v even child other, true)
      else if leans (avl_get_balance_factor child) s
      then (avl_rotate s k v even even child other, true)
      else (avl_do_double_rotate s k v child other, true)

  -- The loop of `avl_tree_rebalance_after_insert`, up from a subtree that has grown.
  pub growth_loop : Tree K V → List (Frame K V) → Tree K V
  growth_loop t [] = t
  growth_loop t (frame s k v b other ∷ path) =
      let (t', done) = avl_handle_subtree_growth s k v b t other in
      let rest = growth_loop t' path in if done then zip t' path else rest

  unfoldable pub avl_tree_rebalance_after_insert : Tree K V → List (Frame K V) → Tree K V
  avl_tree_rebalance_after_insert inserted [] = inserted
  avl_tree_rebalance_after_insert inserted (frame s k v b other ∷ path) =
      let adjusted = avl_adjust_balance_factor b s in
      let parent = join s k v adjusted inserted other in
      elim adjusted [ even ↦ zip parent path | heavy t ↦ growth_loop parent path ]

  -- The subtree of the parent once its child `child` on the side `s` has shrunk, and whether that subtree
  -- has shrunk too.
  pub avl_handle_subtree_shrink :
      Sign → K → V → Balance → (child other : Tree K V) → Tree K V × Bool
  avl_handle_subtree_shrink s k v even child other =
      (join s k v (heavy (opposite s)) child other, false)
  avl_handle_subtree_shrink s k v (heavy t) child other =
      let sign = opposite s in
      if not (same_sign t sign)
      then (join s k v even child other, true)
      else if leans (avl_get_balance_factor other) s
      then (avl_do_double_rotate sign k v other child, true)
      else elim (avl_get_balance_factor other) [
        | even ↦ (avl_rotate sign k v (heavy sign) (heavy s) other child, false)
        | heavy u ↦ (avl_rotate sign k v even even other child, true)
      ]

  -- The loop of `avl_tree_remove`, up from a subtree that has shrunk.
  pub shrink_loop : Tree K V → List (Frame K V) → Tree K V
  shrink_loop t [] = t
  shrink_loop t (frame s k v b other ∷ path) =
      let (t', on) = avl_handle_subtree_shrink s k v b t other in
      let rest = shrink_loop t' path in if on then rest else zip t' path

  -- The in-order successor's item, below a node's right child: the left children are followed.
  pub successor : Tree K V → K → V → Balance → Tree K V → K × V
  successor leaf k v b r = (k, v)
  successor (node ll lk lv lb lr) k v b r = successor ll lk lv lb lr

  -- What is left of the successor, its right child, and its parents on top of `path`.
  pub unlink_successor :
      Tree K V → K → V → Balance → Tree K V → List (Frame K V) → Tree K V × List (Frame K V)
  unlink_successor leaf k v b r path = (r, path)
  unlink_successor (node ll lk lv lb lr) k v b r path =
      unlink_successor ll lk lv lb lr (frame left k v b r ∷ path)

  -- `avl_tree_remove` of the node with these children and this factor, below `path`; its item is dropped.
  pub avl_tree_remove : (l : Tree K V) → Balance → (r : Tree K V) → List (Frame K V) → Tree K V
  avl_tree_remove leaf b r path = shrink_loop r path
  avl_tree_remove (node ll lk lv lb lr) b leaf path = shrink_loop (node ll lk lv lb lr) path
  avl_tree_remove (node ll lk lv lb lr) b (node rl rk rv rb rr) path =
      let (k, v) = successor rl rk rv rb rr in
      let (t, up) =
        unlink_successor rl rk rv rb rr (frame right k v b (node ll lk lv lb lr) ∷ path) in
      shrink_loop t up

module _ {ℓ κ} {K : Type ℓ} {V : Type κ} (cmp : K → K → Ordering) where
  unfoldable pub avl_tree_lookup_node : Tree K V → K → Option V
  avl_tree_lookup_node leaf q = none
  avl_tree_lookup_node (node l k v b r) q = elim (cmp q k) [
    | lt ↦ avl_tree_lookup_node l q
    | eq ↦ some v
    | gt ↦ avl_tree_lookup_node r q
  ]

  -- The loop of `avl_tree_insert` below `path`. The second result is the item that compares equal.
  unfoldable pub insert_loop : K → V → Tree K V → List (Frame K V) → Tree K V × Option V
  insert_loop q w leaf path = (avl_tree_rebalance_after_insert (node leaf q w even leaf) path, none)
  insert_loop q w (node l k v b r) path = elim (cmp q k) [
    | lt ↦ insert_loop q w l (frame left k v b r ∷ path)
    | eq ↦ (zip (node l k v b r) path, some v)
    | gt ↦ insert_loop q w r (frame right k v b l ∷ path)
  ]

  unfoldable pub avl_tree_insert : Tree K V → K → V → Tree K V × Option V
  avl_tree_insert root q w = insert_loop q w root []
