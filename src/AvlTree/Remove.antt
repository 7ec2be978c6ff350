-- ===== src/AvlTree/Remove.antt =====
-- The removal of a node of src/avl_tree.c: an AVL tree stays, with the other items in order.
use wimlib.Common.{◌≡◌, refl, ap, sym, ◌∙◌, List, [], ◌∷◌, ◌++◌, append-nil, append_assoc}
use wimlib.AvlTree.{
  left, right, Balance, Tree, leaf, node, Frame, frame, zip, successor, unlink_successor,
  avl_tree_remove,
}
use wimlib.AvlTree.Entries.{
  entries, around, entries-zip, entries-shrink_loop, successor_first, unlinked,
}
use wimlib.AvlTree.Heights.{IsAvl, unzip-IsAvl}
use wimlib.AvlTree.Shrinkage.{avl_tree_remove-IsAvl}

module _ {ℓ κ} {K : Type ℓ} {V : Type κ} where
  entries-avl_tree_remove :
      (l : Tree K V) (b : Balance) (r : Tree K V) (path : List (Frame K V))
      → entries (avl_tree_remove l b r path) ≡ around path (entries l ++ entries r)
  unfolding avl_tree_remove
  entries-avl_tree_remove leaf b r path = entries-shrink_loop r path
  entries-avl_tree_remove (node ll lk lv lb lr) b leaf path =
      entries-shrink_loop (node ll lk lv lb lr) path
      ∙ ap (around path) (sym (append-nil (entries ll ++ ((lk, lv) ∷ entries lr))))
  entries-avl_tree_remove (node ll lk lv lb lr) b (node rl rk rv rb rr) path =
      let (k, v) = successor rl rk rv rb rr in
      let up = frame right k v b (node ll lk lv lb lr) ∷ path in
      let (t, up') = unlink_successor rl rk rv rb rr up in
      entries-shrink_loop t up'
      ∙ unlinked rl rk rv rb rr up t up' refl
      ∙ ap (λ xs. around path (entries (node ll lk lv lb lr) ++ xs))
          (successor_first rl rk rv rb rr)

  -- The items before and after those of a subtree.
  abbrev before : List (Frame K V) → List (K × V)
  before [] = []
  before (frame left k v b other ∷ path) = before path
  before (frame right k v b other ∷ path) = before path ++ (entries other ++ ((k, v) ∷ []))

  abbrev after : List (Frame K V) → List (K × V)
  after [] = []
  after (frame left k v b other ∷ path) = (k, v) ∷ (entries other ++ after path)
  after (frame right k v b other ∷ path) = after path

  around_parts :
      (path : List (Frame K V)) (xs : List (K × V))
      → around path xs ≡ before path ++ (xs ++ after path)
  around_parts [] xs = sym (append-nil xs)
  around_parts (frame left k v b other ∷ path) xs =
      around_parts path (xs ++ ((k, v) ∷ entries other)) ∙ simp append_assoc
  around_parts (frame right k v b other ∷ path) xs =
      around_parts path (entries other ++ ((k, v) ∷ xs)) ∙ simp append_assoc

  -- What is left is an AVL tree with the items before and after the one that goes.
  pub record IsRemoved (x : K × V) (root result : Tree K V) : Type (ℓ ⊔ κ) where
    pub balanced : IsAvl result
    pub xs : List (K × V)
    pub ys : List (K × V)
    pub split : entries root ≡ xs ++ (x ∷ ys)
    pub removed : entries result ≡ xs ++ ys

  -- `avl_tree_remove` of any node of an AVL tree leaves an AVL tree, in which every balance factor is the
  -- difference of the heights of the two sides, and takes that node's item out of the items in order and
  -- nothing else.
  pub avl_tree_remove-IsRemoved :
      (l : Tree K V) (k : K) (v : V) (b : Balance) (r : Tree K V) (path : List (Frame K V))
      → IsAvl (zip (node l k v b r) path)
      → IsRemoved (k, v) (zip (node l k v b r) path) (avl_tree_remove l b r path)
  avl_tree_remove-IsRemoved l k v b r path a =
      let (t, up) = unzip-IsAvl (node l k v b r) path a in
      record {
        balanced = avl_tree_remove-IsAvl l k v b r path t up;
        xs = before path ++ entries l;
        ys = entries r ++ after path;
        split =
            entries-zip (node l k v b r) path
            ∙ around_parts path (entries (node l k v b r))
            ∙ simp append_assoc;
        removed =
            entries-avl_tree_remove l b r path
            ∙ around_parts path (entries l ++ entries r)
            ∙ simp append_assoc;
      }
