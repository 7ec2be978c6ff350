-- ===== src/AvlTree/Postorder.antt =====
-- The postorder traversal of src/avl_tree.c, in which the current node may be freed.
use wimlib.Common.{
  ℕ, zero, suc, ◌≤◌, ◌≡◌, refl, ap, sym, ◌∙◌, List, [], ◌∷◌, ◌++◌, append-nil, append_assoc, length,
  length-append, Option, none, some, arith,
}
use wimlib.AvlTree.{left, right, Tree, leaf, node, Frame, frame}
use wimlib.AvlTree.Entries.{entries}

module _ {ℓ κ} {K : Type ℓ} {V : Type κ} where
  -- The loop down to a node without children, to the left where there is a left child.
  pub bottom : Tree K V → List (Frame K V) → Option (Tree K V × List (Frame K V))
  bottom leaf path = none
  bottom (node leaf k v b leaf) path = some (node leaf k v b leaf, path)
  bottom (node leaf k v b (node rl rk rv rb rr)) path =
      bottom (node rl rk rv rb rr) (frame right k v b leaf ∷ path)
  bottom (node (node ll lk lv lb lr) k v b r) path =
      bottom (node ll lk lv lb lr) (frame left k v b r ∷ path)

  abbrev pub avl_tree_first_in_postorder : Tree K V → Option (Tree K V × List (Frame K V))
  avl_tree_first_in_postorder root = bottom root []

  -- After the node `prev`, from its parents.
  pub avl_tree_next_in_postorder :
      (prev : Tree K V) → List (Frame K V) → Option (Tree K V × List (Frame K V))
  avl_tree_next_in_postorder prev [] = none
  avl_tree_next_in_postorder prev (frame left k v b (node rl rk rv rb rr) ∷ path) =
      bottom (node rl rk rv rb rr) (frame right k v b prev ∷ path)
  avl_tree_next_in_postorder prev (frame left k v b leaf ∷ path) = some (node prev k v b leaf, path)
  avl_tree_next_in_postorder prev (frame right k v b other ∷ path) =
      some (node other k v b prev, path)

  -- `avl_tree_for_each_in_postorder`: at most `fuel` items from a position on.
  pub visit_postorder : ℕ → Option (Tree K V × List (Frame K V)) → List (K × V)
  visit_postorder zero position = []
  visit_postorder (suc fuel) none = []
  visit_postorder (suc fuel) (some (leaf, path)) = []
  visit_postorder (suc fuel) (some (node l k v b r, path)) =
      (k, v) ∷ visit_postorder fuel (avl_tree_next_in_postorder (node l k v b r) path)

  abbrev pub avl_tree_for_each_in_postorder : ℕ → Tree K V → List (K × V)
  avl_tree_for_each_in_postorder fuel root = visit_postorder fuel (avl_tree_first_in_postorder root)

  -- Both children's items, and then the node's own.
  abbrev pub postorder : Tree K V → List (K × V)
  postorder leaf = []
  postorder (node l k v b r) = postorder l ++ (postorder r ++ ((k, v) ∷ []))

  -- What comes after a subtree, and from a position on.
  abbrev outside : List (Frame K V) → List (K × V)
  outside [] = []
  outside (frame left k v b other ∷ path) = postorder other ++ ((k, v) ∷ outside path)
  outside (frame right k v b other ∷ path) = (k, v) ∷ outside path

  abbrev from : Option (Tree K V × List (Frame K V)) → List (K × V)
  from none = []
  from (some (leaf, path)) = []
  from (some (node l k v b r, path)) = (k, v) ∷ outside path

  abbrev IsNode : Tree K V → Type 0
  IsNode leaf = ⊥
  IsNode (node l k v b r) = Unit {_}

  bottom-from :
      (t : Tree K V) (path : List (Frame K V))
      → IsNode t
      → from (bottom t path) ≡ postorder t ++ outside path
  unfolding bottom
  bottom-from leaf path n = absurd n
  bottom-from (node leaf k v b leaf) path n = refl
  bottom-from (node leaf k v b (node rl rk rv rb rr)) path n =
      bottom-from (node rl rk rv rb rr) (frame right k v b leaf ∷ path) tt
      ∙ sym (append_assoc (postorder (node rl rk rv rb rr)) ((k, v) ∷ []) (outside path))
  bottom-from (node (node ll lk lv lb lr) k v b r) path n =
      bottom-from (node ll lk lv lb lr) (frame left k v b r ∷ path) tt ∙ simp append_assoc

  next_from :
      (t : Tree K V) (path : List (Frame K V))
      → from (avl_tree_next_in_postorder t path) ≡ outside path
  unfolding avl_tree_next_in_postorder
  next_from t [] = refl
  next_from t (frame left k v b leaf ∷ path) = refl
  next_from t (frame right k v b other ∷ path) = refl
  next_from t (frame left k v b (node rl rk rv rb rr) ∷ path) =
      bottom-from (node rl rk rv rb rr) (frame right k v b t ∷ path) tt

  visit-from :
      (fuel : ℕ) (position : Option (Tree K V × List (Frame K V)))
      → length (from position) ≤ fuel
      → visit_postorder fuel position ≡ from position
  unfolding visit_postorder
  visit-from zero none h = refl
  visit-from zero (some (leaf, path)) h = refl
  visit-from zero (some (node l k v b r, path)) h = absurd (omega arith)
  visit-from (suc fuel) none h = refl
  visit-from (suc fuel) (some (leaf, path)) h = refl
  visit-from (suc fuel) (some (node l k v b r, path)) h =
      let e = next_from (node l k v b r) path in
      ap (◌∷◌ (k, v)) (
        visit-from fuel (avl_tree_next_in_postorder (node l k v b r) path)
          (omega (arith, ap length e))
        ∙ e)

  length-postorder : (t : Tree K V) → length (postorder t) ≡ length (entries t)
  length-postorder leaf = refl
  length-postorder (node l k v b r) = omega (
    arith,
    length-append (postorder l) (postorder r ++ ((k, v) ∷ [])),
    length-append (postorder r) ((k, v) ∷ []),
    length-append (entries l) ((k, v) ∷ entries r),
    length-postorder l,
    length-postorder r,
  )

  -- From the first node in postorder, `avl_tree_next_in_postorder` visits every item once, each after all
  -- those below it; as many steps as there are items are enough.
  pub avl_tree_for_each_in_postorder-postorder :
      (root : Tree K V) (fuel : ℕ)
      → length (entries root) ≤ fuel
      → avl_tree_for_each_in_postorder fuel root ≡ postorder root
  unfolding bottom
  avl_tree_for_each_in_postorder-postorder leaf fuel h = visit-from fuel none (omega arith)
  avl_tree_for_each_in_postorder-postorder (node l k v b r) fuel h =
      let root = node l k v b r in
      let e = bottom-from root [] tt ∙ append-nil (postorder root) in
      visit-from fuel (avl_tree_first_in_postorder root)
        (omega (arith, ap length e, length-postorder root))
      ∙ e
