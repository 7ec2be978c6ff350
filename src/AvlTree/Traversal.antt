-- ===== src/AvlTree/Traversal.antt =====
-- The traversals of src/avl_tree.c: a node is known with its parents, up to the root.
use wimlib.Common.{
  ℕ, zero, suc, ◌≤◌, ◌≡◌, refl, ap, ap₂, sym, ◌∙◌, List, [], ◌∷◌, ◌++◌, append-nil, append_assoc,
  length, length-append, Option, none, some, if◌then◌else◌, arith,
}
use mathlib.Core.List.{reverse, reverse-append, reverse-cons}
use wimlib.AvlTree.{
  Sign, left, right, opposite, same_sign, Tree, leaf, node, Frame, frame, join, Balance,
}
use wimlib.AvlTree.Entries.{entries}

module _ {ℓ κ} {K : Type ℓ} {V : Type κ} where
  -- The loop that follows the children on one side.
  pub descend : Sign → Tree K V → List (Frame K V) → Option (Tree K V × List (Frame K V))
  descend s leaf path = none
  descend left (node leaf k v b r) path = some (node leaf k v b r, path)
  descend left (node (node ll lk lv lb lr) k v b r) path =
      descend left (node ll lk lv lb lr) (frame left k v b r ∷ path)
  descend right (node l k v b leaf) path = some (node l k v b leaf, path)
  descend right (node l k v b (node rl rk rv rb rr)) path =
      descend right (node rl rk rv rb rr) (frame right k v b l ∷ path)

  -- The loop that goes up from children on one side.
  pub ascend : Sign → Tree K V → List (Frame K V) → Option (Tree K V × List (Frame K V))
  ascend s t [] = none
  ascend s t (frame u k v b other ∷ path) =
      let up = ascend s (join u k v b t other) path in
      if same_sign u s then up else some (join u k v b t other, path)

  abbrev pub avl_tree_first_or_last_in_order :
      Tree K V → Sign → Option (Tree K V × List (Frame K V))
  avl_tree_first_or_last_in_order root s = descend s root []

  pub avl_tree_next_or_prev_in_order :
      Sign → Tree K V → List (Frame K V) → Option (Tree K V × List (Frame K V))
  avl_tree_next_or_prev_in_order s leaf path = none
  avl_tree_next_or_prev_in_order left (node leaf k v b r) path =
      ascend left (node leaf k v b r) path
  avl_tree_next_or_prev_in_order left (node (node ll lk lv lb lr) k v b r) path =
      descend right (node ll lk lv lb lr) (frame left k v b r ∷ path)
  avl_tree_next_or_prev_in_order right (node l k v b leaf) path =
      ascend right (node l k v b leaf) path
  avl_tree_next_or_prev_in_order right (node l k v b (node rl rk rv rb rr)) path =
      descend left (node rl rk rv rb rr) (frame right k v b l ∷ path)

  -- A node's item.
  abbrev item : Tree K V → List (K × V)
  item leaf = []
  item (node l k v b r) = (k, v) ∷ []

  -- `avl_tree_for_each_in_order`, and `avl_tree_for_each_in_reverse_order` where the sign is `left`: at
  -- most `fuel` items from a position on.
  pub visit : ℕ → Sign → Option (Tree K V × List (Frame K V)) → List (K × V)
  visit zero s position = []
  visit (suc fuel) s none = []
  visit (suc fuel) s (some (t, path)) =
      item t ++ visit fuel s (avl_tree_next_or_prev_in_order s t path)

  abbrev pub avl_tree_for_each : ℕ → Sign → Tree K V → List (K × V)
  avl_tree_for_each fuel s root = visit fuel s (avl_tree_first_or_last_in_order root (opposite s))

  -- The items from one end to the other.
  abbrev pub items : Sign → Tree K V → List (K × V)
  items s leaf = []
  items right (node l k v b r) = items right l ++ ((k, v) ∷ items right r)
  items left (node l k v b r) = items left r ++ ((k, v) ∷ items left l)

  -- Those that come after all of a subtree, and those from a position on.
  abbrev later : Sign → List (Frame K V) → List (K × V)
  later s [] = []
  later right (frame left k v b other ∷ path) = (k, v) ∷ (items right other ++ later right path)
  later right (frame right k v b other ∷ path) = later right path
  later left (frame left k v b other ∷ path) = later left path
  later left (frame right k v b other ∷ path) = (k, v) ∷ (items left other ++ later left path)

  abbrev from : Sign → Option (Tree K V × List (Frame K V)) → List (K × V)
  from s none = []
  from s (some (leaf, path)) = []
  from right (some (node l k v b r, path)) = (k, v) ∷ (items right r ++ later right path)
  from left (some (node l k v b r, path)) = (k, v) ∷ (items left l ++ later left path)

  descend-from :
      (s : Sign) (l : Tree K V) (k : K) (v : V) (b : Balance) (r : Tree K V)
      (path : List (Frame K V))
      → from s (descend (opposite s) (node l k v b r) path)
        ≡ items s (node l k v b r) ++ later s path
  unfolding descend
  descend-from right leaf k v b r path = refl
  descend-from right (node ll lk lv lb lr) k v b r path =
      descend-from right ll lk lv lb lr (frame left k v b r ∷ path)
      ∙ sym (
          append_assoc (items right (node ll lk lv lb lr)) ((k, v) ∷ items right r)
            (later right path))
  descend-from left l k v b leaf path = refl
  descend-from left l k v b (node rl rk rv rb rr) path =
      descend-from left rl rk rv rb rr (frame right k v b l ∷ path)
      ∙ sym (
          append_assoc (items left (node rl rk rv rb rr)) ((k, v) ∷ items left l) (later left path))

  ascend-from :
      (s : Sign) (t : Tree K V) (path : List (Frame K V)) → from s (ascend s t path) ≡ later s path
  unfolding ascend
  ascend-from right t [] = refl
  ascend-from left t [] = refl
  ascend-from right t (frame left k v b other ∷ path) = refl
  ascend-from right t (frame right k v b other ∷ path) =
      ascend-from right (join right k v b t other) path
  ascend-from left t (frame left k v b other ∷ path) =
      ascend-from left (join left k v b t other) path
  ascend-from left t (frame right k v b other ∷ path) = refl

  next_from :
      (s : Sign) (t : Tree K V) (path : List (Frame K V))
      → from s (some (t, path)) ≡ item t ++ from s (avl_tree_next_or_prev_in_order s t path)
  unfolding avl_tree_next_or_prev_in_order
  next_from right leaf path = refl
  next_from left leaf path = refl
  next_from right (node l k v b leaf) path =
      ap (◌∷◌ (k, v)) (sym (ascend-from right (node l k v b leaf) path))
  next_from right (node l k v b (node rl rk rv rb rr)) path =
      ap (◌∷◌ (k, v)) (sym (descend-from right rl rk rv rb rr (frame right k v b l ∷ path)))
  next_from left (node leaf k v b r) path =
      ap (◌∷◌ (k, v)) (sym (ascend-from left (node leaf k v b r) path))
  next_from left (node (node ll lk lv lb lr) k v b r) path =
      ap (◌∷◌ (k, v)) (sym (descend-from left ll lk lv lb lr (frame left k v b r ∷ path)))

  visit_null : (fuel : ℕ) (s : Sign) → visit fuel s none ≡ []
  unfolding visit
  visit_null zero s = refl
  visit_null (suc fuel) s = refl

  visit-from :
      (fuel : ℕ) (s : Sign) (position : Option (Tree K V × List (Frame K V)))
      → length (from s position) ≤ fuel
      → visit fuel s position ≡ from s position
  unfolding visit avl_tree_next_or_prev_in_order
  visit-from zero s position h = sym (empty (from s position) h)
    where
      empty : (xs : List (K × V)) → length xs ≤ 0 → xs ≡ []
      empty [] h = refl
      empty (x ∷ xs) h = absurd (omega arith)
  visit-from (suc fuel) s none h = refl
  visit-from (suc fuel) s (some (leaf, path)) h = visit_null fuel s
  visit-from (suc fuel) s (some (node l k v b r, path)) h =
      let e = next_from s (node l k v b r) path in
      ap (◌∷◌ (k, v)) (
        visit-from fuel s (avl_tree_next_or_prev_in_order s (node l k v b r) path)
          (omega (arith, ap length e)))
      ∙ sym e

  items_entries : (t : Tree K V) → items right t ≡ entries t
  items_entries leaf = refl
  items_entries (node l k v b r) =
      ap₂ (λ xs ys. xs ++ ((k, v) ∷ ys)) (items_entries l) (items_entries r)

  items_reverse : (t : Tree K V) → items left t ≡ reverse (entries t)
  items_reverse leaf = refl
  items_reverse (node l k v b r) =
      ap₂ (λ xs ys. xs ++ ((k, v) ∷ ys)) (items_reverse r) (items_reverse l)
      ∙ sym (
          reverse-append (entries l) ((k, v) ∷ entries r)
          ∙ ap (λ xs. xs ++ reverse (entries l)) (reverse-cons (k, v) (entries r))
          ∙ append_assoc (reverse (entries r)) ((k, v) ∷ []) (reverse (entries l)))

  length-items : (s : Sign) (t : Tree K V) → length (items s t) ≡ length (entries t)
  length-items s leaf = refl
  length-items right t = ap length (items_entries t)
  length-items left (node l k v b r) = omega (
    arith,
    length-append (entries l) ((k, v) ∷ entries r),
    length-append (items left r) ((k, v) ∷ items left l),
    length-items left l,
    length-items left r,
  )

  start :
      (s : Sign) (t : Tree K V)
      → from s (avl_tree_first_or_last_in_order t (opposite s)) ≡ items s t
  unfolding descend
  start left leaf = refl
  start right leaf = refl
  start left (node l k v b r) =
      descend-from left l k v b r [] ∙ append-nil (items left (node l k v b r))
  start right (node l k v b r) =
      descend-from right l k v b r [] ∙ append-nil (items right (node l k v b r))

  all_visited :
      (s : Sign) (root : Tree K V) (fuel : ℕ)
      → length (entries root) ≤ fuel
      → avl_tree_for_each fuel s root ≡ items s root
  all_visited s root fuel h =
      visit-from fuel s (avl_tree_first_or_last_in_order root (opposite s))
        (omega (arith, ap length (start s root), length-items s root))
      ∙ start s root

  -- From the first node, `avl_tree_next_in_order` visits every item once, in order; from the last,
  -- `avl_tree_prev_in_order` does so in the reverse order. As many steps as there are items are enough.
  pub avl_tree_for_each-entries :
      (root : Tree K V) (fuel : ℕ)
      → length (entries root) ≤ fuel
      → (avl_tree_for_each fuel right root ≡ entries root)
        × (avl_tree_for_each fuel left root ≡ reverse (entries root))
  avl_tree_for_each-entries root fuel h = (
    all_visited right root fuel h ∙ items_entries root,
    all_visited left root fuel h ∙ items_reverse root,
  )
