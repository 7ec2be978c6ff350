-- ===== src/AvlTree/Entries.antt =====
-- The items of src/avl_tree.c's tree in order: rotations and rebalancing keep them.
use wimlib.Common.{
  ◌≡◌, refl, ap, sym, ◌∙◌, Bool, true, false, List, [], ◌∷◌, ◌++◌, append_assoc, Bool-cases, inl,
  inr, not, if◌then◌else◌,
}
use wimlib.AvlTree.{
  Sign, left, right, Balance, even, heavy, Tree, leaf, node, Frame, frame, join, zip, avl_rotate,
  avl_do_double_rotate, avl_handle_subtree_growth, growth_loop, avl_tree_rebalance_after_insert,
  avl_handle_subtree_shrink, shrink_loop, successor, unlink_successor, opposite, same_sign, leans,
  avl_get_balance_factor, avl_adjust_balance_factor,
}

module _ {ℓ κ} {K : Type ℓ} {V : Type κ} where
  abbrev pub entries : Tree K V → List (K × V)
  entries leaf = []
  entries (node l k v b r) = entries l ++ ((k, v) ∷ entries r)

  -- The items of a parent around those of the child on the side `s`.
  abbrev pub beside : Sign → K → V → (child other : List (K × V)) → List (K × V)
  beside left k v child other = child ++ ((k, v) ∷ other)
  beside right k v child other = other ++ ((k, v) ∷ child)

  -- The items of the whole tree, from those of a subtree.
  abbrev pub around : List (Frame K V) → List (K × V) → List (K × V)
  around [] xs = xs
  around (frame s k v b other ∷ path) xs = around path (beside s k v xs (entries other))

  pub entries-join :
      (s : Sign) (k : K) (v : V) (b : Balance) (child other : Tree K V)
      → entries (join s k v b child other) ≡ beside s k v (entries child) (entries other)
  entries-join left k v b child other = refl
  entries-join right k v b child other = refl

  pub entries-zip :
      (t : Tree K V) (path : List (Frame K V)) → entries (zip t path) ≡ around path (entries t)
  unfolding zip
  entries-zip t [] = refl
  entries-zip t (frame s k v b other ∷ path) =
      entries-zip (join s k v b t other) path ∙ ap (around path) (entries-join s k v b t other)

  pub entries-avl_rotate :
      (s : Sign) (k : K) (v : V) (a b : Balance) (child other : Tree K V)
      → entries (avl_rotate s k v a b child other) ≡ beside s k v (entries child) (entries other)
  unfolding avl_rotate
  entries-avl_rotate left k v a b leaf other = refl
  entries-avl_rotate right k v a b leaf other = refl
  entries-avl_rotate left k v a b (node l lk lv lb r) other =
      sym (append_assoc (entries l) ((lk, lv) ∷ entries r) ((k, v) ∷ entries other))
  entries-avl_rotate right k v a b (node l lk lv lb r) other =
      append_assoc (entries other) ((k, v) ∷ entries l) ((lk, lv) ∷ entries r)

  pub entries-avl_do_double_rotate :
      (s : Sign) (k : K) (v : V) (child other : Tree K V)
      → entries (avl_do_double_rotate s k v child other)
        ≡ beside s k v (entries child) (entries other)
  unfolding avl_do_double_rotate
  entries-avl_do_double_rotate left k v leaf other = refl
  entries-avl_do_double_rotate right k v leaf other = refl
  entries-avl_do_double_rotate left k v (node l lk lv lb leaf) other = refl
  entries-avl_do_double_rotate right k v (node leaf lk lv lb r) other = refl
  entries-avl_do_double_rotate left k v (node l lk lv lb (node f ek ev e g)) other =
      simp append_assoc
  entries-avl_do_double_rotate right k v (node (node g ek ev e f) lk lv lb r) other =
      simp append_assoc

  -- The handlers: a rebalanced subtree has the items that it had.
  abbrev KeepsItems : Sign → K → V → (child other : Tree K V) → Tree K V × Bool → Type (ℓ ⊔ κ)
  KeepsItems s k v child other (t, on) = entries t ≡ beside s k v (entries child) (entries other)

  pub entries-avl_handle_subtree_growth :
      (s : Sign) (k : K) (v : V) (b : Balance) (child other : Tree K V)
      → entries (avl_handle_subtree_growth s k v b child other).0
        ≡ beside s k v (entries child) (entries other)
  unfolding avl_handle_subtree_growth
  entries-avl_handle_subtree_growth s k v even child other =
      entries-join s k v (heavy s) child other
  entries-avl_handle_subtree_growth s k v (heavy t) child other =
      by_tests (same_sign t s) (leans (avl_get_balance_factor child) s)
    where
      by_tests :
          (same leaning : Bool)
          → KeepsItems s k v child other (
              if not same
              then (join s k v even child other, true)
              else if leaning
              then (avl_rotate s k v even even child other, true)
              else (avl_do_double_rotate s k v child other, true))
      by_tests false leaning = entries-join s k v even child other
      by_tests true true = entries-avl_rotate s k v even even child other
      by_tests true false = entries-avl_do_double_rotate s k v child other

  pub entries-avl_handle_subtree_shrink :
      (s : Sign) (k : K) (v : V) (b : Balance) (child other : Tree K V)
      → entries (avl_handle_subtree_shrink s k v b child other).0
        ≡ beside s k v (entries child) (entries other)
  unfolding avl_handle_subtree_shrink
  entries-avl_handle_subtree_shrink s k v even child other =
      entries-join s k v (heavy (opposite s)) child other
  entries-avl_handle_subtree_shrink s k v (heavy t) child other =
      by_tests (same_sign t (opposite s)) (leans (avl_get_balance_factor other) s)
        (avl_get_balance_factor other)
    where
      mirror :
          (s : Sign) (child other : List (K × V))
          → beside (opposite s) k v other child ≡ beside s k v child other
      mirror left child other = refl
      mirror right child other = refl

      by_tests :
          (same leaning : Bool) (factor : Balance)
          → KeepsItems s k v child other (
              if not same
              then (join s k v even child other, true)
              else if leaning
              then (avl_do_double_rotate (opposite s) k v other child, true)
              else elim factor [
                | even ↦
                    (avl_rotate (opposite s) k v (heavy (opposite s)) (heavy s) other child, false)
                | heavy u ↦ (avl_rotate (opposite s) k v even even other child, true)
              ])
      by_tests false leaning factor = entries-join s k v even child other
      by_tests true true factor =
          entries-avl_do_double_rotate (opposite s) k v other child
          ∙ mirror s (entries child) (entries other)
      by_tests true false even =
          entries-avl_rotate (opposite s) k v (heavy (opposite s)) (heavy s) other child
          ∙ mirror s (entries child) (entries other)
      by_tests true false (heavy u) =
          entries-avl_rotate (opposite s) k v even even other child
          ∙ mirror s (entries child) (entries other)

  pub entries-growth_loop :
      (t : Tree K V) (path : List (Frame K V))
      → entries (growth_loop t path) ≡ around path (entries t)
  unfolding growth_loop
  entries-growth_loop t [] = refl
  entries-growth_loop t (frame s k v b other ∷ path) =
      let (t', done) = avl_handle_subtree_growth s k v b t other in
      let kept : around path (entries t') ≡ around path (beside s k v (entries t) (entries other)) =
        ap (around path) (entries-avl_handle_subtree_growth s k v b t other) in
      elim (Bool-cases done) [
        | inl e ↦ rw e (entries-zip t' path ∙ kept)
        | inr e ↦ rw e (entries-growth_loop t' path ∙ kept)
      ]

  pub entries-shrink_loop :
      (t : Tree K V) (path : List (Frame K V))
      → entries (shrink_loop t path) ≡ around path (entries t)
  unfolding shrink_loop
  entries-shrink_loop t [] = refl
  entries-shrink_loop t (frame s k v b other ∷ path) =
      let (t', on) = avl_handle_subtree_shrink s k v b t other in
      let kept : around path (entries t') ≡ around path (beside s k v (entries t) (entries other)) =
        ap (around path) (entries-avl_handle_subtree_shrink s k v b t other) in
      elim (Bool-cases on) [
        | inl e ↦ rw e (entries-shrink_loop t' path ∙ kept)
        | inr e ↦ rw e (entries-zip t' path ∙ kept)
      ]

  pub entries-avl_tree_rebalance_after_insert :
      (t : Tree K V) (path : List (Frame K V))
      → entries (avl_tree_rebalance_after_insert t path) ≡ around path (entries t)
  unfolding avl_tree_rebalance_after_insert
  entries-avl_tree_rebalance_after_insert t [] = refl
  entries-avl_tree_rebalance_after_insert t (frame s k v b other ∷ path) =
      by_factor (avl_adjust_balance_factor b s) (join s k v (avl_adjust_balance_factor b s) t other)
        (entries-join s k v (avl_adjust_balance_factor b s) t other)
    where
      by_factor :
          (a : Balance) (parent : Tree K V)
          → entries parent ≡ beside s k v (entries t) (entries other)
          → entries (elim a [ even ↦ zip parent path | heavy u ↦ growth_loop parent path ])
            ≡ around path (beside s k v (entries t) (entries other))
      by_factor even parent e = entries-zip parent path ∙ ap (around path) e
      by_factor (heavy u) parent e = entries-growth_loop parent path ∙ ap (around path) e

  -- The items below a node's right child but the successor's.
  abbrev pub rest : Tree K V → K → V → Tree K V → List (K × V)
  rest leaf k v r = entries r
  rest (node ll lk lv lb lr) k v r = rest ll lk lv lr ++ ((k, v) ∷ entries r)

  pub successor_first :
      (l : Tree K V) (k : K) (v : V) (b : Balance) (r : Tree K V)
      → successor l k v b r ∷ rest l k v r ≡ entries l ++ ((k, v) ∷ entries r)
  unfolding successor
  successor_first leaf k v b r = refl
  successor_first (node ll lk lv lb lr) k v b r =
      ap (λ xs. xs ++ ((k, v) ∷ entries r)) (successor_first ll lk lv lb lr)

  pub unlinked :
      (l : Tree K V) (k : K) (v : V) (b : Balance) (r : Tree K V) (path : List (Frame K V))
      (t : Tree K V) (up : List (Frame K V))
      → unlink_successor l k v b r path ≡ (t, up)
      → around up (entries t) ≡ around path (rest l k v r)
  unfolding unlink_successor
  unlinked leaf k v b r path t up e = ap (λ p. around p.1 (entries p.0)) (sym e)
  unlinked (node ll lk lv lb lr) k v b r path t up e =
      unlinked ll lk lv lb lr (frame left k v b r ∷ path) t up e
