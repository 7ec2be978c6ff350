-- ===== src/AvlTree/Growth.antt =====
-- Rebalancing after an insertion in src/avl_tree.c.
use wimlib.Common.{ℕ, suc, max, ◌≡◌, refl, Bool, true, false, List, [], ◌∷◌, arith, if◌then◌else◌}
use wimlib.AvlTree.{
  Sign, left, right, Balance, even, heavy, Tree, leaf, node, Frame, frame, zip, avl_rotate,
  avl_do_double_rotate, avl_handle_subtree_growth, growth_loop, avl_tree_rebalance_after_insert,
}
use wimlib.AvlTree.Heights.{FitsOn, height, IsAvl, IsAvlPath, zip-IsAvl}

module _ {ℓ κ} {K : Type ℓ} {V : Type κ} where
  -- The root of a subtree that has grown by a new node below it leans to the side that has grown.
  abbrev pub IsHeavy : Tree K V → Type 0
  IsHeavy leaf = ⊥
  IsHeavy (node l k v even r) = ⊥
  IsHeavy (node l k v (heavy s) r) = Unit {_}

  -- The result of a handler, where the subtree had the height `h` before.
  abbrev pub IsHandled : ℕ → Tree K V × Bool → Type 0
  IsHandled h (t, true) = IsAvl t × (height t ≡ h)
  IsHandled h (t, false) = IsAvl t × (height t ≡ suc h) × IsHeavy t

  handled :
      (s : Sign) (k : K) (v : V) (b : Balance) (child other : Tree K V) (h : ℕ)
      → IsAvl child
      → IsHeavy child
      → height child ≡ suc h
      → IsAvl other
      → FitsOn s b h (height other)
      → IsHandled (suc (max h (height other))) (avl_handle_subtree_growth s k v b child other)
  unfolding avl_handle_subtree_growth avl_rotate avl_do_double_rotate
  handled s k v b leaf other h c hc e o f = absurd hc
  handled s k v b (node l ck cv even r) other h c hc e o f = absurd hc
  handled left k v even (node l ck cv (heavy t) r) other h c hc e o f =
      ((c, o, omega arith), omega arith, tt)
  handled right k v even (node l ck cv (heavy t) r) other h c hc e o f =
      ((o, c, omega arith), omega arith, tt)
  handled left k v (heavy right) (node l ck cv (heavy t) r) other h c hc e o f =
      ((c, o, omega arith), omega arith)
  handled right k v (heavy left) (node l ck cv (heavy t) r) other h c hc e o f =
      ((o, c, omega arith), omega arith)
  handled left k v (heavy left) (node l ck cv (heavy left) r) other h (lc, rc, m) hc e o f =
      ((lc, (rc, o, omega arith), omega arith), omega arith)
  handled right k v (heavy right) (node l ck cv (heavy right) r) other h (lc, rc, m) hc e o f =
      (((o, lc, omega arith), rc, omega arith), omega arith)
  handled left k v (heavy left) (node l ck cv (heavy right) leaf) other h (lc, rc, m) hc e o f =
      absurd (omega arith)
  handled right k v (heavy right) (node leaf ck cv (heavy left) r) other h (lc, rc, m) hc e o f =
      absurd (omega arith)
  handled left k v (heavy left) (node l ck cv (heavy right) (node p ek ev even q)) other h
        (lc, (pc, qc, n), m) hc e o f =
      (((lc, pc, omega arith), (qc, o, omega arith), omega arith), omega arith)
  handled left k v (heavy left) (node l ck cv (heavy right) (node p ek ev (heavy left) q)) other h
        (lc, (pc, qc, n), m) hc e o f =
      (((lc, pc, omega arith), (qc, o, omega arith), omega arith), omega arith)
  handled left k v (heavy left) (node l ck cv (heavy right) (node p ek ev (heavy right) q)) other h
        (lc, (pc, qc, n), m) hc e o f =
      (((lc, pc, omega arith), (qc, o, omega arith), omega arith), omega arith)
  handled right k v (heavy right) (node (node p ek ev even q) ck cv (heavy left) r) other h
        ((pc, qc, n), rc, m) hc e o f =
      (((o, pc, omega arith), (qc, rc, omega arith), omega arith), omega arith)
  handled right k v (heavy right) (node (node p ek ev (heavy left) q) ck cv (heavy left) r) other h
        ((pc, qc, n), rc, m) hc e o f =
      (((o, pc, omega arith), (qc, rc, omega arith), omega arith), omega arith)
  handled right k v (heavy right) (node (node p ek ev (heavy right) q) ck cv (heavy left) r) other h
        ((pc, qc, n), rc, m) hc e o f =
      (((o, pc, omega arith), (qc, rc, omega arith), omega arith), omega arith)

  growth_loop-IsAvl :
      (t : Tree K V) (path : List (Frame K V)) (h : ℕ)
      → IsAvl t
      → IsHeavy t
      → height t ≡ suc h
      → IsAvlPath path h
      → IsAvl (growth_loop t path)
  unfolding growth_loop
  growth_loop-IsAvl t [] h a g e u = a
  growth_loop-IsAvl t (frame s k v b other ∷ path) h a g e (o, f, up) =
      let result = avl_handle_subtree_growth s k v b t other in
      by_done result (growth_loop-IsAvl result.0 path (suc (max h (height other))))
        (handled s k v b t other h a g e o f)
    where
      by_done :
          (result : Tree K V × Bool)
          → (IsAvl result.0
              → IsHeavy result.0
              → height result.0 ≡ suc (suc (max h (height other)))
              → IsAvlPath path (suc (max h (height other)))
              → IsAvl (growth_loop result.0 path))
          → IsHandled (suc (max h (height other))) result
          → IsAvl
              (let rest = growth_loop result.0 path in if result.1 then zip result.0 path else rest)
      by_done (t', true) next (a', e') = zip-IsAvl t' path (suc (max h (height other))) a' e' up
      by_done (t', false) next (a', e', g') = next a' g' e' up

  -- An insertion below a leaf: the parent is adjusted first.
  pub avl_tree_rebalance_after_insert-IsAvl :
      (k : K) (v : V) (path : List (Frame K V))
      → IsAvlPath path 0
      → IsAvl (avl_tree_rebalance_after_insert (node leaf k v even leaf) path)
  unfolding avl_tree_rebalance_after_insert
  avl_tree_rebalance_after_insert-IsAvl k v [] u = (tt, tt, refl)
  avl_tree_rebalance_after_insert-IsAvl k v (frame left pk pv even other ∷ path) (o, f, up) =
      growth_loop-IsAvl (node (node leaf k v even leaf) pk pv (heavy left) other) path
        (suc (max 0 (height other))) ((tt, tt, refl), o, omega arith) tt (omega arith) up
  avl_tree_rebalance_after_insert-IsAvl k v (frame right pk pv even other ∷ path) (o, f, up) =
      growth_loop-IsAvl (node other pk pv (heavy right) (node leaf k v even leaf)) path
        (suc (max 0 (height other))) (o, (tt, tt, refl), omega arith) tt (omega arith) up
  avl_tree_rebalance_after_insert-IsAvl k v (frame left pk pv (heavy left) other ∷ path)
        (o, f, up) =
      absurd (omega arith)
  avl_tree_rebalance_after_insert-IsAvl k v (frame right pk pv (heavy right) other ∷ path)
        (o, f, up) =
      absurd (omega arith)
  avl_tree_rebalance_after_insert-IsAvl k v (frame left pk pv (heavy right) other ∷ path)
        (o, f, up) =
      zip-IsAvl (node (node leaf k v even leaf) pk pv even other) path (suc (max 0 (height other)))
        ((tt, tt, refl), o, omega arith) (omega arith) up
  avl_tree_rebalance_after_insert-IsAvl k v (frame right pk pv (heavy left) other ∷ path)
        (o, f, up) =
      zip-IsAvl (node other pk pv even (node leaf k v even leaf)) path (suc (max 0 (height other)))
        (o, (tt, tt, refl), omega arith) (omega arith) up
