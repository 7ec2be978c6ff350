-- ===== src/AvlTree/Shrinkage.antt =====
-- Rebalancing after a removal in src/avl_tree.c.
use wimlib.Common.{ℕ, suc, max, ◌≡◌, Bool, true, false, List, [], ◌∷◌, arith, subst, if◌then◌else◌}
use wimlib.AvlTree.{
  Sign, left, right, Balance, even, heavy, Tree, leaf, node, Frame, frame, zip, avl_rotate,
  avl_do_double_rotate, avl_handle_subtree_shrink, shrink_loop, avl_tree_remove, successor,
  unlink_successor,
}
use wimlib.AvlTree.Heights.{FitsOn, height, IsAvl, IsAvlPath, zip-IsAvl}

module _ {ℓ κ} {K : Type ℓ} {V : Type κ} where
  -- The result of the handler, where the subtree had the height `h` before.
  abbrev IsHandled : ℕ → Tree K V × Bool → Type 0
  IsHandled h (t, true) = IsAvl t × (suc (height t) ≡ h)
  IsHandled h (t, false) = IsAvl t × (height t ≡ h)

  handled :
      (s : Sign) (k : K) (v : V) (b : Balance) (child other : Tree K V) (h : ℕ)
      → IsAvl child
      → suc (height child) ≡ h
      → IsAvl other
      → FitsOn s b h (height other)
      → IsHandled (suc (max h (height other))) (avl_handle_subtree_shrink s k v b child other)
  unfolding avl_handle_subtree_shrink avl_rotate avl_do_double_rotate
  handled left k v even child other h c e o f = ((c, o, omega arith), omega arith)
  handled right k v even child other h c e o f = ((o, c, omega arith), omega arith)
  handled left k v (heavy left) child other h c e o f = ((c, o, omega arith), omega arith)
  handled right k v (heavy right) child other h c e o f = ((o, c, omega arith), omega arith)
  handled left k v (heavy right) child leaf h c e o f = absurd (omega arith)
  handled right k v (heavy left) child leaf h c e o f = absurd (omega arith)
  handled left k v (heavy right) child (node l ok ov even r) h c e (lc, rc, m) f =
      (((c, lc, omega arith), rc, omega arith), omega arith)
  handled right k v (heavy left) child (node l ok ov even r) h c e (lc, rc, m) f =
      ((lc, (rc, c, omega arith), omega arith), omega arith)
  handled left k v (heavy right) child (node l ok ov (heavy right) r) h c e (lc, rc, m) f =
      (((c, lc, omega arith), rc, omega arith), omega arith)
  handled right k v (heavy left) child (node l ok ov (heavy left) r) h c e (lc, rc, m) f =
      ((lc, (rc, c, omega arith), omega arith), omega arith)
  handled left k v (heavy right) child (node leaf ok ov (heavy left) r) h c e (lc, rc, m) f =
      absurd (omega arith)
  handled right k v (heavy left) child (node l ok ov (heavy right) leaf) h c e (lc, rc, m) f =
      absurd (omega arith)
  handled left k v (heavy right) child (node (node p ek ev even q) ok ov (heavy left) r) h c e
        ((pc, qc, n), rc, m) f =
      (((c, pc, omega arith), (qc, rc, omega arith), omega arith), omega arith)
  handled left k v (heavy right) child (node (node p ek ev (heavy left) q) ok ov (heavy left) r) h c
        e ((pc, qc, n), rc, m) f =
      (((c, pc, omega arith), (qc, rc, omega arith), omega arith), omega arith)
  handled left k v (heavy right) child (node (node p ek ev (heavy right) q) ok ov (heavy left) r) h
        c e ((pc, qc, n), rc, m) f =
      (((c, pc, omega arith), (qc, rc, omega arith), omega arith), omega arith)
  handled right k v (heavy left) child (node l ok ov (heavy right) (node p ek ev even q)) h c e
        (lc, (pc, qc, n), m) f =
      (((lc, pc, omega arith), (qc, c, omega arith), omega arith), omega arith)
  handled right k v (heavy left) child (node l ok ov (heavy right) (node p ek ev (heavy left) q)) h
        c e (lc, (pc, qc, n), m) f =
      (((lc, pc, omega arith), (qc, c, omega arith), omega arith), omega arith)
  handled right k v (heavy left) child (node l ok ov (heavy right) (node p ek ev (heavy right) q)) h
        c e (lc, (pc, qc, n), m) f =
      (((lc, pc, omega arith), (qc, c, omega arith), omega arith), omega arith)

  shrink_loop-IsAvl :
      (t : Tree K V) (path : List (Frame K V)) (h : ℕ)
      → IsAvl t
      → suc (height t) ≡ h
      → IsAvlPath path h
      → IsAvl (shrink_loop t path)
  unfolding shrink_loop
  shrink_loop-IsAvl t [] h a e u = a
  shrink_loop-IsAvl t (frame s k v b other ∷ path) h a e (o, f, up) =
      let result = avl_handle_subtree_shrink s k v b t other in
      by_on result (shrink_loop-IsAvl result.0 path (suc (max h (height other))))
        (handled s k v b t other h a e o f)
    where
      by_on :
          (result : Tree K V × Bool)
          → (IsAvl result.0
              → suc (height result.0) ≡ suc (max h (height other))
              → IsAvlPath path (suc (max h (height other)))
              → IsAvl (shrink_loop result.0 path))
          → IsHandled (suc (max h (height other))) result
          → IsAvl
              (let rest = shrink_loop result.0 path in if result.1 then rest else zip result.0 path)
      by_on (t', true) next (a', e') = next a' e' up
      by_on (t', false) next (a', e') = zip-IsAvl t' path (suc (max h (height other))) a' e' up

  -- What is left of the successor, and its parents.
  unlink_successor-IsAvl :
      (l : Tree K V) (k : K) (v : V) (b : Balance) (r : Tree K V) (path : List (Frame K V))
      → IsAvl (node l k v b r)
      → IsAvlPath path (height (node l k v b r))
      → IsAvl (shrink_loop (unlink_successor l k v b r path).0 (unlink_successor l k v b r path).1)
  unfolding unlink_successor
  unlink_successor-IsAvl leaf k v b r path (lc, rc, m) up =
      shrink_loop-IsAvl r path (height (node leaf k v b r)) rc (omega arith) up
  unlink_successor-IsAvl (node ll lk lv lb lr) k v b r path (lc, rc, m) up =
      unlink_successor-IsAvl ll lk lv lb lr (frame left k v b r ∷ path) lc (rc, m, up)

  -- `avl_tree_remove` of a node of an AVL tree leaves an AVL tree: every balance factor is the difference
  -- of the heights of the two children.
  pub avl_tree_remove-IsAvl :
      (l : Tree K V) (k : K) (v : V) (b : Balance) (r : Tree K V) (path : List (Frame K V))
      → IsAvl (node l k v b r)
      → IsAvlPath path (height (node l k v b r))
      → IsAvl (avl_tree_remove l b r path)
  unfolding avl_tree_remove
  avl_tree_remove-IsAvl leaf k v b r path (lc, rc, m) up =
      shrink_loop-IsAvl r path (height (node leaf k v b r)) rc (omega arith) up
  avl_tree_remove-IsAvl (node ll lk lv lb lr) k v b leaf path (lc, rc, m) up =
      shrink_loop-IsAvl (node ll lk lv lb lr) path (height (node (node ll lk lv lb lr) k v b leaf))
        lc (omega arith) up
  avl_tree_remove-IsAvl (node ll lk lv lb lr) k v b (node rl rk rv rb rr) path (lc, rc, m) up =
      let (k', v') = successor rl rk rv rb rr in
      unlink_successor-IsAvl rl rk rv rb rr (frame right k' v' b (node ll lk lv lb lr) ∷ path) rc
        (lc, m, subst (IsAvlPath path) (omega arith) up)
