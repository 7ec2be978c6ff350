-- ===== src/AvlTree/Heights.antt =====
-- The heights in src/avl_tree.c's tree and the balance factors that tell them.
use wimlib.Common.{ℕ, suc, max, ◌≡◌, List, [], ◌∷◌, arith, subst, sym}
use wimlib.AvlTree.{
  Sign, left, right, Balance, even, heavy, Tree, leaf, node, Frame, frame, join, zip,
}

-- A balance factor is the height of the right side less that of the left side.
abbrev pub Fits : Balance → (l r : ℕ) → Type 0
Fits even l r = l ≡ r
Fits (heavy left) l r = l ≡ suc r
Fits (heavy right) l r = r ≡ suc l

abbrev pub FitsOn : Sign → Balance → (child other : ℕ) → Type 0
FitsOn left b child other = Fits b child other
FitsOn right b child other = Fits b other child

module _ {ℓ κ} {K : Type ℓ} {V : Type κ} where
  abbrev pub height : Tree K V → ℕ
  height leaf = 0
  height (node l k v b r) = suc (max (height l) (height r))

  -- Every balance factor fits.
  abbrev pub IsAvl : Tree K V → Type 0
  IsAvl leaf = Unit {_}
  IsAvl (node l k v b r) = IsAvl l × IsAvl r × Fits b (height l) (height r)

  -- The tree is an AVL tree once one of height `h` hangs below the parents.
  abbrev pub IsAvlPath : List (Frame K V) → ℕ → Type 0
  IsAvlPath [] h = Unit {_}
  IsAvlPath (frame s k v b other ∷ path) h =
      IsAvl other × FitsOn s b h (height other) × IsAvlPath path (suc (max h (height other)))

  pub join-IsAvl :
      (s : Sign) (k : K) (v : V) (b : Balance) (child other : Tree K V)
      → IsAvl child
      → IsAvl other
      → FitsOn s b (height child) (height other)
      → IsAvl (join s k v b child other)
  join-IsAvl left k v b child other c o f = (c, o, f)
  join-IsAvl right k v b child other c o f = (o, c, f)

  pub height-join :
      (s : Sign) (k : K) (v : V) (b : Balance) (child other : Tree K V)
      → height (join s k v b child other) ≡ suc (max (height child) (height other))
  height-join left k v b child other = omega arith
  height-join right k v b child other = omega arith

  pub zip-IsAvl :
      (t : Tree K V) (path : List (Frame K V)) (h : ℕ)
      → IsAvl t
      → height t ≡ h
      → IsAvlPath path h
      → IsAvl (zip t path)
  unfolding zip
  zip-IsAvl t [] h a e u = a
  zip-IsAvl t (frame s k v b other ∷ path) h a e (o, f, up) =
      zip-IsAvl (join s k v b t other) path (suc (max h (height other)))
        (join-IsAvl s k v b t other a o (subst (λ x. FitsOn s b x (height other)) (sym e) f))
        (omega (arith, e, height-join s k v b t other)) up

  pub unzip-IsAvl :
      (t : Tree K V) (path : List (Frame K V))
      → IsAvl (zip t path)
      → IsAvl t × IsAvlPath path (height t)
  unfolding zip
  unzip-IsAvl t [] a = (a, tt)
  unzip-IsAvl t (frame left k v b other ∷ path) a =
      let ((c, o, f), up) = unzip-IsAvl (node t k v b other) path a in (c, (o, f, up))
  unzip-IsAvl t (frame right k v b other ∷ path) a =
      let ((o, c, f), up) = unzip-IsAvl (node other k v b t) path a in
      (c, (o, f, subst (IsAvlPath path) (omega arith) up))
