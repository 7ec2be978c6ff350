-- ===== src/AvlTree/Insert.antt =====
-- Lookup and insertion of src/avl_tree.c against those of the sorted list of the tree's items.
use Prim.Native.Nat.{Ordering}
use Prim.Native.Nat.Ordering.{lt, eq, gt}
use wimlib.Common.{◌≡◌, refl, ap, sym, ◌∙◌, List, [], ◌∷◌, ◌++◌, Option, some, arith, subst}
use wimlib.Common.Bytes.{All}
use wimlib.Common.Order.{IsTotalOrder, turn_lt, turn_gt}
use wimlib.AvlTree.{
  left, right, even, Tree, leaf, node, Frame, frame, zip, insert_loop, avl_tree_insert,
  avl_tree_lookup_node,
}
use wimlib.AvlTree.Entries.{entries, around, entries-zip, entries-avl_tree_rebalance_after_insert}
use wimlib.AvlTree.Heights.{height, IsAvl, IsAvlPath, zip-IsAvl}
use wimlib.AvlTree.Growth.{avl_tree_rebalance_after_insert-IsAvl}
use wimlib.AvlTree.Sorted.{
  IsBelow, IsSorted, find, insert, insert-IsSorted, find_below, IsBelow-trans,
}
use wimlib.AvlTree.Parts.{parted, insert_left, insert_right, insert_at, find_left, find_right}

module _ {ℓ κ} {K : Type ℓ} {V : Type κ} (cmp : K → K → Ordering) (o : IsTotalOrder cmp) where
  -- Items below an item are below what it is below.
  above-All :
      (q k : K) (xs : List (K × V))
      → cmp k q ≡ lt
      → All (λ x. cmp x.0 k ≡ lt) xs
      → All (λ x. cmp q x.0 ≡ gt) xs
  above-All q k [] h a = tt
  above-All q k ((p, v) ∷ xs) h (a, b) =
      (turn_lt cmp o p q (o.chain p k q a h), above-All q k xs h b)

  above_eq :
      (q k : K) (xs : List (K × V))
      → cmp q k ≡ eq
      → All (λ x. cmp x.0 k ≡ lt) xs
      → All (λ x. cmp q x.0 ≡ gt) xs
  above_eq q k [] h a = tt
  above_eq q k ((p, v) ∷ xs) h (a, b) =
      (turn_lt cmp o p q (subst (λ x. cmp p x ≡ lt) (sym (o.same q k h)) a), above_eq q k xs h b)

  pub lookup-find :
      (t : Tree K V) (q : K)
      → IsSorted cmp (entries t)
      → avl_tree_lookup_node cmp t q ≡ find cmp (entries t) q
  unfolding avl_tree_lookup_node
  lookup-find leaf q s = refl
  lookup-find (node l k v b r) q s =
      let (sl, sr, al, br) = parted cmp (entries l) k v (entries r) s in
      let on_left = lookup-find l q sl in
      let on_right = lookup-find r q sr in by_order (cmp q k) refl on_left on_right al br
    where
      by_order :
          (c : Ordering)
          → cmp q k ≡ c
          → avl_tree_lookup_node cmp l q ≡ find cmp (entries l) q
          → avl_tree_lookup_node cmp r q ≡ find cmp (entries r) q
          → All (λ x. cmp x.0 k ≡ lt) (entries l)
          → All (IsBelow cmp k) (entries r)
          → elim c [
            | lt ↦ avl_tree_lookup_node cmp l q
            | eq ↦ some v
            | gt ↦ avl_tree_lookup_node cmp r q
          ]
            ≡ find cmp (entries l ++ ((k, v) ∷ entries r)) q
      by_order lt h on_left on_right al br =
          on_left
          ∙ sym (
              find_left cmp (entries l) k v (entries r) q
                (find_below cmp o (entries r) q (IsBelow-trans cmp o q k (entries r) h br)) h)
      by_order eq h on_left on_right al br = sym (
          find_right cmp (entries l) ((k, v) ∷ entries r) q (above_eq q k (entries l) h al)
          ∙ rw (h, find) refl)
      by_order gt h on_left on_right al br =
          on_right
          ∙ sym (
              find_right cmp (entries l) ((k, v) ∷ entries r) q
                (above-All q k (entries l) (turn_gt cmp o q k h) al)
              ∙ rw (h, find) refl)

  -- What the loop gives below a path: the list's insertion and the item found.
  abbrev IsDone : K → V → List (K × V) → List (Frame K V) → Tree K V × Option V → Type (ℓ ⊔ κ)
  IsDone q w xs path (t, old) =
      (entries t ≡ around path (insert cmp xs q w)) × (old ≡ find cmp xs q) × IsAvl t

  done :
      (q : K) (w : V) (t : Tree K V) (path : List (Frame K V))
      → IsSorted cmp (entries t)
      → IsAvl t
      → IsAvlPath path (height t)
      → IsDone q w (entries t) path (insert_loop cmp q w t path)
  unfolding insert_loop
  done q w leaf path s a up = (
    entries-avl_tree_rebalance_after_insert (node leaf q w even leaf) path,
    refl,
    avl_tree_rebalance_after_insert-IsAvl q w path up,
  )
  done q w (node l k v b r) path s (il, ir, f) up =
      let (sl, sr, all, brr) = parted cmp (entries l) k v (entries r) s in
      by_order (cmp q k) refl (done q w l (frame left k v b r ∷ path) sl il (ir, f, up))
        (done q w r (frame right k v b l ∷ path) sr ir
          (il, f, subst (IsAvlPath path) (omega arith) up))
        all brr
    where
      by_order :
          (c : Ordering)
          → cmp q k ≡ c
          → IsDone q w
              (entries l)
              (frame left k v b r ∷ path)
              (insert_loop cmp q w l (frame left k v b r ∷ path))
          → IsDone q w
              (entries r)
              (frame right k v b l ∷ path)
              (insert_loop cmp q w r (frame right k v b l ∷ path))
          → All (λ x. cmp x.0 k ≡ lt) (entries l)
          → All (IsBelow cmp k) (entries r)
          → IsDone q w (entries l ++ ((k, v) ∷ entries r)) path (elim c [
            | lt ↦ insert_loop cmp q w l (frame left k v b r ∷ path)
            | eq ↦ (zip (node l k v b r) path, some v)
            | gt ↦ insert_loop cmp q w r (frame right k v b l ∷ path)
          ])
      by_order lt h (e, n, t) on_right al br = (
        e ∙ ap (around path) (sym (insert_left cmp (entries l) k v (entries r) q w h)),
        n
            ∙ sym (
                find_left cmp (entries l) k v (entries r) q
                  (find_below cmp o (entries r) q (IsBelow-trans cmp o q k (entries r) h br)) h),
        t,
      )
      by_order eq h on_left on_right al br = (
        entries-zip (node l k v b r) path
            ∙ ap (around path) (
                sym (
                  insert_at cmp (entries l) k v (entries r) q w (above_eq q k (entries l) h al) h)),
        sym (
            find_right cmp (entries l) ((k, v) ∷ entries r) q (above_eq q k (entries l) h al)
            ∙ rw (h, find) refl),
        zip-IsAvl (node l k v b r) path (height (node l k v b r)) (il, ir, f) refl up,
      )
      by_order gt h on_left (e, n, t) al br = (
        e
            ∙ ap (around path) (
                sym (
                  insert_right cmp (entries l) k v (entries r) q w
                    (above-All q k (entries l) (turn_gt cmp o q k h) al) h)),
        n
            ∙ sym (
                find_right cmp (entries l) ((k, v) ∷ entries r) q
                  (above-All q k (entries l) (turn_gt cmp o q k h) al)
                ∙ rw (h, find) refl),
        t,
      )

  -- What an insertion leaves: an AVL tree with the items of the sorted list after its insertion, and the
  -- item that was there under the key.
  pub record IsInserted (root : Tree K V) (q : K) (w : V) (result : Tree K V × Option V)
      : Type (ℓ ⊔ κ) where
    pub balanced : IsAvl result.0
    pub sorted : IsSorted cmp (entries result.0)
    pub items : entries result.0 ≡ insert cmp (entries root) q w
    pub old : result.1 ≡ find cmp (entries root) q

  -- `avl_tree_insert` into an AVL tree with its items in order, for a comparison that is a total order,
  -- does what insertion into the sorted list of the items does: the item goes to its place, the others stay, and where one
  -- compares equal nothing changes and that one is returned. The tree stays an AVL tree in order.
  pub avl_tree_insert-IsInserted :
      (root : Tree K V) (q : K) (w : V)
      → IsAvl root
      → IsSorted cmp (entries root)
      → IsInserted root q w (avl_tree_insert cmp root q w)
  unfolding avl_tree_insert
  avl_tree_insert-IsInserted root q w a s =
      let (e, n, t) = done q w root [] s a tt in
      record {
        balanced = t;
        sorted = subst (IsSorted cmp) (sym e) (insert-IsSorted cmp o (entries root) q w s);
        items = e;
        old = n;
      }
