-- ===== src/AvlTree/Depth.antt =====
-- How deep src/avl_tree.c's tree gets by insertions and removals: the loops of lookup and insertion go
-- down it once.
use Prim.Native.Nat.{Ordering}
use wimlib.Common.{
  ℕ, suc, List, [], ◌++◌, subst, sym, ◌+◌, ◌-◌, ◌*◌, ◌/◌, ◌^◌, ◌≤◌, ◌≡◌, length, length-append, ◌∷◌,
  arith, ap, ◌∙◌,
}
use native.Mathlib.Nat.{pow-suc, pow-le-pow_right}
use wimlib.Common.Bytes.{All}
use wimlib.Common.Order.{IsTotalOrder}
use wimlib.AvlTree.{Balance, Tree, Frame, leaf, node, zip, avl_tree_insert, avl_tree_remove}
use wimlib.AvlTree.Entries.{entries}
use wimlib.AvlTree.Heights.{height, IsAvl}
use wimlib.AvlTree.Sorted.{IsSorted, IsBelow}
use wimlib.AvlTree.Insert.{avl_tree_insert-IsInserted}
use wimlib.AvlTree.Remove.{avl_tree_remove-IsRemoved}

half_step : (h : ℕ) → 2 ≤ h → 2 ^ (h / 2) ≡ 2 * 2 ^ ((h - 2) / 2)
half_step h k =
    let quotient : h / 2 ≡ suc ((h - 2) / 2) = omega arith in
    ap (λ (x : ℕ). 2 ^ x) quotient ∙ omega (arith, pow-suc 2 ((h - 2) / 2))

-- Two children that are at most two levels below their parent.
node_bound :
    (hl hr h n m : ℕ)
    → h ≤ hl + 2
    → h ≤ hr + 2
    → 2 ^ (hl / 2) ≤ n + 1
    → 2 ^ (hr / 2) ≤ m + 1
    → 2 ≤ h
    → 2 ^ (h / 2) ≤ n + suc m + 1
node_bound hl hr h n m kl kr bl br k =
    let up : (i : ℕ) → (h - 2) / 2 ≤ i → 2 ^ ((h - 2) / 2) ≤ 2 ^ i =
      λ i. pow-le-pow_right (omega arith) in
    omega (arith, half_step h k, up (hl / 2) (omega arith), up (hr / 2) (omega arith))

height-IsLog {ℓ κ} :
    {K : Type ℓ} {V : Type κ} (t : Tree K V) → IsAvl t → 2 ^ (height t / 2) ≤ length (entries t) + 1
height-IsLog leaf a = omega arith
height-IsLog (node l k v b r) (al, ar, f) = ground (
  arith,
  length-append (entries l) ((k, v) ∷ entries r),
  height-IsLog l al,
  height-IsLog r ar,
  node_bound (height l) (height r) (height (node l k v b r)) (length (entries l))
      (length (entries r)),
)

module _ {ℓ κ} {K : Type ℓ} {V : Type κ} (cmp : K → K → Ordering) where
  -- A tree that insertions and removals make from the empty one: of a removal, the tree before it is
  -- the node with what lies around it.
  pub data Built : Tree K V → Type (ℓ ⊔ κ) where
    untouched : Built leaf
    inserted : (t : Tree K V) → Built t → (q : K) (w : V) → Built (avl_tree_insert cmp t q w).0
    removed :
        (l : Tree K V) (k : K) (v : V) (b : Balance) (r : Tree K V) (path : List (Frame K V))
        → Built (zip (node l k v b r) path)
        → Built (avl_tree_remove l b r path)

  All-without :
      (k : K) (xs : List (K × V)) (x : K × V) (ys : List (K × V))
      → All (IsBelow cmp k) (xs ++ (x ∷ ys))
      → All (IsBelow cmp k) (xs ++ ys)
  All-without k [] x ys (a, all) = all
  All-without k (z ∷ xs) x ys (a, all) = (a, All-without k xs x ys all)

  IsSorted-without :
      (xs : List (K × V)) (x : K × V) (ys : List (K × V))
      → IsSorted cmp (xs ++ (x ∷ ys))
      → IsSorted cmp (xs ++ ys)
  IsSorted-without [] (k, v) ys (below, s) = s
  IsSorted-without ((k, v) ∷ xs) x ys (below, s) =
      (All-without k xs x ys below, IsSorted-without xs x ys s)

  Built-IsAvl : (o : IsTotalOrder cmp) {t : Tree K V} → Built t → IsAvl t × IsSorted cmp (entries t)
  Built-IsAvl o untouched = (tt, tt)
  Built-IsAvl o (inserted t built q w) =
      let (a, s) = Built-IsAvl o built in
      let done = avl_tree_insert-IsInserted cmp o t q w a s in (done.balanced, done.sorted)
  Built-IsAvl o (removed l k v b r path built) =
      let (a, s) = Built-IsAvl o built in
      let done = avl_tree_remove-IsRemoved l k v b r path a in
      (
        done.balanced,
        subst (IsSorted cmp) (sym done.removed)
            (IsSorted-without done.xs (k, v) done.ys (subst (IsSorted cmp) done.split s)),
      )

  -- For a comparison that is a total order, a tree that any insertions and removals, of any of its nodes,
  -- have made from the empty one has a height `h` with 2 ^ (h / 2) ≤ n + 1 for its number `n` of
  -- items, that is, a height of at most about twice the logarithm of n.
  pub Built-height :
      IsTotalOrder cmp → {t : Tree K V} → Built t → 2 ^ (height t / 2) ≤ length (entries t) + 1
  Built-height o {t} built = height-IsLog t (Built-IsAvl o built).0
