-- ===== src/AvlTree/Sorted.antt =====
-- A sorted list of items with its own search and insertion: what src/avl_tree.c's tree stands for.
use Prim.Native.Nat.{Ordering}
use Prim.Native.Nat.Ordering.{lt, eq, gt}
use wimlib.Common.{◌≡◌, refl, List, [], ◌∷◌, Option, none, some, arith}
use wimlib.Common.Bytes.{All}
use wimlib.Common.Order.{IsTotalOrder, turn_gt, cmp_self}

module _ {ℓ κ} {K : Type ℓ} {V : Type κ} (cmp : K → K → Ordering) where
  abbrev pub IsBelow : K → K × V → Type 0
  IsBelow q (k, v) = cmp q k ≡ lt

  abbrev pub IsAbove : K → K × V → Type 0
  IsAbove q (k, v) = cmp k q ≡ lt

  abbrev pub IsSorted : List (K × V) → Type 0
  IsSorted [] = Unit {_}
  IsSorted ((k, v) ∷ xs) = All (IsBelow k) xs × IsSorted xs

  abbrev pub find : List (K × V) → K → Option V
  find [] q = none
  find ((k, v) ∷ xs) q = elim (cmp q k) [ eq ↦ some v | _ ↦ find xs q ]

  abbrev pub insert : List (K × V) → K → V → List (K × V)
  insert [] q w = (q, w) ∷ []
  insert ((k, v) ∷ xs) q w = elim (cmp q k) [
    | lt ↦ (q, w) ∷ ((k, v) ∷ xs)
    | eq ↦ (k, v) ∷ xs
    | gt ↦ (k, v) ∷ insert xs q w
  ]

  module _ (o : IsTotalOrder cmp) where
    pub IsBelow-trans :
        (q k : K) (xs : List (K × V)) → cmp q k ≡ lt → All (IsBelow k) xs → All (IsBelow q) xs
    IsBelow-trans q k [] h b = tt
    IsBelow-trans q k ((p, v) ∷ xs) h (b, bs) = (o.chain q k p h b, IsBelow-trans q k xs h bs)

    insert-IsBelow :
        (xs : List (K × V)) (k q : K) (w : V)
        → All (IsBelow k) xs
        → cmp k q ≡ lt
        → All (IsBelow k) (insert xs q w)
    insert-IsBelow [] k q w b h = (h, tt)
    insert-IsBelow ((p, v) ∷ xs) k q w (b, bs) h =
        let rest = insert-IsBelow xs k q w bs h in by_order (cmp q p) rest
      where
        by_order :
            (c : Ordering)
            → All (IsBelow k) (insert xs q w)
            → All (IsBelow k) (elim c [
              | lt ↦ (q, w) ∷ ((p, v) ∷ xs)
              | eq ↦ (p, v) ∷ xs
              | gt ↦ (p, v) ∷ insert xs q w
            ])
        by_order lt rest = (h, (b, bs))
        by_order eq rest = (b, bs)
        by_order gt rest = (b, rest)

    pub insert-IsSorted :
        (xs : List (K × V)) (q : K) (w : V) → IsSorted xs → IsSorted (insert xs q w)
    insert-IsSorted [] q w s = (tt, tt)
    insert-IsSorted ((p, v) ∷ xs) q w (b, s) =
        let rest = insert-IsSorted xs q w s in by_order (cmp q p) refl rest
      where
        by_order :
            (c : Ordering)
            → cmp q p ≡ c
            → IsSorted (insert xs q w)
            → IsSorted (elim c [
              | lt ↦ (q, w) ∷ ((p, v) ∷ xs)
              | eq ↦ (p, v) ∷ xs
              | gt ↦ (p, v) ∷ insert xs q w
            ])
        by_order lt e rest = ((e, IsBelow-trans q p xs e b), (b, s))
        by_order eq e rest = (b, s)
        by_order gt e rest = (insert-IsBelow xs p q w b (turn_gt cmp o q p e), rest)

    pub find_below : (xs : List (K × V)) (q : K) → All (IsBelow q) xs → find xs q ≡ none
    find_below [] q b = refl
    find_below ((p, v) ∷ xs) q (b, bs) = rw (b, find) (find_below xs q bs)

    -- An item that is there stays.
    pub find-insert :
        (xs : List (K × V)) (q x : K) (w : V)
        → IsSorted xs
        → find (insert xs q w) x ≡ elim (cmp x q) [
          | eq ↦ elim (find xs q) [ none ↦ some w | some old ↦ some old ]
          | _ ↦ find xs x
        ]
    find-insert [] q x w s = ground arith
    find-insert ((p, v) ∷ xs) q x w (b, s) = ground (
      arith,
      find-insert xs q x w s,
      find_below xs q,
      IsBelow-trans q p xs,
      o.same x p,
      o.same x q,
      o.same q p,
      cmp_self cmp o p,
    )
