-- ===== src/AvlTree/Parts.antt =====
-- Search and insertion in a sorted list on one side of an item, as src/avl_tree.c's tree descends.
use Prim.Native.Nat.{Ordering}
use Prim.Native.Nat.Ordering.{lt, eq, gt}
use wimlib.Common.{◌≡◌, refl, ap, List, [], ◌∷◌, ◌++◌, none, arith}
use wimlib.Common.Bytes.{All}
use wimlib.AvlTree.Sorted.{IsBelow, IsSorted, find, insert}

module _ {ℓ κ} {K : Type ℓ} {V : Type κ} (cmp : K → K → Ordering) where
  All-append : (P : K × V → Type 0) (xs ys : List (K × V)) → All P (xs ++ ys) → All P xs × All P ys
  All-append P [] ys a = (tt, a)
  All-append P (x ∷ xs) ys (p, a) = let (ax, ay) = All-append P xs ys a in ((p, ax), ay)

  -- The parts of a sorted list around an item.
  abbrev pub IsParted : List (K × V) → K → List (K × V) → Type 0
  IsParted xs k ys =
      IsSorted cmp xs × IsSorted cmp ys × All (λ x. cmp x.0 k ≡ lt) xs × All (IsBelow cmp k) ys

  pub parted :
      (xs : List (K × V)) (k : K) (v : V) (ys : List (K × V))
      → IsSorted cmp (xs ++ ((k, v) ∷ ys))
      → IsParted xs k ys
  parted [] k v ys (b, s) = (tt, s, tt, b)
  parted ((p, w) ∷ xs) k v ys (b, s) =
      let (sx, sy, ax, by) = parted xs k v ys s in
      let (bx, (bk, rest)) = All-append (IsBelow cmp p) xs ((k, v) ∷ ys) b in
      ((bx, sx), sy, (bk, ax), by)

  -- Left of an item that a key is below.
  pub insert_left :
      (xs : List (K × V)) (k : K) (v : V) (ys : List (K × V)) (q : K) (w : V)
      → cmp q k ≡ lt
      → insert cmp (xs ++ ((k, v) ∷ ys)) q w ≡ insert cmp xs q w ++ ((k, v) ∷ ys)
  insert_left [] k v ys q w h = rw (h, insert) refl
  insert_left ((p, u) ∷ xs) k v ys q w h = ground (arith, insert_left xs k v ys q w h)

  pub find_left :
      (xs : List (K × V)) (k : K) (v : V) (ys : List (K × V)) (q : K)
      → find cmp ys q ≡ none
      → cmp q k ≡ lt
      → find cmp (xs ++ ((k, v) ∷ ys)) q ≡ find cmp xs q
  find_left [] k v ys q e h = rw (h, find) e
  find_left ((p, u) ∷ xs) k v ys q e h = ground (arith, find_left xs k v ys q e h)

  -- Right of items that a key is above.
  pub insert_right :
      (xs : List (K × V)) (k : K) (v : V) (ys : List (K × V)) (q : K) (w : V)
      → All (λ x. cmp q x.0 ≡ gt) xs
      → cmp q k ≡ gt
      → insert cmp (xs ++ ((k, v) ∷ ys)) q w ≡ xs ++ ((k, v) ∷ insert cmp ys q w)
  insert_right [] k v ys q w a h = rw (h, insert) refl
  insert_right ((p, u) ∷ xs) k v ys q w (a, b) h =
      rw (a, insert) (ap (◌∷◌ (p, u)) (insert_right xs k v ys q w b h))

  pub insert_at :
      (xs : List (K × V)) (k : K) (v : V) (ys : List (K × V)) (q : K) (w : V)
      → All (λ x. cmp q x.0 ≡ gt) xs
      → cmp q k ≡ eq
      → insert cmp (xs ++ ((k, v) ∷ ys)) q w ≡ xs ++ ((k, v) ∷ ys)
  insert_at [] k v ys q w a h = rw (h, insert) refl
  insert_at ((p, u) ∷ xs) k v ys q w (a, b) h =
      rw (a, insert) (ap (◌∷◌ (p, u)) (insert_at xs k v ys q w b h))

  pub find_right :
      (xs : List (K × V)) (ys : List (K × V)) (q : K)
      → All (λ x. cmp q x.0 ≡ gt) xs
      → find cmp (xs ++ ys) q ≡ find cmp ys q
  find_right [] ys q a = refl
  find_right ((p, u) ∷ xs) ys q (a, b) = rw (a, find) (find_right xs ys q b)
