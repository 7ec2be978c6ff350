-- ===== src/Huffman/Depths.antt =====
-- The depths of the nodes of a Huffman tree as src/compress_common.c's `build_tree` leaves it: nodes are
-- ordered like their parents.
use wimlib.Common.{
  ℕ, zero, suc, ◌+◌, ◌*◌, ◌≤◌, ◌<◌, ◌≡◌, refl, ap, List, [], ◌∷◌, ◌==◌, if◌then◌else◌, arith, Bool,
  true, ltb,
}
use wimlib.Common.Bytes.{All}
use wimlib.Huffman.Numbering.{number_of}
use wimlib.Huffman.Kraft.{AreOrdered}

-- The parents of the nodes below the root: above their children, in the order of the children, and with
-- two children at most.
pub record IsTree (root : ℕ) (parent depth : ℕ → ℕ) : Type 0 where
  pub at_root : depth root ≡ 0
  pub at_child : (k : ℕ) → k < root → depth k ≡ depth (parent k) + 1
  pub above : (k : ℕ) → k < root → (k < parent k) × (parent k ≤ root)
  pub ordered : (a b : ℕ) → a ≤ b → b < root → parent a ≤ parent b
  pub two : (k : ℕ) → suc (suc k) < root → parent k < parent (suc (suc k))

abbrev pub depths_below : (depth : ℕ → ℕ) → ℕ → List ℕ
depths_below depth zero = []
depths_below depth (suc k) = depth k ∷ depths_below depth k

module _ (root : ℕ) (parent depth : ℕ → ℕ) (t : IsTree root parent depth) where
  -- No node is deeper than one before it.
  shallower : (fuel a b : ℕ) → root ≤ a + fuel → a ≤ b → b ≤ root → depth b ≤ depth a
  shallower zero a b h k l =
      let same : b ≡ a = omega (arith, h, k, l) in omega (arith, ap depth same)
  shallower (suc fuel) a b h k l =
      let next = shallower fuel (parent a) (parent b) in
      ground
        (arith, next, t.at_root, t.at_child a, t.at_child b, t.above a, t.above b, t.ordered a b)

  pub depths_below-AreOrdered : (n : ℕ) → n ≤ root → AreOrdered (depths_below depth n)
  depths_below-AreOrdered zero h = tt
  depths_below-AreOrdered (suc n) h =
      (deeper n n (omega arith) (omega arith), depths_below-AreOrdered n (omega arith))
    where
      deeper : (n m : ℕ) → m ≤ n → n < root → All (λ e. depth n ≤ e) (depths_below depth m)
      deeper n zero h k = tt
      deeper n (suc m) h k =
          (shallower root m n (omega arith) (omega arith) (omega arith), deeper n m (omega arith) k)

  pub depths_below-positive : (n : ℕ) → n ≤ root → All (λ d. 1 ≤ d) (depths_below depth n)
  depths_below-positive zero h = tt
  depths_below-positive (suc n) h =
      (omega (arith, t.at_child n (omega arith)), depths_below-positive n (omega arith))

  number_grows :
      (l a b : ℕ) → a ≤ b → number_of l (depths_below depth a) ≤ number_of l (depths_below depth b)
  number_grows l a zero h = let none : a ≡ 0 = omega arith in rw none (omega arith)
  number_grows l a (suc b) h = ground (arith, number_grows l a b)

  -- The nodes up to `m` of a depth, against the places below their parents; a parent with one child so far
  -- has a place left.
  abbrev has_place : ℕ → Bool
  has_place zero = true
  has_place (suc m) = ltb (parent m) (parent (suc m))

  places :
      (l m : ℕ)
      → m < root
      → number_of (suc l) (depths_below depth (suc m))
          + (if has_place m then (if depth (parent m) == l then 1 else 0) else 0)
        ≤ 2 * number_of l (depths_below depth (suc (parent m)))
  places l zero h = ground (arith, t.at_child 0 h)
  places l (suc zero) h = ground (
    arith,
    places l zero (omega arith),
    t.at_child 1 h,
    t.ordered 0 1,
    number_grows l (suc (parent 0)) (parent 1),
  )
  places l (suc (suc m)) h = ground (
    arith,
    places l (suc m) (omega arith),
    t.at_child (suc (suc m)) h,
    t.ordered (suc m) (suc (suc m)),
    t.two m,
    number_grows l (suc (parent (suc m))) (parent (suc (suc m))),
  )

  -- Each depth has at most twice as many nodes as the one above it.
  pub depths_below-room :
      (l : ℕ)
      → number_of (suc l) (depths_below depth root)
        ≤ 2 * number_of l (depths_below depth (suc root))
  depths_below-room l = by_root root refl
    where
      by_root :
          (n : ℕ)
          → root ≡ n
          → number_of (suc l) (depths_below depth n)
            ≤ 2 * number_of l (depths_below depth (suc root))
      by_root zero e = omega arith
      by_root (suc m) e =
          let (up, top) = t.above m (omega (arith, e)) in
          omega (
            arith,
            places l m (omega (arith, e)),
            number_grows l (suc (parent m)) (suc root) (omega (arith, top)),
          )
