-- ===== src/Sha1/Digests.antt =====
-- The comparison of digests of include/wimlib/sha1.h is a total order, and equality is its `eq`.
use Prim.Native.Nat.Ordering.{lt, eq}
use wimlib.Common.{ℕ, ◌≡◌, refl, List, [], ◌∷◌, true, false, arith}
use wimlib.Common.Order.{turn, IsTotalOrder}
use wimlib.Sha1.{hashes_equal, hashes_cmp}

pub hashes_equal-hashes_cmp :
    (x y : List ℕ) → hashes_equal x y ≡ elim (hashes_cmp x y) [ eq ↦ true | _ ↦ false ]
unfolding hashes_equal
hashes_equal-hashes_cmp [] [] = refl
hashes_equal-hashes_cmp [] (b ∷ y) = refl
hashes_equal-hashes_cmp (a ∷ x) [] = refl
hashes_equal-hashes_cmp (a ∷ x) (b ∷ y) = ground (arith, hashes_equal-hashes_cmp x y)

hashes_cmp_turned : (x y : List ℕ) → hashes_cmp y x ≡ turn (hashes_cmp x y)
hashes_cmp_turned [] [] = refl
hashes_cmp_turned [] (b ∷ y) = refl
hashes_cmp_turned (a ∷ x) [] = refl
hashes_cmp_turned (a ∷ x) (b ∷ y) = ground (arith, hashes_cmp_turned x y)

hashes_cmp_same : (x y : List ℕ) → hashes_cmp x y ≡ eq → x ≡ y
hashes_cmp_same [] [] e = refl
hashes_cmp_same [] (b ∷ y) e = cc
hashes_cmp_same (a ∷ x) [] e = cc
hashes_cmp_same (a ∷ x) (b ∷ y) e = ground (arith, hashes_cmp_same x y)

hashes_cmp_chain :
    (x y z : List ℕ) → hashes_cmp x y ≡ lt → hashes_cmp y z ≡ lt → hashes_cmp x z ≡ lt
hashes_cmp_chain [] [] [] e f = cc
hashes_cmp_chain [] (b ∷ y) [] e f = cc
hashes_cmp_chain [] y (c ∷ z) e f = refl
hashes_cmp_chain (a ∷ x) [] z e f = cc
hashes_cmp_chain (a ∷ x) (b ∷ y) [] e f = cc
hashes_cmp_chain (a ∷ x) (b ∷ y) (c ∷ z) e f = ground (arith, hashes_cmp_chain x y z)

pub hashes_cmp-IsTotalOrder : IsTotalOrder hashes_cmp
hashes_cmp-IsTotalOrder = record {
  turned = hashes_cmp_turned;
  chain = hashes_cmp_chain;
  same = hashes_cmp_same;
}
