-- ===== src/Sha1.antt =====
-- include/wimlib/sha1.h: message digests, and the interface that the hash gives to the code that
-- streams data through it; src/sha1.c is in the modules below.
pub mod Digests
pub mod Blocks
pub mod Stream
pub mod Padding
pub mod Updates
pub mod Laws
mod Tests
use Prim.Native.Nat.{compare, Ordering}
use Prim.Native.Nat.Ordering.{lt, eq, gt}
use wimlib.Common.{
  ℕ, Bool, true, false, List, [], ◌∷◌, ◌++◌, ◌==◌, if◌then◌else◌, if-cases, ==_iff, ◌≡◌, refl, ap₂,
  inl, inr, arith,
}

-- A context takes bytes in pieces, and the digest is that of all of them in a row.
pub record Sha1 : Type 1 where
  pub Ctx : Type 0
  pub IsCtx : Ctx → Type 0
  pub init : Ctx
  pub update : Ctx → List ℕ → Ctx
  pub final : Ctx → List ℕ
  pub init-IsCtx : IsCtx init
  pub update-IsCtx : (c : Ctx) (a : List ℕ) → IsCtx c → IsCtx (update c a)
  pub final-update :
      (c : Ctx) (a b : List ℕ) → IsCtx c → final (update (update c a) b) ≡ final (update c (a ++ b))

abbrev pub sha1_hash_size : ℕ
sha1_hash_size = 20

unfoldable pub hashes_equal : List ℕ → List ℕ → Bool
hashes_equal [] [] = true
hashes_equal (x ∷ xs) [] = false
hashes_equal [] (y ∷ ys) = false
hashes_equal (x ∷ xs) (y ∷ ys) = let rest = hashes_equal xs ys in if x == y then rest else false

pub hashes_equal→eq : (x y : List ℕ) → hashes_equal x y ≡ true → x ≡ y
unfolding hashes_equal
hashes_equal→eq [] [] e = refl
hashes_equal→eq (a ∷ x) [] e = cc
hashes_equal→eq [] (b ∷ y) e = cc
hashes_equal→eq (a ∷ x) (b ∷ y) e = elim (if-cases (a == b) e) [
  | inl (h, e') ↦ ap₂ (◌∷◌) ((==_iff a b).0 h) (hashes_equal→eq x y e')
  | inr (h, e') ↦ cc
]

pub hashes_equal_self : (x : List ℕ) → hashes_equal x x ≡ true
unfolding hashes_equal
hashes_equal_self [] = refl
hashes_equal_self (a ∷ x) = let rest = hashes_equal_self x in ground arith

-- memcmp of digests: the first bytes that differ decide.
abbrev pub hashes_cmp : List ℕ → List ℕ → Ordering
hashes_cmp [] [] = eq
hashes_cmp [] (y ∷ ys) = lt
hashes_cmp (x ∷ xs) [] = gt
hashes_cmp (x ∷ xs) (y ∷ ys) =
    let rest = hashes_cmp xs ys in elim (compare x y) [ lt ↦ lt | eq ↦ rest | gt ↦ gt ]
