-- ===== src/Common/Order.antt =====
-- Comparison functions like memcmp: what a search tree relies on.
use Prim.Native.Nat.{Ordering}
use Prim.Native.Nat.Ordering.{lt, eq, gt}
use mathlib.Core.Path.{◌≡◌, refl, ap, ◌∙◌}

-- The result for the two arguments in the other order.
abbrev pub turn : Ordering → Ordering
turn lt = gt
turn eq = eq
turn gt = lt

pub record IsTotalOrder {ℓ} {K : Type ℓ} (cmp : K → K → Ordering) : Type ℓ where
  pub turned : (x y : K) → cmp y x ≡ turn (cmp x y)
  pub chain : (x y z : K) → cmp x y ≡ lt → cmp y z ≡ lt → cmp x z ≡ lt
  pub same : (x y : K) → cmp x y ≡ eq → x ≡ y

only_eq : (c : Ordering) → c ≡ turn c → c ≡ eq
only_eq lt e = cc
only_eq eq e = refl
only_eq gt e = cc

module _ {ℓ} {K : Type ℓ} (cmp : K → K → Ordering) (o : IsTotalOrder cmp) where
  pub turn_lt : (x y : K) → cmp x y ≡ lt → cmp y x ≡ gt
  turn_lt x y e = o.turned x y ∙ ap turn e

  pub turn_gt : (x y : K) → cmp x y ≡ gt → cmp y x ≡ lt
  turn_gt x y e = o.turned x y ∙ ap turn e

  pub cmp_self : (x : K) → cmp x x ≡ eq
  cmp_self x = only_eq (cmp x x) (o.turned x x)
