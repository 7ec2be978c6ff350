-- ===== src/Common/Bits.antt =====
-- The C operators `&` and `|` at the masks and the disjoint fields that the sources use, as
-- arithmetic.
use Prim.Native.Nat.{
  ℕ, zero, suc, ◌+◌, ◌-◌, ◌*◌, ◌/◌, ◌%◌, ◌^◌, ◌≤◌, ◌<◌, min, max, digits, bit_and, bit_or,
  bit_and-bitwise, bit_or-bitwise,
}
use mathlib.Core.Path.{◌≡◌, refl, ap, ap₂, ◌∙◌}
use native.Mathlib.Omega.{arith}
use native.Mathlib.Nat.{pow-suc, one-le-pow, mul_comm, div-add-mod, div-div-eq-div-mul}

-- What the native operations stand for does not depend on the fuel, if there is enough of it.
module _ (rest : ℕ → ℕ) (digit : ℕ → ℕ → ℕ) where
  enough_fuel :
      (a more less b : ℕ)
      → a ≤ less
      → less ≤ more
      → digits rest digit more a b ≡ digits rest digit less a b
  enough_fuel zero zero zero b _ _ = refl
  enough_fuel zero zero (suc less) b _ k = absurd (omega arith)
  enough_fuel zero (suc more) zero b _ _ = refl
  enough_fuel zero (suc more) (suc less) b _ _ = refl
  enough_fuel (suc a) more zero b k _ = absurd (omega arith)
  enough_fuel (suc a) zero (suc less) b _ k = absurd (omega arith)
  enough_fuel (suc a) (suc more) (suc less) b k l =
      let halves = enough_fuel (suc a / 2) more less (b / 2) (omega arith) (omega arith) in
      omega (arith, halves)

-- The lowest digit and the rest.
and_lowest : (a b : ℕ) → bit_and a b ≡ min (a % 2) (b % 2) + 2 * bit_and (a / 2) (b / 2)
and_lowest zero b =
    let nothing : (c : ℕ) → bit_and 0 c ≡ 0 = λ c. bit_and-bitwise 0 c in
    omega (arith, nothing b, nothing (b / 2))
and_lowest (suc a) b =
    let fewer =
      enough_fuel (λ c. zero) min (suc a / 2) a (suc a / 2) (b / 2) (omega arith) (omega arith) in
    omega (arith, fewer, bit_and-bitwise (suc a / 2) (b / 2), bit_and-bitwise (suc a) b)

or_lowest : (a b : ℕ) → bit_or a b ≡ max (a % 2) (b % 2) + 2 * bit_or (a / 2) (b / 2)
or_lowest zero b =
    let same : (c : ℕ) → bit_or 0 c ≡ c = λ c. bit_or-bitwise 0 c in
    omega (arith, same b, same (b / 2))
or_lowest (suc a) b =
    let fewer =
      enough_fuel (λ c. c) max (suc a / 2) a (suc a / 2) (b / 2) (omega arith) (omega arith) in
    omega (arith, fewer, bit_or-bitwise (suc a / 2) (b / 2), bit_or-bitwise (suc a) b)

meets_zero : (size a : ℕ) → a ≤ size → (bit_and a 0 ≡ 0) × (bit_or a 0 ≡ a)
meets_zero zero a k = let none : a ≡ 0 = omega arith in rw none (refl, refl)
meets_zero (suc size) a k =
    let (p, q) = meets_zero size (a / 2) (omega arith) in
    (omega (arith, p, and_lowest a 0), omega (arith, q, or_lowest a 0))

twice_power : (q k : ℕ) → q * 2 ^ suc k ≡ 2 * (q * 2 ^ k)
twice_power q k = omega (arith, ap (λ (t : ℕ). q * t) (pow-suc 2 k))

-- An `|` of fields that share no bit adds them.
pub bit_or_disjoint : (k q r : ℕ) → r < 2 ^ k → bit_or (q * 2 ^ k) r ≡ q * 2 ^ k + r
bit_or_disjoint zero q r h =
    let e : r ≡ 0 = omega arith in
    rw e ((meets_zero (q * 2 ^ 0) (q * 2 ^ 0) (omega arith)).1 ∙ omega arith)
bit_or_disjoint (suc k) q r h = omega (
  arith,
  or_lowest (q * 2 ^ suc k) r,
  twice_power q k,
  half_fields,
  bit_or_disjoint k q (r / 2) (omega (arith, pow-suc 2 k)),
)
  where
    half_fields : bit_or (q * 2 ^ suc k / 2) (r / 2) ≡ bit_or (q * 2 ^ k) (r / 2)
    half_fields = ap (λ t. bit_or t (r / 2)) (omega (arith, twice_power q k))

-- The low ones of a mask meet the low digits of a number, and nothing of the rest.
mask_digits : (k q r : ℕ) → r < 2 ^ k → bit_and (q * 2 ^ k + r) (2 ^ k - 1) ≡ r
mask_digits zero q r h = (meets_zero (q * 2 ^ 0 + r) (q * 2 ^ 0 + r) (omega arith)).0 ∙ omega arith
mask_digits (suc k) q r h = omega (
  arith,
  and_lowest (q * 2 ^ suc k + r) (2 ^ suc k - 1),
  twice_power q k,
  pow-suc 2 k,
  one-le-pow k 2,
  halves,
  mask_digits k q (r / 2) (omega (arith, pow-suc 2 k)),
)
  where
    halves :
        bit_and ((q * 2 ^ suc k + r) / 2) ((2 ^ suc k - 1) / 2)
        ≡ bit_and (q * 2 ^ k + r / 2) (2 ^ k - 1)
    halves = ap₂ bit_and (omega (arith, twice_power q k)) (omega (arith, pow-suc 2 k))

-- An `&` with `k` low ones is the remainder by 2 ^ k.
pub bit_and_mask : (k a : ℕ) → bit_and a (2 ^ k - 1) ≡ a % 2 ^ k
bit_and_mask k a =
    rw (a_parts) at (mask_digits k (a / 2 ^ k) (a % 2 ^ k) (omega (arith, one-le-pow k 2)))
  where
    a_parts : a / 2 ^ k * 2 ^ k + a % 2 ^ k ≡ a
    a_parts = omega (arith, div-add-mod a (2 ^ k), mul_comm (2 ^ k) (a / 2 ^ k))

-- An `&` with a mask whose `k` low bits are zeros has none of the low digits.
pub bit_and_multiple : (k m a : ℕ) → bit_and a (m * 2 ^ k) ≡ bit_and (a / 2 ^ k) m * 2 ^ k
bit_and_multiple zero m a =
    let e : m * 2 ^ 0 ≡ m = omega arith in
    let f : a / 2 ^ 0 ≡ a = omega arith in rw (e, f) (omega arith)
bit_and_multiple (suc k) m a =
    let low = m * 2 ^ k in
    let half : 2 * low / 2 ≡ low = omega arith in
    let quotient : a / 2 / 2 ^ k ≡ a / 2 ^ suc k =
      div-div-eq-div-mul a 2 (2 ^ k) ∙ ap (λ (d : ℕ). a / d) (omega (arith, pow-suc 2 k)) in
    let first : bit_and a (2 * low) ≡ 2 * bit_and (a / 2) low =
      omega (arith, and_lowest a (2 * low), ap (bit_and (a / 2)) half) in
    let digits_of : bit_and (a / 2) low ≡ bit_and (a / 2 ^ suc k) m * 2 ^ k =
      bit_and_multiple k m (a / 2) ∙ ap (λ (d : ℕ). bit_and d m * 2 ^ k) quotient in
    ap (bit_and a) (twice_power m k)
    ∙ omega (arith, first, digits_of, twice_power (bit_and (a / 2 ^ suc k) m) k)
