-- ===== src/Common/Bytes.antt =====
-- Bytes, and integers of several bytes stored with the lowest byte first: the le16, le32 and le64 of
-- include/wimlib/endianness.h and the unaligned loads and stores of include/wimlib/unaligned.h.
use Prim.Native.Nat.{ℕ, zero, suc, ◌+◌, ◌*◌, ◌/◌, ◌%◌, ◌^◌, ◌<◌}
use mathlib.Core.Path.{◌≡◌, refl, ap, ap₂, ◌∙◌}
use mathlib.Core.List.{List, [], ◌∷◌, ◌++◌}
use native.Mathlib.Omega.{arith}
use native.Mathlib.Nat.{pow-suc}
use wimlib.Common.Lists.{length, take, drop}

abbrev pub IsByte : ℕ → Type 0
IsByte b = b < 256

abbrev pub All {ℓ κ} : {A : Type ℓ} → (A → Type κ) → List A → Type κ
All P [] = Unit {_}
All P (x ∷ xs) = P x × All P xs

-- The low `k` bytes of `n`, lowest first.
abbrev pub put_le : ℕ → ℕ → List ℕ
put_le zero n = []
put_le (suc k) n = n % 256 ∷ put_le k (n / 256)

-- The number that the bytes stand for.
abbrev pub get_le : List ℕ → ℕ
get_le [] = 0
get_le (b ∷ bs) = b + 256 * get_le bs

pub length-put_le : (k n : ℕ) → length (put_le k n) ≡ k
length-put_le zero n = refl
length-put_le (suc k) n = ap suc (length-put_le k (n / 256))

pub put_le-IsByte : (k n : ℕ) → All IsByte (put_le k n)
put_le-IsByte zero n = tt
put_le-IsByte (suc k) n = (omega arith, put_le-IsByte k (n / 256))

below_pow : (k n : ℕ) → n < 256 ^ suc k → n / 256 < 256 ^ k
below_pow k n h = omega (arith, pow-suc 256 k)

-- What was stored is read back, if it fits the bytes.
pub get_le-put_le : (k n : ℕ) → n < 256 ^ k → get_le (put_le k n) ≡ n
get_le-put_le zero n h = omega arith
get_le-put_le (suc k) n h = omega (arith, get_le-put_le k (n / 256) (below_pow k n h))

-- Bytes read and stored again are the same bytes.
pub put_le-get_le : (bs : List ℕ) → All IsByte bs → put_le (length bs) (get_le bs) ≡ bs
put_le-get_le [] h = refl
put_le-get_le (b ∷ bs) (hb, hbs) =
    ap₂ ◌∷◌ (omega arith) (ap (put_le (length bs)) (omega arith) ∙ put_le-get_le bs hbs)

pub get_le-lt : (bs : List ℕ) → All IsByte bs → get_le bs < 256 ^ length bs
get_le-lt [] h = omega arith
get_le-lt (b ∷ bs) (hb, hbs) = omega (arith, pow-suc 256 (length bs), get_le-lt bs hbs)

module _ {ℓ} {A : Type ℓ} where
  -- Cutting an append where its first list ends.
  pub take-append : (xs ys : List A) → take (length xs) (xs ++ ys) ≡ xs
  take-append [] ys = refl
  take-append (x ∷ xs) ys = ap (◌∷◌ x) (take-append xs ys)

  pub drop-append : (xs ys : List A) → drop (length xs) (xs ++ ys) ≡ ys
  drop-append [] ys = refl
  drop-append (x ∷ xs) ys = drop-append xs ys
