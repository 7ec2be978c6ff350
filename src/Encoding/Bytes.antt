-- ===== src/Encoding/Bytes.antt =====
-- The masks and shifts of src/encoding.c as arithmetic.
use Prim.Native.Nat.{bit_and, bit_or}
use wimlib.Common.{
  ℕ, zero, suc, ◌+◌, ◌*◌, ◌/◌, ◌%◌, ◌^◌, ◌<◌, ◌≡◌, refl, ap, ◌∙◌, Bool, true, ◌&&◌, List, ◌==◌,
  ==_iff, arith,
}
use wimlib.Common.Bits.{bit_or_disjoint, bit_and_mask}
use wimlib.Encoding.{at, join2, join3, join4}

every : (ℕ → Bool) → ℕ → Bool
every test zero = true
every test (suc bound) = every test bound && test bound

every_at : (test : ℕ → Bool) (bound at : ℕ) → at < bound → every test bound ≡ true → test at ≡ true
unfolding every
every_at test (suc bound) at below e = ground (arith, every_at test bound at)
every_at test zero at below e = absurd (omega arith)

top_table : every (λ b. bit_and b 0xC0 == b / 64 * 64) 256 ≡ true
unfolding every
top_table = refl

-- The two top bits of a byte.
pub top_two : (b : ℕ) → b < 256 → bit_and b 0xC0 ≡ b / 64 * 64
top_two b h = (==_iff _ _).0 (every_at _ 256 b h top_table)

pub low_six : (b : ℕ) → bit_and b 0x3F ≡ b % 64
low_six = bit_and_mask 6

-- A continuation byte.
pub tail_byte : (x : ℕ) → bit_or 0x80 (bit_and x 0x3F) ≡ 128 + x % 64
tail_byte x = rw (low_six x) (bit_or_disjoint 6 2 (x % 64) (omega arith))

pub lead2 : (x : ℕ) → x < 32 → bit_or 0xC0 x ≡ 192 + x
lead2 x h = bit_or_disjoint 5 6 x h

pub lead3 : (x : ℕ) → x < 16 → bit_or 0xE0 x ≡ 224 + x
lead3 x h = bit_or_disjoint 4 14 x h

pub lead4 : (x : ℕ) → x < 8 → bit_or 0xF0 x ≡ 240 + x
lead4 x h = bit_or_disjoint 3 30 x h

-- The fields of a sequence are disjoint, so that they add up.
pub join2-sum : (s : List ℕ) → join2 s ≡ at s 0 % 32 * 64 + at s 1 % 64
join2-sum s = rw (bit_and_mask 5 (at s 0), low_six (at s 1)) (bit_or_disjoint 6 _ _ (omega arith))

two_fields : (a b : ℕ) → b < 64 → bit_or (a * 2 ^ 6) b ≡ a * 64 + b
two_fields a b h = bit_or_disjoint 6 a b h

three_fields :
    (a b c : ℕ)
    → b < 64
    → c < 64
    → bit_or (bit_or (a * 2 ^ 12) (b * 2 ^ 6)) c ≡ (a * 64 + b) * 64 + c
three_fields a b c hb hc =
    ap (λ t. bit_or t c) (bit_or_disjoint 12 a (b * 64) (omega arith) ∙ omega arith)
    ∙ two_fields (a * 64 + b) c hc

four_fields :
    (a b c d : ℕ)
    → b < 64
    → c < 64
    → d < 64
    → bit_or (bit_or (bit_or (a * 2 ^ 18) (b * 2 ^ 12)) (c * 2 ^ 6)) d
      ≡ ((a * 64 + b) * 64 + c) * 64 + d
four_fields a b c d hb hc hd =
    ap (λ t. bit_or (bit_or t (c * 2 ^ 6)) d)
      (bit_or_disjoint 18 a (b * 4096) (omega arith) ∙ omega arith)
    ∙ three_fields (a * 64 + b) c d hc hd

pub join3-sum : (s : List ℕ) → join3 s ≡ (at s 0 % 16 * 64 + at s 1 % 64) * 64 + at s 2 % 64
join3-sum s =
    rw (bit_and_mask 4 (at s 0), low_six (at s 1), low_six (at s 2))
      (three_fields _ _ _ (omega arith) (omega arith))

pub join4-sum :
    (s : List ℕ) → join4 s ≡ ((at s 0 % 8 * 64 + at s 1 % 64) * 64 + at s 2 % 64) * 64 + at s 3 % 64
join4-sum s =
    rw (bit_and_mask 3 (at s 0), low_six (at s 1), low_six (at s 2), low_six (at s 3))
      (four_fields _ _ _ _ (omega arith) (omega arith) (omega arith))
