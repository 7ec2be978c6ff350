-- ===== src/Lzx/Slots.antt =====
-- The offset slots and the window sizes of src/lzx_common.c.
use wimlib.Common.{
  ℕ, zero, suc, ◌+◌, ◌-◌, ◌*◌, ◌/◌, ◌^◌, ◌≤◌, ◌<◌, ◌≡◌, ◌⊎◌, inl, inr, refl, Bool, true, false,
  ◌&&◌, ◌||◌, subst, get_or, ltb, leb, ◌==◌, if◌then◌else◌, Bool-cases, ==_iff, arith, max,
}
use wimlib.Common.Int.{ℤ, pos, pos_part, neg_part}
use native.Mathlib.Nat.{pow-suc, pow-le-pow_right}
use native.Mathlib.Decide.{dec_lt}
use wimlib.Lzx.{
  lzx_offset_slot_base, lzx_extra_offset_bits, lzx_max_offset_slots, bsrw, ilog2_ceil, slot_reached,
  count_slots, lzx_get_window_order, lzx_get_num_main_syms, lzx_max_window_size,
}

abbrev base : ℕ → ℤ
base n = get_or lzx_offset_slot_base n (pos 0)

-- The first offset of slot `n`, as a difference of numbers.
abbrev pub base_value : ℕ → ℕ
base_value n = pos_part (base n) + 2 - neg_part (base n)

all_slots : (ℕ → Bool) → ℕ → Bool
all_slots p zero = true
all_slots p (suc n) = let rest = all_slots p n in if p n then rest else false

all_slots_sound : (p : ℕ → Bool) (n i : ℕ) → all_slots p n ≡ true → i < n → p i ≡ true
unfolding all_slots
all_slots_sound p zero i e h = absurd (omega arith)
all_slots_sound p (suc n) i e h = ground (arith, all_slots_sound p n i)

slot_sizes_table :
    all_slots (λ n. base_value (n + 1) == base_value n + 2 ^ get_or lzx_extra_offset_bits n 0) 50
    ≡ true
unfolding all_slots lzx_offset_slot_base lzx_extra_offset_bits
slot_sizes_table = refl

-- The offset slots lie one behind the other: slot `n` holds as many offsets as its extra bits count.
pub slot_sizes :
    (n : ℕ)
    → n < lzx_max_offset_slots
    → base_value (n + 1) ≡ base_value n + 2 ^ get_or lzx_extra_offset_bits n 0
slot_sizes n h = (==_iff _ _).0 (all_slots_sound _ 50 n slot_sizes_table h)

bsrw_lem :
    (fuel v : ℕ) → v < 2 ^ suc fuel → 1 ≤ v → (2 ^ bsrw fuel v ≤ v) × (v < 2 ^ suc (bsrw fuel v))
unfolding bsrw
bsrw_lem zero v h lo = (omega arith, omega arith)
bsrw_lem (suc fuel) v h lo = elim (Bool-cases (ltb v 2)) [
  | inl e ↦ rw e (ground arith, ground arith)
  | inr e ↦
      let (a, b) = bsrw_lem fuel (v / 2) (omega (arith, pow-suc 2 (suc fuel))) (ground arith) in
      rw e (
        omega (arith, pow-suc 2 (bsrw fuel (v / 2))),
        omega (arith, pow-suc 2 (suc (bsrw fuel (v / 2)))),
      )
]

pow_mono : (k m : ℕ) → k ≤ m → 2 ^ k ≤ 2 ^ m
pow_mono k m h = pow-le-pow_right (omega arith) h

-- The order of `ilog2_ceil` above 1.
record Rounds (n k : ℕ) : Type 0 where
  fits : n ≤ 2 ^ k
  least : 2 ^ (k - 1) < n
  small : k ≤ 21

rounds : (n : ℕ) → 2 ≤ n → n ≤ 2 ^ 21 → Rounds n (suc (bsrw 64 (n - 1)))
rounds n lo hi =
    let (below, above) = bsrw_lem 64 (n - 1) (omega arith) (omega arith) in
    record {
      fits = omega arith;
      least = rw sub_one (omega arith);
      small = elim (dec_lt 20 (bsrw 64 (n - 1))) [
        | no h ↦ omega arith
        | yes h ↦ absurd (omega (arith, pow_mono 21 (bsrw 64 (n - 1)) h))
      ];
    }
  where
    sub_one : suc (bsrw 64 (n - 1)) - 1 ≡ bsrw 64 (n - 1)
    sub_one = omega arith

-- The orders that windows have, for a buffer of `n` bytes.
pub record IsWindowOrder (n order : ℕ) : Type 0 where
  pub fits : n ≤ 2 ^ order
  pub at_least : 15 ≤ order
  pub at_most : order ≤ 21
  pub smallest : (order ≡ 15) ⊎ (2 ^ (order - 1) < n)

widened : (n k : ℕ) → Rounds n k → IsWindowOrder n (max k 15)
widened n k r = elim (dec_lt k 15) [
  | yes h ↦ rw (below h) (record {
    fits = omega (arith, r.fits, pow_mono k 15 (omega arith));
    at_least = omega arith;
    at_most = omega arith;
    smallest = inl refl;
  })
  | no h ↦
      rw (above h) (record {
        fits = r.fits;
        at_least = omega arith;
        at_most = r.small;
        smallest = inr r.least;
      })
]
  where
    below : k < 15 → max k 15 ≡ 15
    below h = omega arith

    above : ¬ (k < 15) → max k 15 ≡ k
    above h = omega arith

-- A buffer that fits an LZX window is given the order of the smallest window, of order 15 at least,
-- that it fits; an empty buffer and a larger one are given 0.
pub lzx_get_window_order_lem :
    (n : ℕ)
    → ((n ≡ 0) ⊎ (lzx_max_window_size < n)) × (lzx_get_window_order n ≡ 0)
      ⊎ IsWindowOrder n (lzx_get_window_order n)
unfolding lzx_get_window_order ilog2_ceil
lzx_get_window_order_lem zero = inl (inl refl, refl)
lzx_get_window_order_lem (suc zero) = inr (record {
  fits = omega arith;
  at_least = omega arith;
  at_most = omega arith;
  smallest = inl refl;
})
lzx_get_window_order_lem (suc (suc m)) = elim (dec_lt (2 ^ 21) (suc (suc m))) [
  | yes h ↦ inl (inr h, ground arith)
  | no h ↦ inr (
      subst (IsWindowOrder (suc (suc m))) (value h)
        (widened (suc (suc m)) _ (rounds (suc (suc m)) (omega arith) (omega arith))))
]
  where
    value :
        ¬ (2 ^ 21 < suc (suc m))
        → max (suc (bsrw 64 (suc (suc m) - 1))) 15 ≡ (
            if suc (suc m) == 0 || ltb lzx_max_window_size (suc (suc m))
            then 0
            else max (if leb (suc (suc m)) 1 then 0 else suc (bsrw 64 (suc (suc m) - 1))) 15)
    value h = ground arith

-- The number of slots that the main code of a window order has symbols for.
abbrev pub num_slots : ℕ → ℕ
num_slots order = (lzx_get_num_main_syms order - 256) / 8

-- The last of these slots is needed for the largest match offset, and no further slot is.
abbrev covers : ℕ → Bool
covers order =
    (lzx_get_num_main_syms order == 256 + num_slots order * 8)
    && (leb (num_slots order) lzx_max_offset_slots
        && (leb (base_value (num_slots order - 1)) (2 ^ order - 3 + 2)
            && ltb (2 ^ order - 3 + 2) (base_value (num_slots order))))

covers_table : all_slots (λ k. covers (15 + k)) 7 ≡ true
unfolding all_slots lzx_get_num_main_syms count_slots slot_reached lzx_offset_slot_base
covers_table = refl

-- For every window order the main code has 256 literals and 8 symbols for each offset slot up to the
-- slot of the largest match offset, 2^order - 3, and no more; there are at most 50 slots.
pub main_syms_slots :
    (order : ℕ)
    → 15 ≤ order
    → order ≤ 21
    → (lzx_get_num_main_syms order ≡ 256 + num_slots order * 8)
      × (num_slots order ≤ lzx_max_offset_slots)
      × (base_value (num_slots order - 1) ≤ 2 ^ order - 3 + 2)
      × (2 ^ order - 3 + 2 < base_value (num_slots order))
main_syms_slots order lo hi = holds (
    subst (λ k. covers k ≡ true) shifted
      (all_slots_sound (λ k. covers (15 + k)) 7 (order - 15) covers_table (omega arith)))
  where
    shifted : 15 + (order - 15) ≡ order
    shifted = omega arith

    holds :
        covers order ≡ true
        → (lzx_get_num_main_syms order ≡ 256 + num_slots order * 8)
          × (num_slots order ≤ lzx_max_offset_slots)
          × (base_value (num_slots order - 1) ≤ 2 ^ order - 3 + 2)
          × (2 ^ order - 3 + 2 < base_value (num_slots order))
    holds e = ground arith
