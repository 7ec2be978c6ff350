-- ===== src/Lzx/Filter.antt =====
-- The E8 filter over a whole buffer: `lzx_preprocess` and `lzx_postprocess` of src/lzx_common.c.
use wimlib.Common.{
  ℕ, zero, suc, ◌-◌, ◌^◌, ◌<◌, ◌≡◌, refl, ap, ap₂, sym, ◌∙◌, false, List, [], ◌∷◌, ◌++◌, length,
  take, drop, length-append, length-take, length-drop, take-append-drop, leb, arith,
}
use native.Mathlib.Decide.{dec_lt}
use wimlib.Common.Bytes.{All, IsByte, take-append, drop-append}
use wimlib.Lzx.{e8_scan, lzx_e8_filter, lzx_preprocess, lzx_postprocess}
use wimlib.Lzx.Scan.{Undoes, post_after_pre, pre_after_post, length-scan, scan-scan, six, scan_tail}

take-IsByte : (n : ℕ) (s : List ℕ) → All IsByte s → All IsByte (take n s)
take-IsByte zero s h = tt
take-IsByte (suc n) [] h = tt
take-IsByte (suc n) (b ∷ s) (hb, hs) = (hb, take-IsByte n s hs)

append-six : (s : List ℕ) → All IsByte s → All IsByte (s ++ six)
append-six [] h = omega arith
append-six (b ∷ s) (hb, hs) = (hb, append-six s hs)

-- The pieces of a buffer that the filter works on.
module _ (f g : ℕ → ℕ → ℕ) (u : Undoes f g) (s : List ℕ) (h : All IsByte s) (long : 10 < length s)
    (short : length s < 2 ^ 28) where
  abbrev tail : ℕ
  tail = length s - 6

  abbrev front : List ℕ
  front = take tail s

  abbrev scanned : List ℕ
  scanned = e8_scan f tail 0 (front ++ six)

  length-front : length front ≡ tail
  length-front = omega (arith, length-take tail s)

  filter_out : lzx_e8_filter f s ≡ take tail scanned ++ drop tail s
  unfolding lzx_e8_filter
  filter_out = ground arith

  scanned_parts : scanned ≡ take tail scanned ++ six
  scanned_parts =
      sym (take-append-drop tail scanned)
      ∙ ap (◌++◌ (take tail scanned)) (
          ap (λ n. drop n scanned) (sym length-front)
          ∙ scan_tail f g u front tail 0 (take-IsByte tail s h) (omega (arith, length-front))
              (omega arith))

  length-out_front : length (take tail scanned) ≡ tail
  length-out_front = omega (
    arith,
    length-take tail scanned,
    length-scan f g u tail 0 (front ++ six),
    length-append front six,
    length-front,
  )

  back_again : e8_scan g tail 0 (take tail scanned ++ six) ≡ front ++ six
  back_again =
      ap (e8_scan g tail 0) (sym scanned_parts)
      ∙ scan-scan f g u tail 0 (front ++ six) (append-six front (take-IsByte tail s h))
          (omega (arith, length-append front six, length-front))

  length-filter : length (take tail scanned ++ drop tail s) ≡ length s
  length-filter =
      omega (
        arith,
        length-append (take tail scanned) (drop tail s),
        length-out_front,
        length-drop tail s,
      )

cut_append {ℓ} :
    {A : Type ℓ} (xs ys : List A) (n : ℕ)
    → length xs ≡ n
    → (take n (xs ++ ys) ≡ xs) × (drop n (xs ++ ys) ≡ ys)
cut_append xs ys n e = (rw (← e) (take-append xs ys), rw (← e) (drop-append xs ys))

-- Running the filter on what came out of it, with the translation that undoes the first.
filter_back :
    (f g : ℕ → ℕ → ℕ) (out s : List ℕ) (n : ℕ)
    → length out ≡ length s
    → 10 < length s
    → n ≡ length s - 6
    → drop n out ≡ drop n s
    → e8_scan g n 0 (take n out ++ six) ≡ take n s ++ six
    → lzx_e8_filter g out ≡ s
unfolding lzx_e8_filter
filter_back f g out s n len long e back scan =
    let many : leb (length out) 10 ≡ false = ground arith in
    let n' : length out - 6 ≡ n = omega arith in
    rw (many, n')
      (ap₂ (λ t r. take n t ++ r) scan back
        ∙ ap (λ t. t ++ drop n s) (cut_append (take n s) six n (omega (arith, length-take n s))).0
        ∙ take-append-drop n s)

filter-filter :
    (f g : ℕ → ℕ → ℕ)
    → Undoes f g
    → (s : List ℕ) → All IsByte s
    → length s < 2 ^ 28
    → lzx_e8_filter g (lzx_e8_filter f s) ≡ s
filter-filter f g u s h short = elim (dec_lt 10 (length s)) [
  | no k ↦ ap (lzx_e8_filter g) (small f s k) ∙ small g s k
  | yes k ↦
      let n = length s - 6 in
      let y = take n (scanned f g u s h k short) in
      let (front_y, back_y) = cut_append y (drop n s) n (length-out_front f g u s h k short) in
      ap (lzx_e8_filter g) (filter_out f g u s h k short)
      ∙ filter_back f g (y ++ drop n s) s n (length-filter f g u s h k short) k refl back_y
          (ap (λ t. e8_scan g n 0 (t ++ six)) front_y ∙ back_again f g u s h k short)
]
  where
    small : (p : ℕ → ℕ → ℕ) (s : List ℕ) → ¬ (10 < length s) → lzx_e8_filter p s ≡ s
    small p s k = unfold lzx_e8_filter in ground arith

-- On every buffer below 2^28 bytes the filter before compression and the filter after decompression
-- undo each other, in either order.
pub lzx_filters_inverse :
    (s : List ℕ)
    → All IsByte s
    → length s < 2 ^ 28
    → (lzx_postprocess (lzx_preprocess s) ≡ s) × (lzx_preprocess (lzx_postprocess s) ≡ s)
unfolding lzx_preprocess lzx_postprocess
lzx_filters_inverse s h short =
    (filter-filter _ _ post_after_pre s h short, filter-filter _ _ pre_after_post s h short)
