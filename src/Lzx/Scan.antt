-- ===== src/Lzx/Scan.antt =====
-- The loop of the E8 filter of src/lzx_common.c is undone by the loop with the other translation.
use wimlib.Common.{
  ℕ, suc, ◌+◌, ◌/◌, ◌^◌, ◌≤◌, ◌<◌, ◌≡◌, inl, inr, refl, ap, ap₂, ◌∙◌, true, false, List, [], ◌∷◌,
  ◌++◌, length, drop, replicate, leb, ◌==◌, ==_iff, Bool-cases, arith,
}
use wimlib.Common.Bytes.{put_le, get_le, get_le-put_le, put_le-get_le, get_le-lt, All, IsByte}
use wimlib.Lzx.{do_translate_target, undo_translate_target, e8_scan}
use wimlib.Lzx.Target.{
  translations_inverse, do_translate_target-lt, undo_translate_target-lt, e8_word,
}

-- What the loop needs of the two translations it is run with, `f` before and `g` after.
pub record Undoes (f g : ℕ → ℕ → ℕ) : Type 0 where
  pub back : (word at : ℕ) → word < 2 ^ 32 → at < 2 ^ 30 → g (f word at) at ≡ word
  pub word : (word at : ℕ) → word < 2 ^ 32 → f word at < 2 ^ 32
  pub keeps : (word at : ℕ) → word / 2 ^ 24 ≡ 0xE8 → at < 2 ^ 28 → f word at ≡ word

pub post_after_pre : Undoes do_translate_target undo_translate_target
post_after_pre = record {
  back = λ w a h k. (translations_inverse w a h k).0;
  word = do_translate_target-lt;
  keeps = λ w a h k. (e8_word w a h k).0;
}

pub pre_after_post : Undoes undo_translate_target do_translate_target
pre_after_post = record {
  back = λ w a h k. (translations_inverse w a h k).1;
  word = undo_translate_target-lt;
  keeps = λ w a h k. (e8_word w a h k).1;
}

module _ (f : ℕ → ℕ → ℕ) (tail at b w x y z : ℕ) (s : List ℕ) where
  scan_skip :
      (b == 0xE8) ≡ false
      → e8_scan f tail at (b ∷ w ∷ x ∷ y ∷ z ∷ s) ≡ b ∷ e8_scan f tail (at + 1) (w ∷ x ∷ y ∷ z ∷ s)
  unfolding e8_scan
  scan_skip e = rw e refl

  scan_stop :
      (b == 0xE8) ≡ true
      → leb tail at ≡ true
      → e8_scan f tail at (b ∷ w ∷ x ∷ y ∷ z ∷ s) ≡ b ∷ w ∷ x ∷ y ∷ z ∷ s
  unfolding e8_scan
  scan_stop e k = rw (e, k) refl

  scan_target :
      (b == 0xE8) ≡ true
      → leb tail at ≡ false
      → e8_scan f tail at (b ∷ w ∷ x ∷ y ∷ z ∷ s)
        ≡ b ∷ (put_le 4 (f (get_le (w ∷ x ∷ y ∷ z ∷ [])) at) ++ e8_scan f tail (at + 5) s)
  unfolding e8_scan
  scan_target e k = rw (e, k) refl

word_bytes :
    (w x y z : ℕ)
    → All IsByte (w ∷ x ∷ y ∷ z ∷ [])
    → put_le 4 (get_le (w ∷ x ∷ y ∷ z ∷ [])) ≡ w ∷ x ∷ y ∷ z ∷ []
word_bytes w x y z h = put_le-get_le (w ∷ x ∷ y ∷ z ∷ []) h

-- The scan with `g` undoes the scan with `f`: both stop at the same E8 bytes.
module _ (f g : ℕ → ℕ → ℕ) (u : Undoes f g) (tail : ℕ) where
  pub length-scan : (at : ℕ) (s : List ℕ) → length (e8_scan f tail at s) ≡ length s
  length-scan at (b ∷ w ∷ x ∷ y ∷ z ∷ s) = elim (Bool-cases (b == 0xE8)) [
    | inr n ↦
        ap length (scan_skip f tail at b w x y z s n)
        ∙ ap suc (length-scan (at + 1) (w ∷ x ∷ y ∷ z ∷ s))
    | inl e ↦ elim (Bool-cases (leb tail at)) [
      | inl k ↦ ap length (scan_stop f tail at b w x y z s e k)
      | inr k ↦
          ap length (scan_target f tail at b w x y z s e k)
          ∙ ap (λ n. suc (suc (suc (suc (suc n))))) (length-scan (at + 5) s)
    ]
  ]
  length-scan at s = unfold e8_scan in refl

scan_pass :
    (g : ℕ → ℕ → ℕ) (tail at b : ℕ) (t : List ℕ)
    → (b == 0xE8) ≡ false
    → e8_scan g tail at (b ∷ t) ≡ b ∷ e8_scan g tail (at + 1) t
unfolding e8_scan
scan_pass g tail at b [] e = refl
scan_pass g tail at b (w ∷ []) e = refl
scan_pass g tail at b (w ∷ x ∷ []) e = refl
scan_pass g tail at b (w ∷ x ∷ y ∷ []) e = refl
scan_pass g tail at b (w ∷ x ∷ y ∷ z ∷ t) e = rw e refl

module _ (f g : ℕ → ℕ → ℕ) (u : Undoes f g) (tail : ℕ) where
  pub scan-scan :
      (at : ℕ) (s : List ℕ)
      → All IsByte s
      → at + length s < 2 ^ 30
      → e8_scan g tail at (e8_scan f tail at s) ≡ s
  scan-scan at (b ∷ w ∷ x ∷ y ∷ z ∷ s) (hb, (hw, (hx, (hy, (hz, hs))))) lt =
      elim (Bool-cases (b == 0xE8)) [
        | inr n ↦
            ap (e8_scan g tail at) (scan_skip f tail at b w x y z s n)
            ∙ scan_pass g tail at b _ n
            ∙ ap (◌∷◌ b)
                (scan-scan (at + 1) (w ∷ x ∷ y ∷ z ∷ s) (hw, (hx, (hy, (hz, hs)))) (omega arith))
        | inl e ↦ elim (Bool-cases (leb tail at)) [
          | inl k ↦
              ap (e8_scan g tail at) (scan_stop f tail at b w x y z s e k)
              ∙ scan_stop g tail at b w x y z s e k
          | inr k ↦
              let word = get_le (w ∷ x ∷ y ∷ z ∷ []) in
              let small : word < 2 ^ 32 =
                get_le-lt (w ∷ x ∷ y ∷ z ∷ []) (hw, (hx, (hy, (hz, tt)))) in
              let there : get_le (put_le 4 (f word at)) ≡ f word at =
                get_le-put_le 4 (f word at) (u.word word at small) in
              ap (e8_scan g tail at) (scan_target f tail at b w x y z s e k)
              ∙ scan_target g tail at b _ _ _ _ (e8_scan f tail (at + 5) s) e k
              ∙ ap₂ (λ v t. b ∷ (put_le 4 v ++ t))
                  (ap (λ v. g v at) there ∙ u.back word at small (omega arith))
                  (scan-scan (at + 5) s hs (omega arith))
              ∙ ap (λ t. b ∷ (t ++ s)) (word_bytes w x y z (hw, (hx, (hy, (hz, tt)))))
        ]
      ]
  scan-scan at s h lt = unfold e8_scan in refl

abbrev pub six : List ℕ
six = 0xE8 ∷ 0xE8 ∷ 0xE8 ∷ 0xE8 ∷ 0xE8 ∷ 0xE8 ∷ []

module _ (f g : ℕ → ℕ → ℕ) (u : Undoes f g) where
  -- A target that ends in an E8 byte is left alone.
  scan_kept :
      (tail at w x y : ℕ) (s : List ℕ)
      → at < tail
      → at < 2 ^ 28
      → All IsByte (w ∷ x ∷ y ∷ [])
      → e8_scan f tail at (0xE8 ∷ w ∷ x ∷ y ∷ 0xE8 ∷ s)
        ≡ 0xE8 ∷ w ∷ x ∷ y ∷ 0xE8 ∷ e8_scan f tail (at + 5) s
  scan_kept tail at w x y s lt small (hw, (hx, (hy, _))) =
      scan_target f tail at 0xE8 w x y 0xE8 s refl (ground arith)
      ∙ ap (λ v. 0xE8 ∷ (put_le 4 v ++ e8_scan f tail (at + 5) s))
          (u.keeps (get_le (w ∷ x ∷ y ∷ 0xE8 ∷ [])) at (omega arith) small)
      ∙ ap (λ t. 0xE8 ∷ (t ++ e8_scan f tail (at + 5) s))
          (word_bytes w x y 0xE8 (hw, (hx, (hy, (omega arith, tt)))))

  scan_end : (tail at : ℕ) (s : List ℕ) → tail ≤ at → e8_scan f tail at (0xE8 ∷ s) ≡ 0xE8 ∷ s
  unfolding e8_scan
  scan_end tail at [] h = refl
  scan_end tail at (w ∷ []) h = refl
  scan_end tail at (w ∷ x ∷ []) h = refl
  scan_end tail at (w ∷ x ∷ y ∷ []) h = refl
  scan_end tail at (w ∷ x ∷ y ∷ z ∷ s) h = ground arith

  -- What comes out of the scan of `xs` behind its own length.
  abbrev Ends : ℕ → ℕ → List ℕ → Type 0
  Ends tail at xs = drop (length xs) (e8_scan f tail at (xs ++ six)) ≡ six

  -- The first byte is passed by, or it is the E8 byte of a target.
  one_byte :
      (tail at b : ℕ) (xs : List ℕ)
      → Ends tail (at + 1) xs
      → Ends tail at (0xE8 ∷ xs)
      → Ends tail at (b ∷ xs)
  one_byte tail at b xs passed target = elim (Bool-cases (b == 0xE8)) [
    | inr n ↦ ap (drop (suc (length xs))) (scan_pass f tail at b (xs ++ six) n) ∙ passed
    | inl q ↦ rw ((==_iff _ _).0 q) target
  ]

  -- A target that reaches into the six bytes is left alone, and the scan ends behind it.
  short_target :
      (tail at : ℕ) (w x y : ℕ) (k m : ℕ)
      → at < tail
      → tail ≤ at + 5
      → at < 2 ^ 28
      → All IsByte (w ∷ x ∷ y ∷ [])
      → drop k (w ∷ x ∷ y ∷ 0xE8 ∷ 0xE8 ∷ replicate m 0xE8) ≡ six
      → drop (suc k) (e8_scan f tail at (0xE8 ∷ w ∷ x ∷ y ∷ 0xE8 ∷ 0xE8 ∷ replicate m 0xE8)) ≡ six
  short_target tail at w x y k m lt le small h there =
      ap (drop (suc k)) (
        scan_kept tail at w x y _ lt small h
        ∙ ap (λ t. 0xE8 ∷ w ∷ x ∷ y ∷ 0xE8 ∷ t) (scan_end tail (at + 5) _ le))
      ∙ there

  -- The six E8 bytes behind the data come out of the scan as they went in.
  pub scan_tail :
      (xs : List ℕ) (tail at : ℕ)
      → All IsByte xs
      → tail ≡ at + length xs
      → tail < 2 ^ 28
      → Ends tail at xs
  scan_tail [] tail at h e lt = scan_end tail at _ (omega arith)
  scan_tail (b ∷ []) tail at (hb, hs) e lt =
      one_byte tail at b [] (scan_tail [] tail (at + 1) hs (omega arith) lt) (
        short_target tail at 0xE8 0xE8 0xE8 0 1 (omega arith) (omega arith) (omega arith)
          (omega arith) refl)
  scan_tail (b ∷ w ∷ []) tail at (hb, hs) e lt =
      one_byte tail at b (w ∷ []) (scan_tail (w ∷ []) tail (at + 1) hs (omega arith) lt) (
        short_target tail at w 0xE8 0xE8 1 2 (omega arith) (omega arith) (omega arith)
          (hs.0, omega arith) refl)
  scan_tail (b ∷ w ∷ x ∷ []) tail at (hb, hs) e lt =
      one_byte tail at b (w ∷ x ∷ []) (scan_tail (w ∷ x ∷ []) tail (at + 1) hs (omega arith) lt) (
        short_target tail at w x 0xE8 2 3 (omega arith) (omega arith) (omega arith)
          (hs.0, (hs.1.0, omega arith)) refl)
  scan_tail (b ∷ w ∷ x ∷ y ∷ []) tail at (hb, hs) e lt =
      one_byte tail at b (w ∷ x ∷ y ∷ [])
        (scan_tail (w ∷ x ∷ y ∷ []) tail (at + 1) hs (omega arith) lt)
        (short_target tail at w x y 3 4 (omega arith) (omega arith) (omega arith) hs refl)
  scan_tail (b ∷ w ∷ x ∷ y ∷ z ∷ xs) tail at (hb, hs) e lt =
      one_byte tail at b (w ∷ x ∷ y ∷ z ∷ xs)
        (scan_tail (w ∷ x ∷ y ∷ z ∷ xs) tail (at + 1) hs (omega arith) lt)
        (ap (drop (suc (suc (suc (suc (suc (length xs)))))))
            (scan_target f tail at 0xE8 w x y z (xs ++ six) refl (ground arith))
          ∙ scan_tail xs tail (at + 5) hs.1.1.1.1 (omega arith) lt)
