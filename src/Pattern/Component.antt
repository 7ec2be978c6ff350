-- ===== src/Pattern/Component.antt =====
-- What `string_matches_pattern` of src/pattern.c decides.
use wimlib.Common.{
  arith, ℕ, Bool, true, false, ◌≡◌, refl, sym, ap, ◌∙◌, List, [], ◌∷◌, ◌++◌, ◌==◌, ◌↔◌, ◌⊎◌,
  if◌then◌else◌, if-cases, inl, inr, Bool-cases, subst,
}
use wimlib.Pattern.{only_stars, char_matches, string_matches_pattern}

then_branch : (A B : Type 0) (b : Bool) → b ≡ true → (if b then A else B) → A
then_branch A B true h x = x
then_branch A B false h x = cc

else_branch : (A B : Type 0) (b : Bool) → b ≡ false → (if b then A else B) → B
else_branch A B true h x = cc
else_branch A B false h x = x

module _ (totlower : ℕ → ℕ) (default_ignore_case : Bool) where
  -- What one character of a pattern, not a star, stands for: itself, any one if it is a question
  -- mark, and one with the same lower case if the default is to ignore the case.
  abbrev pub IsMatch : ℕ → ℕ → Type 0
  IsMatch c q = (c ≡ q) ⊎ ((q ≡ b'?') ⊎ ((default_ignore_case ≡ true) × (totlower c ≡ totlower q)))

  char_matches-IsMatch :
      (c q : ℕ) → char_matches totlower default_ignore_case c q ≡ true → IsMatch c q
  char_matches-IsMatch c q e = ground arith

  IsMatch-char_matches :
      (c q : ℕ) → IsMatch c q → char_matches totlower default_ignore_case c q ≡ true
  IsMatch-char_matches c q m = ground arith

  -- A string that the pattern stands for: a star is any run of characters, another character of
  -- the pattern is one character.
  abbrev pub Fits : List ℕ → List ℕ → Type 0
  Fits s [] = s ≡ []
  Fits s (q ∷ p) =
      if q == b'*'
      then ((front : List ℕ) × (rest : List ℕ) × (s ≡ front ++ rest) × Fits rest p)
      else ((c : ℕ) × (rest : List ℕ) × (s ≡ c ∷ rest) × IsMatch c q × Fits rest p)

  star :
      (q : ℕ) (s p front rest : List ℕ)
      → (q == b'*') ≡ true
      → s ≡ front ++ rest
      → Fits rest p
      → Fits s (q ∷ p)
  star q s p front rest h e f = rw h (front, rest, e, f)

  unstar :
      (q : ℕ) (s p : List ℕ)
      → (q == b'*') ≡ true
      → Fits s (q ∷ p)
      → (front : List ℕ) × (rest : List ℕ) × (s ≡ front ++ rest) × Fits rest p
  unstar q s p h f = then_branch _ _ (q == b'*') h f

  one :
      (q c : ℕ) (s p : List ℕ) → (q == b'*') ≡ false → IsMatch c q → Fits s p → Fits (c ∷ s) (q ∷ p)
  one q c s p h m f = rw h (c, s, refl, m, f)

  unone :
      (q : ℕ) (s p : List ℕ)
      → (q == b'*') ≡ false
      → Fits s (q ∷ p)
      → (c : ℕ) × (rest : List ℕ) × (s ≡ c ∷ rest) × IsMatch c q × Fits rest p
  unone q s p h f = else_branch _ _ (q == b'*') h f

  only_stars-Fits : (p : List ℕ) → only_stars p ≡ true → Fits [] p
  unfolding only_stars
  only_stars-Fits [] e = refl
  only_stars-Fits (q ∷ p) e = elim (if-cases (q == b'*') e) [
    | inl (h, e') ↦ star q [] p [] [] h refl (only_stars-Fits p e')
    | inr (h, e') ↦ absurd (cc)
  ]

  no_front : (front rest : List ℕ) → [] ≡ front ++ rest → rest ≡ []
  no_front [] rest e = sym e
  no_front (x ∷ front) rest e = cc

  Fits-only_stars : (p : List ℕ) → Fits [] p → only_stars p ≡ true
  unfolding only_stars
  Fits-only_stars [] f = refl
  Fits-only_stars (q ∷ p) f = elim (Bool-cases (q == b'*')) [
    | inl h ↦
        let (front, rest, e, g) = unstar q [] p h f in
        rw h (Fits-only_stars p (subst (λ r. Fits r p) (no_front front rest e) g))
    | inr h ↦ let (c, rest, e, m, g) = unone q [] p h f in cc
  ]

  longer : (q c : ℕ) (s p : List ℕ) → (q == b'*') ≡ true → Fits s (q ∷ p) → Fits (c ∷ s) (q ∷ p)
  longer q c s p h f =
      let (front, rest, e, g) = unstar q s p h f in
      star q (c ∷ s) p (c ∷ front) rest h (ap (◌∷◌ c) e) g

  matches-Fits :
      (s p : List ℕ) → string_matches_pattern totlower default_ignore_case s p ≡ true → Fits s p
  unfolding string_matches_pattern
  matches-Fits [] p e = only_stars-Fits p e
  matches-Fits (c ∷ s) [] e = cc
  matches-Fits (c ∷ s) (q ∷ p) e = elim (if-cases (q == b'*') e) [
    | inl (h, e') ↦
        elim (if-cases (string_matches_pattern totlower default_ignore_case (c ∷ s) p) e') [
          | inl (e2, _) ↦ star q (c ∷ s) p [] (c ∷ s) h refl (matches-Fits (c ∷ s) p e2)
          | inr (_, e2) ↦ longer q c s p h (matches-Fits s (q ∷ p) e2)
        ]
    | inr (h, e') ↦ elim (if-cases (char_matches totlower default_ignore_case c q) e') [
      | inl (m, e2) ↦ one q c s p h (char_matches-IsMatch c q m) (matches-Fits s p e2)
      | inr (_, e2) ↦ cc
    ]
  ]

  either : (b : Bool) → (if b then true else true) ≡ true
  either true = refl
  either false = refl

  List-cases : (xs : List ℕ) → (xs ≡ []) ⊎ ((x : ℕ) × (ys : List ℕ) × (xs ≡ x ∷ ys))
  List-cases [] = inl refl
  List-cases (x ∷ ys) = inr (x, ys, refl)

  heads : (x y : ℕ) {xs ys : List ℕ} → x ∷ xs ≡ y ∷ ys → x ≡ y
  heads x y e = cc

  rests : (x y : ℕ) (xs ys : List ℕ) → x ∷ xs ≡ y ∷ ys → ys ≡ xs
  rests x y xs ys e = cc

  all_rest : (s front rest : List ℕ) → front ≡ [] → s ≡ front ++ rest → rest ≡ s
  all_rest s front rest h e = sym (e ∙ ap (λ r. r ++ rest) h)

  tails :
      (c d : ℕ) (s front front' rest : List ℕ)
      → front ≡ d ∷ front'
      → c ∷ s ≡ front ++ rest
      → s ≡ front' ++ rest
  tails c d s front front' rest h e = rests d c (front' ++ rest) s (sym (e ∙ ap (λ r. r ++ rest) h))

  Fits-matches :
      (s p : List ℕ) → Fits s p → string_matches_pattern totlower default_ignore_case s p ≡ true
  unfolding string_matches_pattern
  Fits-matches [] p f = Fits-only_stars p f
  Fits-matches (c ∷ s) [] f = cc
  Fits-matches (c ∷ s) (q ∷ p) f = elim (Bool-cases (q == b'*')) [
    | inl h ↦
        let (front, rest, e, g) = unstar q (c ∷ s) p h f in
        elim (List-cases front) [
          | inl none_taken ↦
              rw
                (
                  h,
                  Fits-matches (c ∷ s) p
                      (subst (λ r. Fits r p) (all_rest (c ∷ s) front rest none_taken e) g),
                )
                refl
          | inr (d, front', taken) ↦
              rw
                (
                  h,
                  Fits-matches s (q ∷ p)
                      (star q s p front' rest h (tails c d s front front' rest taken e) g),
                )
                (either (string_matches_pattern totlower default_ignore_case (c ∷ s) p))
        ]
    | inr h ↦
        let (d, rest, e, m, g) = unone q (c ∷ s) p h f in
        rw
          (
            h,
            ap (λ x. char_matches totlower default_ignore_case x q) (heads c d e)
                ∙ IsMatch-char_matches d q m,
          )
          (Fits-matches s p (subst (λ r. Fits r p) (rests c d s rest e) g))
  ]

-- A component of a path matches a component of a pattern exactly if it is made of one run of
-- characters for each star, and of one character for each other character of the pattern: any one
-- for a question mark, and otherwise the same one, up to case where the default is to ignore it.
pub string_matches_pattern-Fits :
    (totlower : ℕ → ℕ) (default_ignore_case : Bool) (s p : List ℕ)
    → (string_matches_pattern totlower default_ignore_case s p ≡ true)
      ↔ Fits totlower default_ignore_case s p
string_matches_pattern-Fits totlower default_ignore_case s p =
    (matches-Fits totlower default_ignore_case s p, Fits-matches totlower default_ignore_case s p)
