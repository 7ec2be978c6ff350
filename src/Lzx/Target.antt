-- ===== src/Lzx/Target.antt =====
-- Translating a call target and translating it back: src/lzx_common.c.
use wimlib.Common.{ℕ, ◌+◌, ◌-◌, ◌/◌, ◌%◌, ◌^◌, ◌<◌, ◌≡◌, ap, ◌∙◌, ltb, leb, if◌then◌else◌, arith}
use wimlib.Common.Int.{◌+ℤ◌, ◌-ℤ◌}
use wimlib.Lzx.{do_translate_target, undo_translate_target}

-- The two translations in plain arithmetic.
abbrev moved : ℕ → ℕ → ℕ
moved word input_pos =
    if ltb word (2 ^ 31)
    then (if ltb word 12000000
        then (if ltb (word + input_pos) 12000000
            then word + input_pos
            else word + 2 ^ 32 - 12000000)
        else word)
    else if leb (2 ^ 32) (word + input_pos)
    then (if ltb (word + input_pos) (2 ^ 32 + 12000000)
        then word + input_pos - 2 ^ 32
        else word - 12000000)
    else word

abbrev moved_back : ℕ → ℕ → ℕ
moved_back word input_pos =
    if ltb word (2 ^ 31)
    then (if ltb word 12000000
        then (if leb input_pos word then word - input_pos else word + 2 ^ 32 - input_pos)
        else word)
    else if leb (2 ^ 32) (word + input_pos)
    then (word + 12000000) % 2 ^ 32
    else word

module _ (word input_pos : ℕ) (h : word < 2 ^ 32) (k : input_pos < 2 ^ 30) where
  do-moved : do_translate_target word input_pos ≡ moved word input_pos
  unfolding do_translate_target ◌+ℤ◌ ◌-ℤ◌
  do-moved = ground arith

  undo-moved_back : undo_translate_target word input_pos ≡ moved_back word input_pos
  unfolding undo_translate_target ◌+ℤ◌ ◌-ℤ◌
  undo-moved_back = ground arith

  moved-lt : moved word input_pos < 2 ^ 32
  moved-lt = ground arith

  moved_back-lt : moved_back word input_pos < 2 ^ 32
  moved_back-lt = ground arith

  back-moved : moved_back (moved word input_pos) input_pos ≡ word
  back-moved = ground arith

  moved-back : moved (moved_back word input_pos) input_pos ≡ word
  moved-back = ground arith

pub do_translate_target-lt :
    (word input_pos : ℕ) → word < 2 ^ 32 → do_translate_target word input_pos < 2 ^ 32
unfolding do_translate_target ◌+ℤ◌ ◌-ℤ◌
do_translate_target-lt word input_pos h = ground arith

pub undo_translate_target-lt :
    (word input_pos : ℕ) → word < 2 ^ 32 → undo_translate_target word input_pos < 2 ^ 32
unfolding undo_translate_target ◌+ℤ◌ ◌-ℤ◌
undo_translate_target-lt word input_pos h = ground arith

-- A word whose high byte is E8 is a large negative number, which is translated at no position that a
-- chunk has.
pub e8_word :
    (word input_pos : ℕ)
    → word / 2 ^ 24 ≡ 0xE8
    → input_pos < 2 ^ 28
    → (do_translate_target word input_pos ≡ word) × (undo_translate_target word input_pos ≡ word)
unfolding do_translate_target undo_translate_target ◌-ℤ◌
e8_word word input_pos h k = (ground arith, ground arith)

-- Each of the two translations undoes the other, on every word and at every position below 2^30.
pub translations_inverse :
    (word input_pos : ℕ)
    → word < 2 ^ 32
    → input_pos < 2 ^ 30
    → (undo_translate_target (do_translate_target word input_pos) input_pos ≡ word)
      × (do_translate_target (undo_translate_target word input_pos) input_pos ≡ word)
translations_inverse word input_pos h k = (
  ap (λ w. undo_translate_target w input_pos) (do-moved word input_pos h k)
      ∙ undo-moved_back (moved word input_pos) input_pos (moved-lt word input_pos h k) k
      ∙ back-moved word input_pos h k,
  ap (λ w. do_translate_target w input_pos) (undo-moved_back word input_pos h k)
      ∙ do-moved (moved_back word input_pos) input_pos (moved_back-lt word input_pos h k) k
      ∙ moved-back word input_pos h k,
)
