-- ===== src/TaggedItems/Items.antt =====
-- A list of tagged items and its bytes: the format of `struct tagged_item_header` in
-- src/tagged_items.c.
use wimlib.Common.{
  ℕ, zero, suc, ◌+◌, ◌-◌, ◌%◌, ◌^◌, ◌≤◌, ◌<◌, ◌≡◌, refl, sym, List, [], ◌∷◌, ◌++◌, length,
  replicate, length-append, length-replicate, ltb, leb, ◌==◌, if◌then◌else◌, Bool, ◌&&◌, ◌||◌,
  arith, Bool-cases, inl, inr, ltb→lt, Option, none, some,
}
use wimlib.Common.Bytes.{put_le, get_le-put_le, drop-append}
use wimlib.Common.Bits.{bit_and_mask}
use wimlib.TaggedItems.{align8, item_tag, item_length, item_full_length, padding, get_loop, u32_mod}

-- A tag with the data.
abbrev pub Item : Type 0
Item = ℕ × List ℕ

-- The tag fits 32 bits, and the data is so short that its padded length does too.
abbrev pub IsItem : Item → Type 0
IsItem (t, d) = (t < 2 ^ 32) × (length d < 2 ^ 32 - 16)

abbrev pub AreItems : List Item → Type 0
AreItems [] = Unit
AreItems ((t, d) ∷ items) = IsItem (t, d) × AreItems items

unfoldable pub item_bytes : ℕ → List ℕ → List ℕ
item_bytes t d = put_le 4 t ++ (put_le 4 (length d) ++ (d ++ replicate (padding (length d)) 0))

abbrev pub items_bytes : List Item → List ℕ
items_bytes [] = []
items_bytes ((t, d) ∷ items) = item_bytes t d ++ items_bytes items

pub padded : (n : ℕ) → n + 7 < 2 ^ 32 → n + padding n ≡ align8 n
padded n h = omega (arith, bit_and_mask 3 (u32_mod - n % u32_mod))

pub length-item_bytes :
    (t : ℕ) (d : List ℕ) → length d < 2 ^ 32 - 16 → length (item_bytes t d) ≡ 8 + align8 (length d)
unfolding item_bytes
length-item_bytes t d h = omega (
  arith,
  length-append d (replicate (padding (length d)) 0),
  length-replicate {A = ℕ} (padding (length d)) 0,
  padded (length d) (omega (arith, h)),
)

module _ (t : ℕ) (d rest : List ℕ) (v : IsItem (t, d)) where
  tag_read : item_tag (item_bytes t d ++ rest) ≡ t
  unfolding item_bytes
  tag_read = get_le-put_le 4 t v.0

  length_read : item_length (item_bytes t d ++ rest) ≡ length d
  unfolding item_bytes
  length_read = get_le-put_le 4 (length d) (omega (arith, v.1))

  full_read : item_full_length (length d) ≡ length (item_bytes t d)
  full_read = omega (arith, v.1, length-item_bytes t d v.1)

-- The offset and the length of the first item with the tag and enough data, by the list of items.
unfoldable pub locate : List Item → ℕ → ℕ → ℕ → Option (ℕ × ℕ)
locate [] at tag min_len = none
locate ((t, d) ∷ items) at tag min_len =
    let rest = locate items (at + length (item_bytes t d)) tag min_len in
    if t == tag && leb min_len (length d) then some (at + 8, length d) else rest

-- With too few bytes left there is no item to find.
locate_short :
    (items : List Item) (at tag min_len : ℕ)
    → AreItems items
    → length (items_bytes items) < 8 + min_len
    → locate items at tag min_len ≡ none
unfolding locate
locate_short [] at tag min_len v h = refl
locate_short ((t, d) ∷ items) at tag min_len (v, vs) h = ground (
  arith,
  length-append (item_bytes t d) (items_bytes items),
  length-item_bytes t d v.1,
  padded (length d) (omega (arith, v.1)),
  locate_short items (at + length (item_bytes t d)) tag min_len vs (
      omega (arith, length-append (item_bytes t d) (items_bytes items), length-item_bytes t d v.1)),
)

-- The tests of one round, on an item that lies in the bytes.
round :
    (n full len min_len : ℕ) (hit : Bool) (x rest : Option (ℕ × ℕ))
    → len ≤ full
    → full ≤ n
    → ((n < 8 + min_len) → (if hit then x else rest) ≡ none)
    → (if ltb n (8 + min_len)
        then none
        else if ltb full len || ltb n full
        then none
        else if hit
        then x
        else rest)
      ≡ (if hit then x else rest)
round n full len min_len hit x rest lo hi short = elim (Bool-cases (ltb n (8 + min_len))) [
  | inl e ↦ rw e (sym (short (ltb→lt _ _ e)))
  | inr e ↦ rw e (ground arith)
]

-- The loop finds what the list of items says.
pub get_loop-locate :
    (items : List Item) (fuel at tag min_len : ℕ)
    → AreItems items
    → length (items_bytes items) < fuel
    → get_loop fuel (items_bytes items) at tag min_len ≡ locate items at tag min_len
unfolding get_loop locate
get_loop-locate items zero at tag min_len v h = absurd (omega arith)
get_loop-locate [] (suc fuel) at tag min_len v h = ground arith
get_loop-locate ((t, d) ∷ items) (suc fuel) at tag min_len (v, vs) h =
    let rest = items_bytes items in
    let len = length-append (item_bytes t d) rest in
    rw
      (
        length_read t d rest v,
        tag_read t d rest v,
        full_read t d rest v,
        drop-append (item_bytes t d) rest,
        get_loop-locate items fuel (at + length (item_bytes t d)) tag min_len vs
            (omega (arith, len, length-item_bytes t d v.1)),
      )
      (round (length (item_bytes t d ++ rest)) (length (item_bytes t d)) (length d) min_len
        (t == tag && leb min_len (length d)) (some (at + 8, length d))
        (locate items (at + length (item_bytes t d)) tag min_len)
        (omega (arith, length-item_bytes t d v.1, padded (length d) (omega (arith, v.1))))
        (omega (arith, len)) (λ short. locate_short ((t, d) ∷ items) at tag min_len (v, vs) short))
