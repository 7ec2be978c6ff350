-- ===== src/TaggedItems/Get.antt =====
-- `inode_get_tagged_item` of src/tagged_items.c on a list of items.
use wimlib.Common.{
  ℕ, suc, ◌+◌, ◌≡◌, refl, ap, ap₂, sym, ◌∙◌, List, [], ◌∷◌, ◌++◌, length, take, drop, length-append,
  append_assoc, leb, ◌==◌, if◌then◌else◌, ◌&&◌, arith, Option, none, some, Bool-cases, inl, inr,
}
use mathlib.Core.Option
use wimlib.Common.Bytes.{take-append, drop-append}
use wimlib.FileIo.Read.{drop_more}
use wimlib.TaggedItems.{inode_get_tagged_item}
use wimlib.TaggedItems.Items.{Item, AreItems, item_bytes, items_bytes, locate, get_loop-locate}

-- The data at an offset, as the caller reads it through the returned pointer.
abbrev pub data_at : List ℕ → ℕ × ℕ → List ℕ
data_at s (p, len) = take len (drop p s)

-- The data of the first item with the tag and enough data.
pub first_data : List Item → ℕ → ℕ → Option (List ℕ)
first_data [] tag min_len = none
first_data ((t, d) ∷ items) tag min_len =
    let rest = first_data items tag min_len in
    if t == tag && leb min_len (length d) then some d else rest

data_there :
    (front rest : List ℕ) (t : ℕ) (d : List ℕ)
    → data_at (front ++ (item_bytes t d ++ rest)) (length front + 8, length d) ≡ d
unfolding item_bytes
data_there front rest t d =
    ap (take (length d)) (
      sym (drop_more (length front) 8 _)
      ∙ ap (drop 8) (drop-append front _)
      ∙ append_assoc d _ rest)
    ∙ take-append d _

located_data :
    (items : List Item) (front : List ℕ) (tag min_len : ℕ)
    → Option.map (data_at (front ++ items_bytes items)) (locate items (length front) tag min_len)
      ≡ first_data items tag min_len
unfolding locate first_data
located_data [] front tag min_len = refl
located_data ((t, d) ∷ items) front tag min_len =
    elim (Bool-cases (t == tag && leb min_len (length d))) [
      | inl e ↦ rw e (ap some (data_there front (items_bytes items) t d))
      | inr e ↦ rw e (
          ap₂ (λ s n. Option.map (data_at s) (locate items n tag min_len))
            (sym (append_assoc front (item_bytes t d) (items_bytes items)))
            (sym (length-append front (item_bytes t d)))
          ∙ located_data items (front ++ item_bytes t d) tag min_len)
    ]

-- On the bytes of any list of items, a search for a tag and a least length finds the data of the first
-- item that has the tag and enough data, and a null pointer if there is none.
pub inode_get-first_data :
    (items : List Item) (tag min_len : ℕ)
    → AreItems items
    → Option.map
        (data_at (items_bytes items))
        (inode_get_tagged_item (some (items_bytes items)) tag min_len)
      ≡ first_data items tag min_len
unfolding inode_get_tagged_item
inode_get-first_data items tag min_len v =
    ap (Option.map (data_at (items_bytes items)))
      (get_loop-locate items (suc (length (items_bytes items))) 0 tag min_len v (omega arith))
    ∙ located_data items [] tag min_len
