-- ===== src/TaggedItems/Set.antt =====
-- `inode_set_tagged_item` of src/tagged_items.c on a list of items.
use wimlib.Common.{
  ℕ, zero, suc, ◌+◌, ◌-◌, ◌%◌, ◌^◌, ◌<◌, ◌≤◌, ◌≡◌, refl, ap, ap₂, sym, subst, ◌∙◌, List, [], ◌∷◌,
  ◌++◌, length, take, drop, length-append, append_assoc, append-nil, ltb, ◌==◌, ==_iff,
  if◌then◌else◌, true, false, arith, none, some, Bool-cases, inl, inr, ◌⊎◌,
}
use wimlib.Common.Bytes.{take-append, drop-append}
use wimlib.FileIo.Read.{drop_more}
use wimlib.TaggedItems.{
  returns, overflows, padding, inode_get_tagged_item, inode_add_tagged_item, inode_set_tagged_item,
  remove_loop, align8,
}
use wimlib.TaggedItems.Items.{
  Item, IsItem, AreItems, item_bytes, items_bytes, locate, get_loop-locate, length-item_bytes,
  padded,
}

-- The items of the other tags.
pub without : ℕ → List Item → List Item
without tag [] = []
without tag ((t, d) ∷ items) = if t == tag then without tag items else (t, d) ∷ without tag items

pub items_bytes-append :
    (xs ys : List Item) → items_bytes (xs ++ ys) ≡ items_bytes xs ++ items_bytes ys
items_bytes-append [] ys = refl
items_bytes-append ((t, d) ∷ xs) ys =
    ap (◌++◌ (item_bytes t d)) (items_bytes-append xs ys)
    ∙ sym (append_assoc (item_bytes t d) (items_bytes xs) (items_bytes ys))

-- The first item of a tag, with the items before and behind it.
record Found (items : List Item) (at tag : ℕ) : Type 0 where
  before : List Item
  bytes : List ℕ
  behind : List Item
  parts : items ≡ before ++ ((tag, bytes) ∷ behind)
  place : locate items at tag 0 ≡ some (at + length (items_bytes before) + 8, length bytes)
  others : without tag items ≡ without tag (before ++ behind)

find_first :
    (items : List Item) (at tag : ℕ)
    → ((locate items at tag 0 ≡ none) × (without tag items ≡ items)) ⊎ Found items at tag
unfolding locate without
find_first [] at tag = inl (refl, refl)
find_first ((t, d) ∷ items) at tag = elim (Bool-cases (t == tag)) [
  | inl e ↦ inr (record {
    before = [];
    bytes = d;
    behind = items;
    parts = ap (λ n. (n, d) ∷ items) ((==_iff _ _).0 e);
    place = ground arith;
    others = rw e refl;
  })
  | inr e ↦ elim (find_first items (at + length (item_bytes t d)) tag) [
    | inl (p, q) ↦ inl (rw e p, rw e (ap (◌∷◌ (t, d)) q))
    | inr f ↦ inr (record {
      before = (t, d) ∷ f.before;
      bytes = f.bytes;
      behind = f.behind;
      parts = ap (◌∷◌ (t, d)) f.parts;
      place = rw e (
          f.place
          ∙ ap (λ n. some (n, length f.bytes))
              (omega (arith, length-append (item_bytes t d) (items_bytes f.before))));
      others = rw e (ap (◌∷◌ (t, d)) f.others);
    })
  ]
]

AreItems-parts :
    (xs ys : List Item) (t : ℕ) (d : List ℕ)
    → AreItems (xs ++ ((t, d) ∷ ys))
    → AreItems (xs ++ ys) × IsItem (t, d)
AreItems-parts [] ys t d (v, vs) = (vs, v)
AreItems-parts ((t', d') ∷ xs) ys t d (v, vs) =
    let (w, i) = AreItems-parts xs ys t d vs in ((v, w), i)

-- Moving the bytes behind an item to its place leaves the other items.
removed :
    (xs ys : List Item) (t : ℕ) (d s : List ℕ)
    → length d < 2 ^ 32 - 16
    → s ≡ items_bytes (xs ++ ((t, d) ∷ ys))
    → (take (length (items_bytes xs)) s ++ drop (length (items_bytes xs) + align8 (length d + 8)) s
        ≡ items_bytes (xs ++ ys))
      × (length (items_bytes (xs ++ ys)) < length s)
removed xs ys t d s h e = (
  ap₂ ◌++◌ (ap (take (length (items_bytes xs))) whole ∙ take-append (items_bytes xs) _) (
        ap (drop (length (items_bytes xs) + align8 (length d + 8))) whole
        ∙ sym (drop_more (length (items_bytes xs)) (align8 (length d + 8)) _)
        ∙ ap (drop (align8 (length d + 8))) (drop-append (items_bytes xs) _)
        ∙ ap (λ n. drop n (item_bytes t d ++ items_bytes ys)) size
        ∙ drop-append (item_bytes t d) (items_bytes ys))
      ∙ sym (items_bytes-append xs ys),
  omega (
    arith,
    ap length whole,
    ap length (items_bytes-append xs ys),
    length-append (items_bytes xs) (items_bytes ys),
    length-append (items_bytes xs) (item_bytes t d ++ items_bytes ys),
    length-append (item_bytes t d) (items_bytes ys),
    length-item_bytes t d h,
  ),
)
  where
    whole : s ≡ items_bytes xs ++ (item_bytes t d ++ items_bytes ys)
    whole = e ∙ items_bytes-append xs ((t, d) ∷ ys)

    size : align8 (length d + 8) ≡ length (item_bytes t d)
    size = omega (arith, length-item_bytes t d h)

get-locate :
    (items : List Item) (tag : ℕ)
    → AreItems items
    → inode_get_tagged_item (some (items_bytes items)) tag 0 ≡ locate items 0 tag 0
unfolding inode_get_tagged_item
get-locate items tag v = get_loop-locate items _ 0 tag 0 v (omega arith)

remove_loop-without :
    (fuel : ℕ) (items : List Item) (tag : ℕ)
    → AreItems items
    → length (items_bytes items) < fuel
    → remove_loop fuel (some (items_bytes items)) tag ≡ some (items_bytes (without tag items))
unfolding remove_loop
remove_loop-without zero items tag v h = absurd (omega arith)
remove_loop-without (suc fuel) items tag v h = elim (find_first items 0 tag) [
  | inl (p, q) ↦
      rw (get-locate items tag v ∙ p, remove_loop) (ap (λ s. some (items_bytes s)) (sym q))
  | inr f ↦
      let (vs, i) = AreItems-parts f.before f.behind tag f.bytes (subst AreItems f.parts v) in
      let (r, less) =
        removed f.before f.behind tag f.bytes (items_bytes items) i.1 (ap items_bytes f.parts) in
      rw (get-locate items tag v ∙ f.place, remove_loop)
        (ap
            (λ n.
              remove_loop fuel
                (some (
                  take n (items_bytes items)
                  ++ drop (n + align8 (length f.bytes + 8)) (items_bytes items)))
                tag)
            (here f.before)
          ∙ ap (λ s. remove_loop fuel (some s) tag) r
          ∙ remove_loop-without fuel (f.before ++ f.behind) tag vs (omega arith)
          ∙ ap (λ s. some (items_bytes s)) (sym f.others))
]
  where
    here : (xs : List Item) → 0 + length (items_bytes xs) + 8 - 8 ≡ length (items_bytes xs)
    here xs = omega arith

items_bytes_aligned : (items : List Item) → AreItems items → length (items_bytes items) % 8 ≡ 0
items_bytes_aligned [] v = refl
items_bytes_aligned ((t, d) ∷ items) (v, vs) = omega (
  arith,
  length-append (item_bytes t d) (items_bytes items),
  length-item_bytes t d v.1,
  items_bytes_aligned items vs,
)

without-AreItems : (tag : ℕ) (items : List Item) → AreItems items → AreItems (without tag items)
unfolding without
without-AreItems tag [] v = tt
without-AreItems tag ((t, d) ∷ items) (v, vs) =
    let rest = without-AreItems tag items vs in
    elim (Bool-cases (t == tag)) [ inl e ↦ rw e rest | inr e ↦ rw e (v, rest) ]

-- Adding an item to a list of items: the assertion holds, and the item has its place.
inode_add-append :
    (items : List Item) (tag : ℕ) (bytes : List ℕ)
    → AreItems items
    → length bytes + 7 < 2 ^ 32
    → (inode_add_tagged_item true (some (items_bytes items)) tag bytes
        ≡ returns (some (items_bytes (items ++ ((tag, bytes) ∷ [])))))
      × (inode_add_tagged_item false (some (items_bytes items)) tag bytes ≡ returns none)
unfolding inode_add_tagged_item item_bytes
inode_add-append items tag bytes v short = (
  rw (aligned, enough)
      (ap (λ s. returns (some s))
        (ap (◌++◌ (items_bytes items)) (sym (append-nil (item_bytes tag bytes)))
          ∙ sym (items_bytes-append items ((tag, bytes) ∷ [])))),
  rw aligned refl,
)
  where
    aligned : (length (items_bytes items) % 8 == 0) ≡ true
    aligned = ground (arith, items_bytes_aligned items v)

    enough : ltb (align8 (length bytes)) (length bytes + padding (length bytes)) ≡ false
    enough = ground (arith, padded (length bytes) short)

-- The aligned length of the longest data wraps around to 0.
inode_add_overflows :
    (items : List Item) (tag : ℕ) (bytes : List ℕ)
    → AreItems items
    → 2 ^ 32 ≤ length bytes + 7
    → length bytes < 2 ^ 32
    → inode_add_tagged_item true (some (items_bytes items)) tag bytes ≡ overflows
unfolding inode_add_tagged_item
inode_add_overflows items tag bytes v long fits =
    let aligned : (length (items_bytes items) % 8 == 0) ≡ true =
      ground (arith, items_bytes_aligned items v) in
    let beyond : ltb (align8 (length bytes)) (length bytes + padding (length bytes)) ≡ true =
      ground (arith, long, fits) in
    rw (aligned, beyond) refl

-- Setting an item with data of at most 2 ^ 32 - 8 bytes removes every item of its tag, keeps the others
-- in their order, and puts the new one at the end, where no assertion fails and no byte is stored
-- outside the memory; without memory for it the old items of the tag are gone all the same.
pub inode_set-without :
    (items : List Item) (tag : ℕ) (bytes : List ℕ)
    → AreItems items
    → length bytes + 7 < 2 ^ 32
    → (inode_set_tagged_item true (some (items_bytes items)) tag bytes
        ≡ returns (some (items_bytes (without tag items ++ ((tag, bytes) ∷ []))), true))
      × (inode_set_tagged_item false (some (items_bytes items)) tag bytes
          ≡ returns (some (items_bytes (without tag items)), false))
unfolding inode_set_tagged_item
inode_set-without items tag bytes v short =
    let (stored, no_memory) =
      inode_add-append (without tag items) tag bytes (without-AreItems tag items v) short in
    let gone = remove_loop-without (suc (length (items_bytes items))) items tag v (omega arith) in
    rw (gone, stored, no_memory, inode_set_tagged_item)
      (refl, ap (λ rest. returns (rest, false)) gone)
