-- ===== src/TaggedItems.antt =====
-- src/tagged_items.c: the tagged metadata items of an inode, and the standard UNIX metadata kept in
-- one of them. The bytes of `i_extra->data` are a list, whose length is `i_extra->size`; `none` is a
-- null `i_extra`. A pointer to an item's data is its offset in the list.
pub mod Items
pub mod Get
pub mod Set
pub mod Unix
mod Tests
use wimlib.Common.{
  ℕ, zero, suc, ◌+◌, ◌-◌, ◌*◌, ◌/◌, ◌%◌, ◌^◌, ◌≤◌, ◌<◌, Bool, true, false, ◌&&◌, ◌||◌, not, List,
  [], ◌∷◌, ◌++◌, length, take, drop, replicate, ltb, leb, ◌==◌, if◌then◌else◌, Option, none, some,
}
use wimlib.Common.Bytes.{put_le, get_le}
use Prim.Native.Nat.{bit_and}

abbrev pub u32_mod : ℕ
u32_mod = 2 ^ 32

-- `ALIGN(n, 8)` of a `u32`
abbrev pub align8 : ℕ → ℕ
align8 n = (n + 7) % u32_mod / 8 * 8

-- `hdr->tag` and `hdr->length`
abbrev pub item_tag : List ℕ → ℕ
item_tag s = get_le (take 4 s)

abbrev pub item_length : List ℕ → ℕ
item_length s = get_le (take 4 (drop 4 s))

abbrev pub item_full_length : ℕ → ℕ
item_full_length len = (8 + align8 len) % u32_mod

-- The loop over the items from offset `at` on; the result is the offset of the data, and the length.
-- Each round passes 8 bytes at least.
pub get_loop : ℕ → List ℕ → ℕ → ℕ → ℕ → Option (ℕ × ℕ)
get_loop zero s at tag min_len = none
get_loop (suc fuel) s at tag min_len =
    let len = item_length s in
    let full_len = item_full_length len in
    let rest = get_loop fuel (drop full_len s) (at + full_len) tag min_len in
    if ltb (length s) (8 + min_len)
    then none
    else if ltb full_len len || ltb (length s) full_len
    then none
    else if item_tag s == tag && leb min_len len
    then some (at + 8, len)
    else rest

pub inode_get_tagged_item : Option (List ℕ) → ℕ → ℕ → Option (ℕ × ℕ)
inode_get_tagged_item none tag min_len = none
inode_get_tagged_item (some s) tag min_len = get_loop (suc (length s)) s 0 tag min_len

-- The old items, empty for a null `i_extra`.
abbrev pub old_items : Option (List ℕ) → List ℕ
old_items none = []
old_items (some s) = s

-- `-len & 7`
abbrev pub padding : ℕ → ℕ
padding len = bit_and (u32_mod - len % u32_mod) 7

-- How a call ends: it returns, it stores bytes behind the end of the memory it has, or the program
-- ends at a failed assertion.
pub data Outcome {ℓ} (A : Type ℓ) : Type ℓ where
  returns : A → Outcome A
  overflows aborts : Outcome A

-- The header, the data that the caller stores through the returned pointer, whose length is a `u32`,
-- and the padding, in memory for the header and for the aligned length. `memory` says whether
-- REALLOC succeeds.
pub inode_add_tagged_item : Bool → Option (List ℕ) → ℕ → List ℕ → Outcome (Option (List ℕ))
inode_add_tagged_item memory extra tag bytes =
    let len = length bytes in
    if not (length (old_items extra) % 8 == 0)
    then aborts
    else if not memory
    then returns none
    else if ltb (align8 len) (len + padding len)
    then overflows
    else returns (
        some (
          old_items extra
          ++ (put_le 4 tag ++ (put_le 4 len ++ (bytes ++ replicate (padding len) 0)))))

-- The loop that removes the items of a tag: the bytes behind an item are moved to its place.
pub remove_loop : ℕ → Option (List ℕ) → ℕ → Option (List ℕ)
remove_loop zero extra tag = extra
remove_loop (suc fuel) extra tag = elim (inode_get_tagged_item extra tag 0) [
  | none ↦ extra
  | some (p, old_len) ↦
      let s = old_items extra in
      remove_loop fuel (some (take (p - 8) s ++ drop (p - 8 + align8 (old_len + 8)) s)) tag
]

-- The new `i_extra`, and whether the function succeeded.
pub inode_set_tagged_item : Bool → Option (List ℕ) → ℕ → List ℕ → Outcome (Option (List ℕ) × Bool)
inode_set_tagged_item memory extra tag bytes =
    let rest = remove_loop (suc (length (old_items extra))) extra tag in
    elim (inode_add_tagged_item memory rest tag bytes) [
      | aborts ↦ aborts
      | overflows ↦ overflows
      | returns none ↦ returns (rest, false)
      | returns (some s) ↦ returns (some s, true)
    ]
