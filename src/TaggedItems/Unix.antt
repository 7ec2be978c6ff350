-- ===== src/TaggedItems/Unix.antt =====
-- The standard UNIX metadata of an inode, in a tagged item: src/tagged_items.c and
-- include/wimlib/unix_data.h.
use wimlib.Common.{
  ℕ, ◌+◌, Bool, true, false, List, ◌++◌, length, take, drop, replicate, ◌==◌, if◌then◌else◌, Option,
  none, some,
}
use wimlib.Common.Bytes.{put_le, get_le}
use wimlib.TaggedItems.{
  Outcome, returns, overflows, aborts, inode_get_tagged_item, inode_add_tagged_item, old_items,
}
use Prim.Native.Nat.{bit_and}

abbrev pub tag_wimlib_unix_data : ℕ
tag_wimlib_unix_data = 0x337DD873

pub record UnixData : Type 0 where
  pub uid : ℕ
  pub gid : ℕ
  pub mode : ℕ
  pub rdev : ℕ

-- The offset of the data.
pub inode_get_unix_data_disk : Option (List ℕ) → Option ℕ
inode_get_unix_data_disk extra = elim (inode_get_tagged_item extra tag_wimlib_unix_data 16) [
  | none ↦ none
  | some (p, len) ↦ some p
]

pub inode_has_unix_data : Option (List ℕ) → Bool
inode_has_unix_data extra = elim (inode_get_unix_data_disk extra) [ none ↦ false | some p ↦ true ]

-- The field at an offset of the data.
abbrev pub le32_at : List ℕ → ℕ → ℕ
le32_at s p = get_le (take 4 (drop p s))

pub inode_get_unix_data : Option (List ℕ) → Option UnixData
inode_get_unix_data extra =
    let s = old_items extra in
    elim (inode_get_unix_data_disk extra) [
      | none ↦ none
      | some p ↦ some (record {
        uid = le32_at s p;
        gid = le32_at s (p + 4);
        mode = le32_at s (p + 8);
        rdev = le32_at s (p + 12);
      })
    ]

-- One assignment: the value is stored if its flag is set.
pub store_if : ℕ → ℕ → ℕ → ℕ → List ℕ → List ℕ
store_if which flag p value s =
    if bit_and which flag == 0 then s else take p s ++ (put_le 4 value ++ drop (p + 4) s)

pub store_unix_data : ℕ → ℕ → UnixData → List ℕ → List ℕ
store_unix_data which p d s =
    store_if which 8 (p + 12) d.rdev (
      store_if which 4 (p + 8) d.mode (store_if which 2 (p + 4) d.gid (store_if which 1 p d.uid s)))

-- The bytes of a new item, which are not initialised, are zeros here; UNIX_DATA_ALL sets all of them.
pub inode_set_unix_data : Bool → Option (List ℕ) → UnixData → ℕ → Outcome (Option (List ℕ) × Bool)
inode_set_unix_data memory extra unix_data which = elim (inode_get_unix_data_disk extra) [
  | some p ↦ returns (some (store_unix_data which p unix_data (old_items extra)), true)
  | none ↦ elim (inode_add_tagged_item memory extra tag_wimlib_unix_data (replicate 16 0)) [
    | aborts ↦ aborts
    | overflows ↦ overflows
    | returns none ↦ returns (extra, false)
    | returns (some s) ↦
        returns (some (store_unix_data 15 (length (old_items extra) + 8) unix_data s), true)
  ]
]
