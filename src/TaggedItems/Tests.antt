-- ===== src/TaggedItems/Tests.antt =====
-- The theorems on src/tagged_items.c at two items of different tags.
use wimlib.Common.{◌≡◌, ◌++◌, List, [], ◌∷◌, some, true, false, arith}
use mathlib.Core.Option
use wimlib.TaggedItems.{returns, inode_get_tagged_item, inode_set_tagged_item}
use wimlib.TaggedItems.Items.{Item, AreItems, items_bytes}
use wimlib.TaggedItems.Get.{data_at, first_data, inode_get-first_data}
use wimlib.TaggedItems.Set.{without, inode_set-without}

abbrev two : List Item
two = (1, 10 ∷ 11 ∷ 12 ∷ []) ∷ (0x337DD873, 20 ∷ []) ∷ []

two-AreItems : AreItems two
two-AreItems = ground arith

inode_get-first_data_example :
    Option.map
      (data_at (items_bytes two))
      (inode_get_tagged_item (some (items_bytes two)) 0x337DD873 1)
    ≡ first_data two 0x337DD873 1
inode_get-first_data_example = inode_get-first_data two 0x337DD873 1 two-AreItems

inode_set-without_example :
    (inode_set_tagged_item true (some (items_bytes two)) 1 (30 ∷ [])
      ≡ returns (some (items_bytes (without 1 two ++ ((1, 30 ∷ []) ∷ []))), true))
    × (inode_set_tagged_item false (some (items_bytes two)) 1 (30 ∷ [])
        ≡ returns (some (items_bytes (without 1 two)), false))
inode_set-without_example = inode_set-without two 1 (30 ∷ []) two-AreItems (omega arith)
