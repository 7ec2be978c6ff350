-- ===== src/Security/Tree.antt =====
-- The index of src/security.c's descriptors by their digests is the tree of src/avl_tree.c.
use wimlib.Common.{ℕ, ◌≡◌, ap, ◌∙◌, List, Option, none, some, if◌then◌else◌, arith}
use wimlib.Sha1.{hashes_equal, hashes_cmp}
use wimlib.Sha1.Digests.{hashes_equal-hashes_cmp, hashes_cmp-IsTotalOrder}
use wimlib.AvlTree.{Tree, leaf, avl_tree_lookup_node, avl_tree_insert}
use wimlib.AvlTree.Entries.{entries}
use wimlib.AvlTree.Heights.{IsAvl}
use wimlib.AvlTree.Sorted.{IsSorted, find, find-insert}
use wimlib.AvlTree.Insert.{lookup-find, avl_tree_insert-IsInserted}
use wimlib.Security.SdIndex.{SdIndex}

abbrev pub IsDigestTree : Tree (List ℕ) ℕ → Type 0
IsDigestTree t = IsAvl t × IsSorted hashes_cmp (entries t)

abbrev pub lookup_sd : Tree (List ℕ) ℕ → List ℕ → Option ℕ
lookup_sd root hash = avl_tree_lookup_node hashes_cmp root hash

abbrev pub insert_sd_node : Tree (List ℕ) ℕ → List ℕ → ℕ → Tree (List ℕ) ℕ
insert_sd_node root hash id = (avl_tree_insert hashes_cmp root hash id).0

pub insert_sd_node-IsDigestTree :
    (t : Tree (List ℕ) ℕ) (new : List ℕ) (id : ℕ)
    → IsDigestTree t
    → IsDigestTree (insert_sd_node t new id)
insert_sd_node-IsDigestTree t new id (a, s) =
    let done = avl_tree_insert-IsInserted hashes_cmp hashes_cmp-IsTotalOrder t new id a s in
    (done.balanced, done.sorted)

-- In an AVL tree with its digests in order, a digest is found after `insert_sd_node` under the ID that it
-- had, or else, where it is the new one, under the new ID.
pub lookup_sd-insert_sd_node :
    (t : Tree (List ℕ) ℕ) (new hash : List ℕ) (id : ℕ)
    → IsDigestTree t
    → lookup_sd (insert_sd_node t new id) hash ≡ (
        if hashes_equal hash new
        then elim (lookup_sd t new) [ none ↦ some id | some old ↦ some old ]
        else lookup_sd t hash)
lookup_sd-insert_sd_node t new hash id (a, s) =
    let done = avl_tree_insert-IsInserted hashes_cmp hashes_cmp-IsTotalOrder t new id a s in
    lookup-find hashes_cmp hashes_cmp-IsTotalOrder (insert_sd_node t new id) hash done.sorted
    ∙ ap (λ xs. find hashes_cmp xs hash) done.items
    ∙ find-insert hashes_cmp hashes_cmp-IsTotalOrder (entries t) new hash id s
    ∙ ground (
      arith,
      hashes_equal-hashes_cmp hash new,
      lookup-find hashes_cmp hashes_cmp-IsTotalOrder t new s,
      lookup-find hashes_cmp hashes_cmp-IsTotalOrder t hash s,
    )

pub lookup_sd_leaf : (hash : List ℕ) → lookup_sd leaf hash ≡ none
lookup_sd_leaf hash = lookup-find hashes_cmp hashes_cmp-IsTotalOrder leaf hash tt

abbrev pub sd_tree : SdIndex
sd_tree = record {
  Tree = Tree (List ℕ) ℕ;
  IsTree = IsDigestTree;
  empty = leaf;
  lookup = lookup_sd;
  insert = insert_sd_node;
  empty-IsTree = (tt, tt);
  insert-IsTree = insert_sd_node-IsDigestTree;
  lookup-empty = lookup_sd_leaf;
  lookup-insert = lookup_sd-insert_sd_node;
}
