-- ===== src/Security/Tests.antt =====
-- src/security.c on two descriptors, one of them empty.
use wimlib.Common.{ℕ, List, none, if◌then◌else◌, some, ◌≡◌, refl, true, [], ◌∷◌, ◌++◌, arith}
use wimlib.Error.{ok}
use wimlib.Security.{
  SecurityData, read_wim_security_data, read_entries, read_sizes, read_descriptors,
  write_wim_security_data, write_sizes, write_descriptors,
}
use wimlib.Security.Bounds.{IsWithin, sum, read_wim_security_data-IsWithin}
use wimlib.Security.Entries.{Sized}
use wimlib.AvlTree.{
  leaf, Tree, node, even, avl_tree_lookup_node, avl_tree_insert, insert_loop,
  avl_tree_rebalance_after_insert,
}
use wimlib.Sha1.{hashes_equal}
use wimlib.Security.Tree.{
  sd_tree, IsDigestTree, lookup_sd, insert_sd_node, lookup_sd-insert_sd_node,
}
use wimlib.Security.Init.{init_sd_set-IsSdSet}
use wimlib.Security.SdSet.{IsGrown, sd_set_add_sd-IsGrown}
use wimlib.Security.SdIndex.{SdSet, IsSdSet, add_entry, init_sd_set, init_loop, sd_set_add_sd}
use wimlib.Security.RoundTrip.{IsWritable, read-write_wim_security_data}

abbrev two_descriptors : SecurityData
two_descriptors = record {
  total_length = 32;
  num_entries = 2;
  sizes = 3 ∷ 0 ∷ [];
  descriptors = (1 ∷ 2 ∷ 3 ∷ []) ∷ [] ∷ [];
}

two_descriptors-IsWritable : IsWritable two_descriptors
unfolding Sized sum
two_descriptors-IsWritable = record {
  sized = (refl, (refl, tt));
  counted = refl;
  few = omega arith;
  total = refl;
  limit = omega arith;
}

read-write_wim_security_data_example :
    read_wim_security_data (λ i. true) (write_wim_security_data two_descriptors 16 ++ (9 ∷ []))
    ≡ ok two_descriptors
read-write_wim_security_data_example =
    read-write_wim_security_data (λ i. true) (λ i. refl) two_descriptors 16 (9 ∷ [])
      two_descriptors-IsWritable refl

read_wim_security_data-IsWithin_example :
    IsWithin (write_wim_security_data two_descriptors 0) two_descriptors
unfolding read_wim_security_data read_entries read_sizes read_descriptors write_wim_security_data
    write_sizes write_descriptors
read_wim_security_data-IsWithin_example =
    read_wim_security_data-IsWithin (λ i. true) (write_wim_security_data two_descriptors 0)
      two_descriptors refl

-- With a digest that keeps the bytes themselves.
abbrev empty_set : SdSet (λ d. d) sd_tree
empty_set =
    init_sd_set (λ d. d) sd_tree
      (record { total_length = 8; num_entries = 0; sizes = []; descriptors = [] })

empty_set-IsSdSet : IsSdSet (λ d. d) sd_tree empty_set
empty_set-IsSdSet =
    init_sd_set-IsSdSet (λ d. d) sd_tree
      (record { total_length = 8; num_entries = 0; sizes = []; descriptors = [] }) refl
      (omega arith)

abbrev one_entry : SdSet (λ d. d) sd_tree
one_entry = (sd_set_add_sd (λ d. d) sd_tree (λ i. true) empty_set (1 ∷ 2 ∷ [])).0

one_entry-IsSdSet : IsSdSet (λ d. d) sd_tree one_entry
unfolding init_sd_set
one_entry-IsSdSet =
    (sd_set_add_sd-IsGrown (λ d. d) sd_tree (λ i. true) empty_set (1 ∷ 2 ∷ []) empty_set-IsSdSet
      (omega arith)).valid

sd_set_add_sd-IsGrown_example :
    IsGrown
      (λ d. d)
      sd_tree
      (λ i. true)
      one_entry
      (3 ∷ [])
      (sd_set_add_sd (λ d. d) sd_tree (λ i. true) one_entry (3 ∷ []))
unfolding sd_set_add_sd add_entry init_sd_set init_loop avl_tree_lookup_node
sd_set_add_sd-IsGrown_example =
    sd_set_add_sd-IsGrown (λ d. d) sd_tree (λ i. true) one_entry (3 ∷ []) one_entry-IsSdSet
      (omega arith)

-- The second time, the same ID is returned.
same_id : (sd_set_add_sd (λ d. d) sd_tree (λ i. true) one_entry (1 ∷ 2 ∷ [])).1 ≡ some 0
unfolding sd_set_add_sd add_entry init_sd_set init_loop avl_tree_lookup_node avl_tree_insert
    insert_loop avl_tree_rebalance_after_insert
same_id = refl

abbrev one_digest : Tree (List ℕ) ℕ
one_digest = node leaf (5 ∷ []) 0 even leaf

one_digest-IsDigestTree : IsDigestTree one_digest
one_digest-IsDigestTree = ((tt, tt, refl), (tt, tt))

lookup_sd-insert_sd_node_example : lookup_sd (insert_sd_node one_digest (3 ∷ []) 1) (3 ∷ []) ≡ (
    if hashes_equal (3 ∷ []) (3 ∷ [])
    then elim (lookup_sd one_digest (3 ∷ [])) [ none ↦ some 1 | some old ↦ some old ]
    else lookup_sd one_digest (3 ∷ []))
lookup_sd-insert_sd_node_example =
    lookup_sd-insert_sd_node one_digest (3 ∷ []) (3 ∷ []) 1 one_digest-IsDigestTree
