-- ===== src/Security/SdIndex.antt =====
-- The set of src/security.c that finds a descriptor by its digest. What it asks of its tree is an interface,
-- which the tree of src/avl_tree.c fills in Security/Tree, and `sha1` is a function of the bytes.
use wimlib.Common.{
  ℕ, ◌+◌, ◌≤◌, ◌<◌, ◌^◌, ◌≡◌, Bool, ◌&&◌, List, [], ◌∷◌, ◌++◌, length, take, get_or, ltb,
  if◌then◌else◌, Option, none, some,
}
use wimlib.Sha1.{hashes_equal}
use wimlib.Security.{SecurityData}

-- The nodes are compared by their digests; a node with a digest that is there is not inserted.
pub record SdIndex : Type 1 where
  pub Tree : Type 0
  pub IsTree : Tree → Type 0
  pub empty : Tree
  pub lookup : Tree → List ℕ → Option ℕ
  pub insert : Tree → List ℕ → ℕ → Tree
  pub empty-IsTree : IsTree empty
  pub insert-IsTree : (t : Tree) (new : List ℕ) (id : ℕ) → IsTree t → IsTree (insert t new id)
  pub lookup-empty : (hash : List ℕ) → lookup empty hash ≡ none
  pub lookup-insert :
      (t : Tree) (new hash : List ℕ) (id : ℕ)
      → IsTree t
      → lookup (insert t new id) hash ≡ (
          if hashes_equal hash new
          then elim (lookup t new) [ none ↦ some id | some old ↦ some old ]
          else lookup t hash)

module _ (sha1 : List ℕ → List ℕ) (index : SdIndex) where
  -- struct wim_sd_set
  pub record SdSet : Type 0 where
    pub sd : SecurityData
    pub root : index.Tree
    pub orig_num_entries : ℕ

  -- The new entry, where it is all allocated: the node, the copy and both arrays.
  unfoldable pub add_entry : SdSet → List ℕ → SdSet
  add_entry set descriptor =
      let n = set.sd.num_entries in
      record set {
        sd = record set.sd {
          num_entries = n + 1;
          sizes = take n set.sd.sizes ++ (length descriptor ∷ []);
          descriptors = take n set.sd.descriptors ++ (descriptor ∷ []);
        };
        root = index.insert set.root (sha1 descriptor) n;
      }

  -- The security ID, or `none` for -1; an ID is a signed integer of 32 bits.
  unfoldable pub sd_set_add_sd : (memory : ℕ → Bool) → SdSet → List ℕ → SdSet × Option ℕ
  sd_set_add_sd memory set descriptor =
      let n = set.sd.num_entries in
      let add =
        if memory 0 && memory 1 && memory 2 && memory 3
        then (add_entry set descriptor, some n)
        else (set, none) in
      elim (index.lookup set.root (sha1 descriptor)) [
        | none ↦ add
        | some id ↦ if ltb id (2 ^ 31) then (set, some id) else add
      ]

  -- The loop of `init_sd_set`, from entry `i` on.
  unfoldable pub init_loop : index.Tree → ℕ → List (List ℕ) → index.Tree
  init_loop root i [] = root
  init_loop root i (d ∷ ds) = init_loop (index.insert root (sha1 d) i) (i + 1) ds

  unfoldable pub init_sd_set : SecurityData → SdSet
  init_sd_set sd = record {
    sd = sd;
    root = init_loop index.empty 0 (take sd.num_entries sd.descriptors);
    orig_num_entries = sd.num_entries;
  }

  pub rollback_new_security_descriptors : SdSet → SdSet
  rollback_new_security_descriptors set = record set {
    sd = record set.sd {
      num_entries = set.orig_num_entries;
      descriptors = take set.orig_num_entries set.sd.descriptors;
    };
  }

  -- The entry of an ID has the digest.
  abbrev pub IsId : SdSet → List ℕ → ℕ → Type 0
  IsId set hash id = (id < set.sd.num_entries) × (sha1 (get_or set.sd.descriptors id []) ≡ hash)

  pub record IsSdSet (set : SdSet) : Type 0 where
    pub counted : set.sd.num_entries ≡ length set.sd.descriptors
    pub indexed : index.IsTree set.root
    pub few : set.sd.num_entries ≤ 2 ^ 31
    pub found : (hash : List ℕ) (id : ℕ) → index.lookup set.root hash ≡ some id → IsId set hash id
