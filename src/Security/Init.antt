-- ===== src/Security/Init.antt =====
-- The set that src/security.c makes of the descriptors that an image has.
use wimlib.Common.{
  ℕ, ◌+◌, ◌≤◌, ◌<◌, ◌^◌, ◌≡◌, refl, ap, sym, ◌∙◌, Bool, true, false, List, [], ◌∷◌, ◌++◌, length,
  take, get_or, if◌then◌else◌, arith, Option, none, some, subst, length-append, append_assoc,
  append-nil,
}
use wimlib.Sha1.{hashes_equal, hashes_equal→eq}
use wimlib.Security.{SecurityData}
use wimlib.Security.SdIndex.{SdIndex, init_loop, init_sd_set, IsSdSet}
use wimlib.Security.SdSet.{get_or_front, get_or_last, all_taken, some_id}

module _ (sha1 : List ℕ → List ℕ) (index : SdIndex) where
  -- The IDs of the tree are those of the first entries.
  record IsIndex (root : index.Tree) (ds : List (List ℕ)) : Type 0 where
    pub tree : index.IsTree root
    pub found :
        (hash : List ℕ) (id : ℕ)
        → index.lookup root hash ≡ some id
        → (id < length ds) × (sha1 (get_or ds id []) ≡ hash)

  insert-IsIndex :
      (root : index.Tree) (ds : List (List ℕ)) (d : List ℕ)
      → IsIndex root ds
      → IsIndex (index.insert root (sha1 d) (length ds)) (ds ++ (d ∷ []))
  insert-IsIndex root ds d v = record {
    tree = index.insert-IsTree root (sha1 d) (length ds) v.tree;
    found = λ hash id e.
        by_hash hash id (hashes_equal hash (sha1 d)) refl (index.lookup root (sha1 d)) refl
          (sym (index.lookup-insert root (sha1 d) hash (length ds) v.tree) ∙ e);
  }
    where
      size : length (ds ++ (d ∷ [])) ≡ length ds + 1
      size = length-append ds (d ∷ [])

      kept :
          (hash : List ℕ) (id : ℕ)
          → (id < length ds) × (sha1 (get_or ds id []) ≡ hash)
          → (id < length (ds ++ (d ∷ []))) × (sha1 (get_or (ds ++ (d ∷ [])) id []) ≡ hash)
      kept hash id (below, same) =
          (omega (arith, size), ap sha1 (get_or_front ds (d ∷ []) id below) ∙ same)

      by_hash :
          (hash : List ℕ) (id : ℕ) (b : Bool)
          → hashes_equal hash (sha1 d) ≡ b
          → (o : Option ℕ) → index.lookup root (sha1 d) ≡ o
          → (if b
              then elim o [ none ↦ some (length ds) | some old ↦ some old ]
              else index.lookup root hash)
            ≡ some id
          → (id < length (ds ++ (d ∷ []))) × (sha1 (get_or (ds ++ (d ∷ [])) id []) ≡ hash)
      by_hash hash id false h o l e = kept hash id (v.found hash id e)
      by_hash hash id true h (some old) l e =
          kept hash id
            (v.found hash id (ap (index.lookup root) (hashes_equal→eq hash (sha1 d) h) ∙ l ∙ e))
      by_hash hash id true h none l e =
          let last = some_id e in
          (
            omega (arith, size, last),
            ap sha1 (get_or_last ds d id (sym last)) ∙ sym (hashes_equal→eq hash (sha1 d) h),
          )

  init_loop-IsIndex :
      (root : index.Tree) (ds rest : List (List ℕ))
      → IsIndex root ds
      → IsIndex (init_loop sha1 index root (length ds) rest) (ds ++ rest)
  unfolding init_loop
  init_loop-IsIndex root ds [] v = subst (IsIndex root) (sym (append-nil ds)) v
  init_loop-IsIndex root ds (d ∷ rest) v =
      let one : length (ds ++ (d ∷ [])) ≡ length ds + 1 = length-append ds (d ∷ []) in
      subst
        (λ n.
          IsIndex (init_loop sha1 index (index.insert root (sha1 d) (length ds)) n rest)
            (ds ++ (d ∷ rest)))
        one
        (subst (IsIndex _) (append_assoc ds (d ∷ []) rest) (
          init_loop-IsIndex (index.insert root (sha1 d) (length ds)) (ds ++ (d ∷ [])) rest
            (insert-IsIndex root ds d v)))

  no_id : (id : ℕ) → ◌≡◌ {A = Option ℕ} none (some id) → ⊥
  no_id id e = cc

  -- `init_sd_set` makes a well-formed set of the descriptors of an image.
  pub init_sd_set-IsSdSet :
      (sd : SecurityData)
      → sd.num_entries ≡ length sd.descriptors
      → sd.num_entries ≤ 2 ^ 31
      → IsSdSet sha1 index (init_sd_set sha1 index sd)
  unfolding init_sd_set
  init_sd_set-IsSdSet sd counted few =
      let all = all_taken sd.descriptors sd.num_entries counted in
      let v : IsIndex (init_sd_set sha1 index sd).root (take sd.num_entries sd.descriptors) =
        init_loop-IsIndex index.empty [] (take sd.num_entries sd.descriptors) (record {
          tree = index.empty-IsTree;
          found = λ hash id e. absurd (no_id id (sym (index.lookup-empty hash) ∙ e));
        }) in
      record {
        counted = counted;
        indexed = v.tree;
        few = few;
        found = λ hash id e.
            let (below, same) = v.found hash id e in
            (
              omega (arith, below, counted, ap length all),
              ap (λ (xs : List (List ℕ)). sha1 (get_or xs id [])) (sym all) ∙ same,
            );
      }
