-- ===== src/Security/SdSet.antt =====
-- Adding a descriptor to the set of src/security.c.
use wimlib.Common.{
  ℕ, zero, suc, ◌≤◌, ◌<◌, ◌^◌, ◌≡◌, refl, ap, sym, ◌∙◌, Bool, true, false, ◌&&◌, List, [], ◌∷◌,
  ◌++◌, length, take, get_or, ltb, if◌then◌else◌, arith, Option, none, some, Bool-cases, inl, inr,
  subst, length-append,
}
use wimlib.Common.Bytes.{take-append}
use wimlib.Sha1.{hashes_equal, hashes_equal→eq, hashes_equal_self}
use wimlib.Security.SdIndex.{SdIndex, SdSet, add_entry, sd_set_add_sd, IsId, IsSdSet}

pub get_or_front :
    (xs ys : List (List ℕ)) (i : ℕ) → i < length xs → get_or (xs ++ ys) i [] ≡ get_or xs i []
get_or_front [] ys i h = absurd (omega arith)
get_or_front (x ∷ xs) ys zero h = refl
get_or_front (x ∷ xs) ys (suc i) h = get_or_front xs ys i (omega arith)

pub get_or_last :
    (xs : List (List ℕ)) (x : List ℕ) (i : ℕ) → i ≡ length xs → get_or (xs ++ (x ∷ [])) i [] ≡ x
get_or_last [] x zero e = refl
get_or_last [] x (suc i) e = absurd (omega (arith, e))
get_or_last (y ∷ xs) x zero e = absurd (omega (arith, e))
get_or_last (y ∷ xs) x (suc i) e = get_or_last xs x i (omega (arith, e))

pub all_taken : (xs : List (List ℕ)) (n : ℕ) → n ≡ length xs → take n xs ≡ xs
all_taken [] zero e = refl
all_taken [] (suc n) e = refl
all_taken (x ∷ xs) zero e = absurd (omega (arith, e))
all_taken (x ∷ xs) (suc n) e = ap (λ s. x ∷ s) (all_taken xs n (omega (arith, e)))

pub some_id : {i j : ℕ} → some i ≡ some j → i ≡ j
some_id e = cc

module _ (sha1 : List ℕ → List ℕ) (index : SdIndex) (set : SdSet sha1 index)
    (v : IsSdSet sha1 index set) (descriptor : List ℕ) where
  kept : take set.sd.num_entries set.sd.descriptors ≡ set.sd.descriptors
  kept = all_taken set.sd.descriptors set.sd.num_entries v.counted

  -- An entry that was there, and the new one.
  old-IsId :
      (hash : List ℕ) (id : ℕ)
      → IsId sha1 index set hash id
      → IsId sha1 index (add_entry sha1 index set descriptor) hash id
  unfolding add_entry
  old-IsId hash id (below, same) = (
    omega arith,
    ap (λ (xs : List (List ℕ)). sha1 (get_or (xs ++ (descriptor ∷ [])) id [])) kept
        ∙ ap sha1
            (get_or_front set.sd.descriptors (descriptor ∷ []) id (omega (arith, below, v.counted)))
        ∙ same,
  )

  new-IsId :
      IsId sha1 index (add_entry sha1 index set descriptor) (sha1 descriptor) set.sd.num_entries
  unfolding add_entry
  new-IsId = (
    omega arith,
    ap (λ (xs : List (List ℕ)). sha1 (get_or (xs ++ (descriptor ∷ [])) set.sd.num_entries [])) kept
        ∙ ap sha1 (get_or_last set.sd.descriptors descriptor set.sd.num_entries v.counted),
  )

  add_entry-IsSdSet :
      set.sd.num_entries < 2 ^ 31
      → index.lookup set.root (sha1 descriptor) ≡ none
      → IsSdSet sha1 index (add_entry sha1 index set descriptor)
  unfolding add_entry
  add_entry-IsSdSet room absent = record {
    counted = size;
    indexed = index.insert-IsTree set.root (sha1 descriptor) set.sd.num_entries v.indexed;
    few = size';
    found = λ hash id e. elim (Bool-cases (hashes_equal hash (sha1 descriptor))) [
      | inl h ↦
          subst (IsId sha1 index (add_entry sha1 index set descriptor) hash)
            (some_id (sym (first hash h) ∙ looked hash id e))
            (subst (λ x. IsId sha1 index (add_entry sha1 index set descriptor) x set.sd.num_entries)
              (sym (hashes_equal→eq hash (sha1 descriptor) h)) new-IsId)
      | inr h ↦ old-IsId hash id (v.found hash id (sym (other hash h) ∙ looked hash id e))
    ];
  }
    where
      size :
          (add_entry sha1 index set descriptor).sd.num_entries
          ≡ length (add_entry sha1 index set descriptor).sd.descriptors
      size = omega (
        arith,
        v.counted,
        ap length kept,
        length-append (take set.sd.num_entries set.sd.descriptors) (descriptor ∷ []),
      )

      size' : (add_entry sha1 index set descriptor).sd.num_entries ≤ 2 ^ 31
      size' = omega (arith, room)

      after : List ℕ → Option ℕ
      after hash =
          if hashes_equal hash (sha1 descriptor)
          then elim (index.lookup set.root (sha1 descriptor)) [
            | none ↦ some set.sd.num_entries
            | some old ↦ some old
          ]
          else index.lookup set.root hash

      looked :
          (hash : List ℕ) (id : ℕ)
          → index.lookup (add_entry sha1 index set descriptor).root hash ≡ some id
          → after hash ≡ some id
      looked hash id e =
          sym (index.lookup-insert set.root (sha1 descriptor) hash set.sd.num_entries v.indexed) ∙ e

      first :
          (hash : List ℕ)
          → hashes_equal hash (sha1 descriptor) ≡ true
          → after hash ≡ some set.sd.num_entries
      first hash h = rw (h, absent) refl

      other :
          (hash : List ℕ)
          → hashes_equal hash (sha1 descriptor) ≡ false
          → after hash ≡ index.lookup set.root hash
      other hash h = rw h refl

module _ (sha1 : List ℕ → List ℕ) (index : SdIndex) (memory : ℕ → Bool) where
  -- What the result says; -1 is returned only where an allocation fails. With an ID that is returned the
  -- descriptor is found from then on.
  abbrev pub IsAdded : List ℕ → SdSet sha1 index → Option ℕ → Type 0
  IsAdded descriptor set none = (memory 0 && memory 1 && memory 2 && memory 3) ≡ false
  IsAdded descriptor set (some id) =
      IsId sha1 index set (sha1 descriptor) id × (index.lookup set.root (sha1 descriptor) ≡ some id)

  -- The entries that were there stay where they are.
  pub record IsGrown (set : SdSet sha1 index) (descriptor : List ℕ)
      (result : SdSet sha1 index × Option ℕ) : Type 0 where
    pub valid : IsSdSet sha1 index result.0
    pub entries : take set.sd.num_entries result.0.sd.descriptors ≡ set.sd.descriptors
    pub id : IsAdded descriptor result.0 result.1

  module _ (set : SdSet sha1 index) (v : IsSdSet sha1 index set) (descriptor : List ℕ) where
    old-IsGrown :
        (id : ℕ)
        → index.lookup set.root (sha1 descriptor) ≡ some id
        → IsGrown set descriptor (set, some id)
    old-IsGrown id e = record {
      valid = v;
      entries = kept sha1 index set v descriptor;
      id = (v.found (sha1 descriptor) id e, e);
    }

    new-IsGrown :
        set.sd.num_entries < 2 ^ 31
        → index.lookup set.root (sha1 descriptor) ≡ none
        → IsGrown set descriptor (add_entry sha1 index set descriptor, some set.sd.num_entries)
    unfolding add_entry
    new-IsGrown room absent = record {
      valid = add_entry-IsSdSet sha1 index set v descriptor room absent;
      entries =
          ap (λ xs. take set.sd.num_entries (xs ++ (descriptor ∷ [])))
            (kept sha1 index set v descriptor)
          ∙ ap (λ n. take n (set.sd.descriptors ++ (descriptor ∷ []))) v.counted
          ∙ take-append set.sd.descriptors (descriptor ∷ []);
      id = (
        new-IsId sha1 index set v descriptor,
        index.lookup-insert set.root (sha1 descriptor) (sha1 descriptor) set.sd.num_entries
              v.indexed
            ∙ inserted,
      );
    }
      where
        inserted :
            (if hashes_equal (sha1 descriptor) (sha1 descriptor)
              then elim (index.lookup set.root (sha1 descriptor)) [
                | none ↦ some set.sd.num_entries
                | some old ↦ some old
              ]
              else index.lookup set.root (sha1 descriptor))
            ≡ some set.sd.num_entries
        inserted = rw (hashes_equal_self (sha1 descriptor), absent) refl

  -- `sd_set_add_sd` keeps the set well-formed and its entries in place; the ID that it returns is that of
  -- an entry with the digest of the descriptor, under which the descriptor is found from then on, and it
  -- returns -1 only where an allocation fails.
  pub sd_set_add_sd-IsGrown :
      (set : SdSet sha1 index) (descriptor : List ℕ)
      → IsSdSet sha1 index set
      → set.sd.num_entries < 2 ^ 31
      → IsGrown set descriptor (sd_set_add_sd sha1 index memory set descriptor)
  unfolding sd_set_add_sd
  sd_set_add_sd-IsGrown set descriptor v room =
      by_lookup (index.lookup set.root (sha1 descriptor)) refl
    where
      add : SdSet sha1 index × Option ℕ
      add =
          if memory 0 && memory 1 && memory 2 && memory 3
          then (add_entry sha1 index set descriptor, some set.sd.num_entries)
          else (set, none)

      in_range : (id : ℕ) → id < set.sd.num_entries → ltb id (2 ^ 31) ≡ true
      in_range id below = ground (arith, room)

      by_lookup :
          (o : Option ℕ)
          → index.lookup set.root (sha1 descriptor) ≡ o
          → IsGrown set descriptor
              (elim o [ none ↦ add | some id ↦ if ltb id (2 ^ 31) then (set, some id) else add ])
      by_lookup none e = elim (Bool-cases (memory 0 && memory 1 && memory 2 && memory 3)) [
        | inl m ↦
            subst
              (λ b. IsGrown set descriptor (
                if b
                then (add_entry sha1 index set descriptor, some set.sd.num_entries)
                else (set, none)))
              (sym m) (new-IsGrown set v descriptor room e)
        | inr m ↦
            subst
              (λ b. IsGrown set descriptor (
                if b
                then (add_entry sha1 index set descriptor, some set.sd.num_entries)
                else (set, none)))
              (sym m) (record { valid = v; entries = kept sha1 index set v descriptor; id = m })
      ]
      by_lookup (some id) e =
          subst (λ b. IsGrown set descriptor (if b then (set, some id) else add))
            (sym (in_range id (v.found (sha1 descriptor) id e).0))
            (old-IsGrown set v descriptor id e)
