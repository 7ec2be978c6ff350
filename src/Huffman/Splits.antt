-- ===== src/Huffman/Splits.antt =====
-- What a step of src/compress_common.c's `compute_length_counts` does to the sums over the counts.
use wimlib.Common.{
  ℕ, zero, suc, ◌+◌, ◌-◌, ◌%◌, ◌^◌, ◌≤◌, ◌<◌, ◌≡◌, ◌≢◌, refl, sym, ap, ◌∙◌, List, get_or, set,
  length, length-set, ◌==◌, if◌then◌else◌, arith, Bool, true, false, ==_iff,
}
use wimlib.Huffman.{split_codeword, shorter_len}
use wimlib.Huffman.Numbering.{used, get_or-set_self, get_or-set_ne}
use wimlib.Huffman.Lengths.{total_count}

-- The counts after a split.
pub record IsSplit (len : ℕ) (before after : List ℕ) : Type 0 where
  pub same_size : length after ≡ length before
  pub taken : get_or after len 0 + 1 ≡ get_or before len 0
  pub added : get_or after (suc len) 0 ≡ get_or before (suc len) 0 + 2
  pub others : (i : ℕ) → i ≢ len → i ≢ suc len → get_or after i 0 ≡ get_or before i 0

pub split_codeword-IsSplit :
    (len : ℕ) (counts : List ℕ)
    → suc len < length counts
    → 1 ≤ get_or counts len 0
    → get_or counts len 0 < 2 ^ 32
    → get_or counts (suc len) 0 + 2 < 2 ^ 32
    → IsSplit len counts (split_codeword len counts)
unfolding split_codeword
split_codeword-IsSplit len counts h some small room =
    let v = (get_or counts len 0 + (2 ^ 32 - 1)) % 2 ^ 32 in
    let less = set counts len v in
    let w = (get_or less (suc len) 0 + 2) % 2 ^ 32 in
    let size : length less ≡ length counts = length-set counts len v in
    let one_less : get_or less len 0 ≡ v = get_or-set_self counts len v (omega arith) in
    let next : get_or less (suc len) 0 ≡ get_or counts (suc len) 0 =
      get_or-set_ne counts len (suc len) v (λ e. omega (arith, e)) in
    let kept : get_or (set less (suc len) w) len 0 ≡ get_or less len 0 =
      get_or-set_ne less (suc len) len w (λ e. omega (arith, e)) in
    let two_more : get_or (set less (suc len) w) (suc len) 0 ≡ w =
      get_or-set_self less (suc len) w (omega (arith, size)) in
    record {
      same_size = length-set less (suc len) w ∙ size;
      taken = omega (arith, kept, one_less);
      added = omega (arith, two_more, next);
      others = λ i n m.
          get_or-set_ne less (suc len) i w (λ e. m (sym e))
          ∙ get_or-set_ne counts len i v (λ e. n (sym e));
    }

-- The sums, where a codeword of length `suc l` is split.
module _ (l : ℕ) (before after : List ℕ) (s : IsSplit (suc l) before after) where
  used_below : (n : ℕ) → n ≤ l → used after n ≡ used before n
  used_below zero h = refl
  used_below (suc n) h =
      let same = s.others (suc n) (λ e. omega (arith, e)) (λ e. omega (arith, e)) in
      omega (arith, used_below n (omega arith), same)

  pub used_kept : (n more : ℕ) → n ≡ suc (suc l) + more → used after n ≡ used before n
  used_kept n zero e =
      let two : n ≡ suc (suc l) = omega (arith, e) in
      rw two (omega (arith, used_below l (omega arith), s.taken, s.added))
  used_kept zero (suc more) e = absurd (omega (arith, e))
  used_kept (suc n) (suc more) e =
      let same = s.others (suc n) (λ f. omega (arith, e, f)) (λ f. omega (arith, e, f)) in
      omega (arith, used_kept n more (omega (arith, e)), same)

  total_below : (n : ℕ) → n ≤ l → total_count after n ≡ total_count before n
  total_below zero h = refl
  total_below (suc n) h =
      let same = s.others (suc n) (λ e. omega (arith, e)) (λ e. omega (arith, e)) in
      omega (arith, total_below n (omega arith), same)

  pub total_grows :
      (n more : ℕ) → n ≡ suc (suc l) + more → total_count after n ≡ total_count before n + 1
  total_grows n zero e =
      let two : n ≡ suc (suc l) = omega (arith, e) in
      rw two (omega (arith, total_below l (omega arith), s.taken, s.added))
  total_grows zero (suc more) e = absurd (omega (arith, e))
  total_grows (suc n) (suc more) e =
      let same = s.others (suc n) (λ f. omega (arith, e, f)) (λ f. omega (arith, e, f)) in
      omega (arith, total_grows n more (omega (arith, e)), same)

-- Each count is part of the sum.
pub count_le :
    (counts : List ℕ) (l n more : ℕ)
    → n ≡ suc l + more
    → get_or counts (suc l) 0 ≤ total_count counts n
count_le counts l zero more e = absurd (omega (arith, e))
count_le counts l (suc n) zero e =
    let same : suc n ≡ suc l = omega (arith, e) in
    omega (arith, ap (λ (i : ℕ). get_or counts i 0) same)
count_le counts l (suc n) (suc more) e = omega (arith, count_le counts l n more (omega (arith, e)))

-- The loop finds a length that has a codeword, if any shorter one has.
pub record IsShorter (len found : ℕ) (counts : List ℕ) : Type 0 where
  pub least : 1 ≤ found
  pub below : found < len
  pub some : 1 ≤ get_or counts found 0

pub none_used :
    (counts : List ℕ) (n : ℕ)
    → ((i : ℕ) → 1 ≤ i → i ≤ n → get_or counts i 0 ≡ 0)
    → (used counts n ≡ 0) × (total_count counts n ≡ 0)
none_used counts zero f = (refl, refl)
none_used counts (suc n) f =
    let (u, t) = none_used counts n (λ i h k. f i h (omega arith)) in
    let last = f (suc n) (omega arith) (omega arith) in
    (omega (arith, u, last), omega (arith, t, last))

pub shorter_len-IsShorter :
    (len : ℕ) (counts : List ℕ)
    → 1 ≤ total_count counts len
    → IsShorter (suc len) (shorter_len (suc len) counts) counts
unfolding shorter_len
shorter_len-IsShorter zero counts h = absurd (omega (arith, h))
shorter_len-IsShorter (suc len) counts h =
    by_count (get_or counts (suc len) 0 == 0) refl (λ k. shorter_len-IsShorter len counts k)
  where
    by_count :
        (b : Bool)
        → (get_or counts (suc len) 0 == 0) ≡ b
        → (1 ≤ total_count counts len → IsShorter (suc len) (shorter_len (suc len) counts) counts)
        → IsShorter (suc (suc len)) (if b then shorter_len (suc len) counts else suc len) counts
    by_count true e rest =
        let zero_count : get_or counts (suc len) 0 ≡ 0 =
          (==_iff (get_or counts (suc len) 0) 0).0 e in
        let r = rest (omega (arith, h, zero_count)) in
        record { least = r.least; below = omega (arith, r.below); some = r.some }
    by_count false e rest = record {
      least = omega arith;
      below = omega arith;
      some = ground (arith, e);
    }
