-- ===== src/ParallelCompressor/Filling.antt =====
-- Filling a message in src/compress_parallel.c keeps the state.
use wimlib.Common.{
  ℕ, ◌+◌, ◌≡◌, refl, ap, sym, ◌∙◌, List, [], ◌∷◌, ◌++◌, length, ◌==◌, ==_iff, if◌then◌else◌, arith,
  Option, none, some, Bool-cases, inl, inr, ◌⊎◌, subst, length-append,
}
use wimlib.ParallelCompressor.{
  Compressor, Chunk, update, submit_compression_msg, take_available, get_chunk_buffer, append_chunk,
  signal_chunk_filled,
}
use wimlib.ParallelCompressor.Frames.{occ, occ_option}
use wimlib.ParallelCompressor.Invariant.{IsFilling, IsCompressor}
use wimlib.ParallelCompressor.Submission.{change-IsCompressor, submit-IsCompressor}

-- What only records the chunks does not change the lists.
recorded-IsCompressor :
    (compress : Chunk → Option Chunk) (s : Compressor) (ins : List Chunk) (outs : List (Chunk × ℕ))
    → IsCompressor compress s
    → IsCompressor compress (record s { filled = ins; delivered = outs })
recorded-IsCompressor compress s ins outs v = record {
  owned = v.owned;
  in_flight = v.in_flight;
  results_complete = v.results_complete;
  results_queued = v.results_queued;
  submitted_filled = v.submitted_filled;
  ready = v.ready;
}

abbrev pub taken : Compressor → ℕ → List ℕ → Compressor
taken s m rest = record s {
  msgs = update s.msgs m (record (s.msgs m) { uncompressed_chunks = [] });
  available_msgs = rest;
  next_submit_msg = some m;
}

some_pair :
    {s t : Compressor} {m n : ℕ}
    → ◌≡◌ {A = Option (Compressor × ℕ)} (some (s, m)) (some (t, n))
    → (s ≡ t) × (m ≡ n)
some_pair e = (cc, cc)

-- The buffer is in the message that is being filled, or in an available one.
pub get_chunk_buffer-cases :
    (s s' : Compressor) (m : ℕ)
    → get_chunk_buffer s ≡ some (s', m)
    → ((s.next_submit_msg ≡ some m) × (s ≡ s'))
      ⊎ ((rest : List ℕ) × (s.next_submit_msg ≡ none)
          × (s.available_msgs ≡ m ∷ rest)
          × (taken s m rest ≡ s'))
unfolding get_chunk_buffer take_available
get_chunk_buffer-cases s s' m = by_message s.next_submit_msg refl
  where
    by_list :
        (xs : List ℕ)
        → s.available_msgs ≡ xs
        → take_available s xs ≡ some (s', m)
        → (rest : List ℕ) × (s.available_msgs ≡ m ∷ rest) × (taken s m rest ≡ s')
    by_list [] e q = cc
    by_list (x ∷ rest) e q =
        let (same, name) = some_pair q in
        (rest, e ∙ ap (λ k. k ∷ rest) name, ap (λ k. taken s k rest) (sym name) ∙ same)

    by_message :
        (o : Option ℕ)
        → s.next_submit_msg ≡ o
        → (elim o [ some k ↦ some (s, k) | none ↦ take_available s s.available_msgs ])
          ≡ some (s', m)
        → ((s.next_submit_msg ≡ some m) × (s ≡ s'))
          ⊎ ((rest : List ℕ) × (s.next_submit_msg ≡ none)
              × (s.available_msgs ≡ m ∷ rest)
              × (taken s m rest ≡ s'))
    by_message (some k) e q = let (same, name) = some_pair q in inl (e ∙ ap some name, same)
    by_message none e q = let (rest, a, t) = by_list s.available_msgs refl q in inr (rest, e, a, t)

module _ (compress : Chunk → Option Chunk) (s : Compressor) (v : IsCompressor compress s)
    (m : ℕ) where
  pub taken-IsCompressor :
      (rest : List ℕ)
      → s.next_submit_msg ≡ none
      → s.available_msgs ≡ m ∷ rest
      → IsCompressor compress (taken s m rest)
  unfolding occ
  taken-IsCompressor rest e a =
      let w =
        change-IsCompressor compress s v m (record (s.msgs m) { uncompressed_chunks = [] }) away
          refl in
      record {
        owned = λ n. omega (arith, v.owned n, ap (occ n) a, ap (occ_option n) e);
        in_flight = w.in_flight;
        results_complete = w.results_complete;
        results_queued = w.results_queued;
        submitted_filled = w.submitted_filled;
        ready = w.ready;
      }
    where
      away : occ m s.submitted_msgs ≡ 0
      away = omega (
        arith,
        v.owned m,
        ap (occ m) a,
        ap {B = ℕ} (λ b. (if b then 1 else 0) + occ m rest) ((==_iff m m).1 refl),
      )

  module _ (e : s.next_submit_msg ≡ some m) where
    pub next_submit_away : occ m s.submitted_msgs ≡ 0
    next_submit_away = omega (
      arith,
      v.owned m,
      ap (occ_option m) e,
      ap {B = ℕ} (λ b. if b then 1 else 0) ((==_iff m m).1 refl),
    )

    pub append_chunk-IsCompressor : (chunk : Chunk) → IsCompressor compress (append_chunk s m chunk)
    unfolding append_chunk
    append_chunk-IsCompressor chunk =
        recorded-IsCompressor compress _ _ s.delivered
          (change-IsCompressor compress s v m _ next_submit_away refl)

-- A message is submitted when it is full.
pub signal_chunk_filled-cases :
    (s : Compressor) (m : ℕ) (chunk : Chunk)
    → (signal_chunk_filled s m chunk ≡ append_chunk s m chunk)
      ⊎ (signal_chunk_filled s m chunk ≡ submit_compression_msg (append_chunk s m chunk) m)
unfolding signal_chunk_filled
signal_chunk_filled-cases s m chunk =
    elim (Bool-cases
      (length ((append_chunk s m chunk).msgs m).uncompressed_chunks == s.num_alloc_chunks)) [
        | inl h ↦ rw h (inr refl)
        | inr h ↦ rw h (inl refl)
      ]

pub append_chunk_filling :
    (s : Compressor) (m : ℕ) (chunk : Chunk)
    → ((append_chunk s m chunk).msgs m).uncompressed_chunks
      ≡ (s.msgs m).uncompressed_chunks ++ (chunk ∷ [])
unfolding append_chunk
append_chunk_filling s m chunk = rw ((==_iff m m).1 refl) refl

-- A compressor between two steps: the message that is being filled has a chunk.
abbrev pub IsBetween : (Chunk → Option Chunk) → Compressor → Type 0
IsBetween compress s = IsCompressor compress s × IsFilling s s.next_submit_msg

pub submit-IsBetween :
    (compress : Chunk → Option Chunk) (s : Compressor) (m : ℕ)
    → IsBetween compress s
    → s.next_submit_msg ≡ some m
    → IsBetween compress (submit_compression_msg s m)
unfolding submit_compression_msg
submit-IsBetween compress s m (v, f) e =
    (submit-IsCompressor compress s v m e (subst (IsFilling s) e f), tt)

pub signal_chunk_filled-IsBetween :
    (compress : Chunk → Option Chunk) (s : Compressor) (m : ℕ) (chunk : Chunk)
    → IsCompressor compress s
    → s.next_submit_msg ≡ some m
    → IsBetween compress (signal_chunk_filled s m chunk)
unfolding append_chunk
signal_chunk_filled-IsBetween compress s m chunk v e = elim (signal_chunk_filled-cases s m chunk) [
  | inl h ↦ subst (IsBetween compress) (sym h) between
  | inr h ↦
      subst (IsBetween compress) (sym h)
        (submit-IsBetween compress (append_chunk s m chunk) m between e)
]
  where
    between : IsBetween compress (append_chunk s m chunk)
    between = (
      append_chunk-IsCompressor compress s v m e chunk,
      subst (IsFilling (append_chunk s m chunk)) (sym e) (
          omega (
            arith,
            ap length (append_chunk_filling s m chunk),
            length-append (s.msgs m).uncompressed_chunks (chunk ∷ []),
          )),
    )
