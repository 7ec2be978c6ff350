-- ===== src/ParallelCompressor/Progress.antt =====
-- The loop of `get_compression_result` in src/compress_parallel.c, which waits for the first submitted
-- message, is never left waiting.
use wimlib.Common.{
  ℕ, zero, suc, ◌+◌, ◌*◌, ◌<◌, ◌≤◌, ◌⊎◌, ◌≡◌, refl, ap, sym, ◌∙◌, Bool, true, false, List, [], ◌∷◌,
  length, if◌then◌else◌, arith, Option, none, some, Bool-cases, inl, inr, length-append, subst,
}
use wimlib.ParallelCompressor.{
  Compressor, Chunk, Message, Step, fill, flush, take, finish, receive, continue, begin, Reach,
}
use wimlib.ParallelCompressor.Frames.{occ}
use wimlib.ParallelCompressor.Invariant.{
  IsFront, IsCompressor, front-occ, take-IsCompressor, finish-IsCompressor, receive-IsCompressor,
}
use wimlib.ParallelCompressor.Plans.{Plan}
use wimlib.ParallelCompressor.Start.{start_compressor, start_compressor_some}
use wimlib.ParallelCompressor.Reachable.{Reach-IsBetween}

-- The steps that the messages in the queues and with the threads have before them.
pub load : Compressor → ℕ
load s =
    3 * length s.chunks_to_compress_queue + 2 * length s.working + length s.compressed_chunks_queue

module _ (compress : Chunk → Option Chunk) where
  -- A step that is made without the caller leaving its loop, where `num_threads` threads run: a thread
  -- that has no message takes one, a thread is done with one, or the loop receives one.
  pub Allowed : ℕ → {s t : Compressor} → Step compress s t → Type 0
  Allowed num_threads (take {s} m rest e) = length s.working < num_threads
  Allowed num_threads (finish m front back e) = Unit
  Allowed num_threads (receive m rest first others e e' f c q) = Unit
  Allowed num_threads (fill m chunk e) = ⊥
  Allowed num_threads (flush m e) = ⊥
  Allowed num_threads (continue m e e') = ⊥
  Allowed num_threads (begin m rest e e' f c) = ⊥

  -- The message `m` is complete, still the first, and what was returned is `out`.
  abbrev pub IsComplete : ℕ → List ℕ → List (Chunk × ℕ) → Compressor → Type 0
  IsComplete m rest out s =
      ((s.msgs m).complete ≡ true) × (s.submitted_msgs ≡ m ∷ rest) × (s.delivered ≡ out)

  -- However the threads and the loop take turns, the message `m` is complete after at most so many
  -- steps: until it is, there is a step to make, and every step leads closer to it.
  pub CompletesWithin : ℕ → ℕ → ℕ → List ℕ → List (Chunk × ℕ) → Compressor → Type 0
  CompletesWithin zero num_threads m rest out s = IsComplete m rest out s
  CompletesWithin (suc bound) num_threads m rest out s =
      IsComplete m rest out s
      ⊎ (((t : Compressor) × (st : Step compress s t) × Allowed num_threads st)
          × ((t : Compressor) (st : Step compress s t)
              → Allowed num_threads st
              → CompletesWithin bound num_threads m rest out t))

  -- The caller is in its loop: it fills no message, delivers none, and waits for `m`.
  pub record Waits (m : ℕ) (rest : List ℕ) (s : Compressor) : Type 0 where
    pub not_filling : s.next_submit_msg ≡ none
    pub not_ready : s.next_ready_msg ≡ none
    pub submitted : s.submitted_msgs ≡ m ∷ rest

  still :
      (m : ℕ) (rest : List ℕ) (s : Compressor) (f : ℕ → Message)
      (to_compress working compressed : List ℕ)
      → Waits m rest s
      → Waits m rest (record s {
        msgs = f;
        chunks_to_compress_queue = to_compress;
        working = working;
        compressed_chunks_queue = compressed;
      })
  still m rest s f a b d w = record {
    not_filling = w.not_filling;
    not_ready = w.not_ready;
    submitted = w.submitted;
  }

  -- Every such step leaves less to do, and the caller waiting.
  advances :
      (num_threads m : ℕ) (rest : List ℕ) {s t : Compressor} (st : Step compress s t)
      → Allowed num_threads st
      → IsCompressor compress s
      → Waits m rest s
      → IsCompressor compress t × (load t < load s) × Waits m rest t × (t.delivered ≡ s.delivered)
  unfolding Allowed load
  advances num_threads m rest (take {s} x q e) a v w = (
    take-IsCompressor compress s x q e v,
    omega (arith, ap length e),
    still m rest s _ _ _ _ w,
    refl,
  )
  advances num_threads m rest (finish {s} x front back e) a v w = (
    finish-IsCompressor compress s x front back e v,
    omega (
      arith,
      ap length e,
      length-append front (x ∷ back),
      length-append front back,
      length-append s.compressed_chunks_queue (x ∷ []),
    ),
    still m rest s _ _ _ _ w,
    refl,
  )
  advances num_threads m rest (receive {s} x q first others e e' f c r) a v w = (
    receive-IsCompressor compress s x q r v,
    omega (arith, ap length r),
    still m rest s _ _ _ _ w,
    refl,
  )
  advances num_threads m rest (fill x chunk e) a v w = elim a [ ]
  advances num_threads m rest (flush x e) a v w = elim a [ ]
  advances num_threads m rest (continue x e e') a v w = elim a [ ]
  advances num_threads m rest (begin x others e e' f c) a v w = elim a [ ]

  -- Where the first submitted message is not complete and a thread runs, a step can be made.
  enabled :
      (num_threads m : ℕ) (rest : List ℕ) (s : Compressor)
      → 1 ≤ num_threads
      → IsCompressor compress s
      → Waits m rest s
      → (s.msgs m).complete ≡ false
      → (t : Compressor) × (st : Step compress s t) × Allowed num_threads st
  unfolding Allowed occ
  enabled num_threads m rest s some_thread v w c =
      by_queues s.chunks_to_compress_queue s.working s.compressed_chunks_queue refl refl refl
    where
      by_queues :
          (q busy r : List ℕ)
          → s.chunks_to_compress_queue ≡ q
          → s.working ≡ busy
          → s.compressed_chunks_queue ≡ r
          → (t : Compressor) × (st : Step compress s t) × Allowed num_threads st
      by_queues q (x ∷ busy) r eq ew er = (_, finish x [] busy ew, tt)
      by_queues (x ∷ q) [] r eq ew er = (_, take x q eq, omega (arith, some_thread, ap length ew))
      by_queues [] [] (x ∷ r) eq ew er =
          (_, receive x r m rest w.not_filling w.not_ready w.submitted c er, tt)
      by_queues [] [] [] eq ew er = absurd (
          omega (
            arith,
            v.in_flight m,
            front-occ m s.submitted_msgs (subst (IsFront m) (sym w.submitted) refl),
            ap (occ m) eq,
            ap (occ m) ew,
            ap (occ m) er,
            ap {B = ℕ} (λ (b : Bool). if b then 0 else occ m s.submitted_msgs) c,
          ))

  completes :
      (bound num_threads m : ℕ) (rest : List ℕ) (out : List (Chunk × ℕ)) (s : Compressor)
      → 1 ≤ num_threads
      → load s ≤ bound
      → IsCompressor compress s
      → Waits m rest s
      → s.delivered ≡ out
      → CompletesWithin bound num_threads m rest out s
  unfolding CompletesWithin
  completes zero k m rest out s some_thread le v w o = elim (Bool-cases (s.msgs m).complete) [
    | inl c ↦ (c, w.submitted, o)
    | inr c ↦
        let (t, st, a) = enabled k m rest s some_thread v w c in
        let (v', less, w', same) = advances k m rest st a v w in absurd (omega (arith, less, le))
  ]
  completes (suc bound) k m rest out s some_thread le v w o =
      elim (Bool-cases (s.msgs m).complete) [
        | inl c ↦ inl (c, w.submitted, o)
        | inr c ↦ inr (
          enabled k m rest s some_thread v w c,
          λ t st a.
              let (v', less, w', same) = advances k m rest st a v w in
              completes bound k m rest out t some_thread (omega (arith, less, le)) v' w' (same ∙ o),
        )
      ]

-- A compressor for two threads at least that starts does not leave its caller waiting: in whatever state
-- it can reach, while the caller is in the loop of `get_compression_result` for the first submitted
-- message, no more than three steps for each message in flight are made until that message is complete,
-- however the threads that were started take turns. Until then a step can always be made,
-- with no more messages at work than threads; the message is still the first, and no result was returned.
pub Reach-CompletesWithin :
    (compress : Chunk → Option Chunk) (creates : ℕ → Bool) (p : Plan) {num_started_threads : ℕ}
    {c s : Compressor} (m : ℕ) (rest : List ℕ)
    → start_compressor creates p ≡ some (num_started_threads, c)
    → 2 ≤ p.num_threads
    → Reach compress c s
    → s.next_submit_msg ≡ none
    → s.next_ready_msg ≡ none
    → s.submitted_msgs ≡ m ∷ rest
    → CompletesWithin compress (load s) num_started_threads m rest s.delivered s
Reach-CompletesWithin compress creates p {num_started_threads = n} {c} {s} m rest start two r e e'
      f =
    let (some_thread, fresh) = start_compressor_some creates p start two in
    completes compress (load s) n m rest s.delivered s (omega (arith, some_thread)) (omega arith)
      (Reach-IsBetween compress (n * p.msgs_per_thread) p.chunks_per_msg
        (subst (λ x. Reach compress x s) (sym fresh) r)).0
      (record { not_filling = e; not_ready = e'; submitted = f }) refl
