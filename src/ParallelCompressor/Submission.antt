-- ===== src/ParallelCompressor/Submission.antt =====
-- Submitting a message in src/compress_parallel.c keeps the state.
use wimlib.Common.{
  ℕ, ◌+◌, ◌≤◌, ◌<◌, ◌≡◌, refl, ap, sym, ◌∙◌, false, List, [], ◌∷◌, ◌++◌, length, ◌==◌, ==_iff,
  if◌then◌else◌, arith, Option, some, Bool-cases, inl, inr, subst,
}
use wimlib.ParallelCompressor.{Message, Compressor, Chunk, update, submit_compression_msg}
use wimlib.ParallelCompressor.Frames.{occ, occ_option, occ-snoc}
use wimlib.ParallelCompressor.Invariant.{
  IsFront, HasResults, IsCompressor, update_chunks, update_complete, IsReady-frame,
}

module _ (compress : Chunk → Option Chunk) (s : Compressor) (v : IsCompressor compress s)
    (m : ℕ) where
  -- A message that is not submitted is in no queue and with no thread.
  idle :
      occ m s.submitted_msgs ≡ 0
      → occ m s.chunks_to_compress_queue + occ m s.working + occ m s.compressed_chunks_queue ≡ 0
  idle e = ground (arith, v.in_flight m)

  distinct : (xs : List ℕ) → occ m xs ≡ 0 → (n : ℕ) → 1 ≤ occ n xs → (m == n) ≡ false
  distinct xs e n o = elim (Bool-cases (m == n)) [
    | inl h ↦ absurd (omega (arith, e, ap (λ k. occ k xs) ((==_iff m n).0 h)))
    | inr h ↦ h
  ]

  -- The other messages do not see that such a message changes.
  pub kept :
      (w : Message) (xs : List ℕ)
      → occ m xs ≡ 0
      → (n : ℕ) → 1 ≤ occ n xs
      → update s.msgs m w n ≡ s.msgs n
  kept w xs e n o = rw (distinct xs e n o) refl

  module _ (w : Message) (away : occ m s.submitted_msgs ≡ 0)
      (same : w.complete ≡ (s.msgs m).complete) where
    pub change-IsCompressor : IsCompressor compress (record s { msgs = update s.msgs m w })
    change-IsCompressor = record {
      owned = v.owned;
      in_flight = λ n.
          v.in_flight n
          ∙ ap (λ c. if c then 0 else occ n s.submitted_msgs)
              (sym (update_complete s.msgs m w n same));
      results_complete = λ n c o.
          subst (HasResults compress) (sym (kept w s.submitted_msgs away n o))
            (v.results_complete n (sym (update_complete s.msgs m w n same) ∙ c) o);
      results_queued = λ n o.
          subst (HasResults compress)
            (sym (kept w s.compressed_chunks_queue (omega (arith, idle away)) n o))
            (v.results_queued n o);
      submitted_filled = λ n o.
          subst (λ (x : Message). 0 < length x.uncompressed_chunks)
            (sym (kept w s.submitted_msgs away n o)) (v.submitted_filled n o);
      ready =
          IsReady-frame s.msgs (update s.msgs m w) s.submitted_msgs s.submitted_msgs
            s.next_chunk_idx s.next_ready_msg (λ k f. f)
            (λ n o. ap (λ (x : Message). x.uncompressed_chunks) (kept w s.submitted_msgs away n o))
            (λ n o c. ap (λ (x : Message). x.complete) (kept w s.submitted_msgs away n o) ∙ c)
            v.ready;
    }

  IsFront-append : (xs ys : List ℕ) (k : ℕ) → IsFront k xs → IsFront k (xs ++ ys)
  IsFront-append [] ys k f = absurd f
  IsFront-append (x ∷ xs) ys k f = f

  pub submit-IsCompressor :
      s.next_submit_msg ≡ some m
      → 0 < length (s.msgs m).uncompressed_chunks
      → IsCompressor compress (submit_compression_msg s m)
  unfolding submit_compression_msg
  submit-IsCompressor e some_chunk = record {
    owned = λ n. omega (arith, v.owned n, occ-snoc n m s.submitted_msgs, ap (occ_option n) e);
    in_flight = λ n. elim (Bool-cases (m == n)) [
      | inl h ↦ rw h (
          omega (
            arith,
            idle away,
            away,
            occ-snoc n m s.submitted_msgs,
            occ-snoc n m s.chunks_to_compress_queue,
            ap (λ k. occ k s.submitted_msgs) ((==_iff m n).0 h),
            ap (λ k. occ k s.chunks_to_compress_queue) ((==_iff m n).0 h),
            ap (λ k. occ k s.working) ((==_iff m n).0 h),
            ap (λ k. occ k s.compressed_chunks_queue) ((==_iff m n).0 h),
          ))
      | inr h ↦ rw h (
          omega (
            arith,
            v.in_flight n,
            others n h s.submitted_msgs,
            others n h s.chunks_to_compress_queue,
            ap (λ k. if (s.msgs n).complete then 0 else k) (others n h s.submitted_msgs),
          ))
    ];
    results_complete = λ n. elim (Bool-cases (m == n)) [
      | inl h ↦ rw h (λ c o. cc)
      | inr h ↦ rw h (λ c o. v.results_complete n c (omega (arith, others n h s.submitted_msgs)))
    ];
    results_queued = λ n o.
        subst (HasResults compress)
          (sym (kept unfinished s.compressed_chunks_queue (omega (arith, idle away)) n o))
          (v.results_queued n o);
    submitted_filled = λ n. elim (Bool-cases (m == n)) [
      | inl h ↦ rw h (λ o. some_chunk)
      | inr h ↦ rw h (λ o. v.submitted_filled n (omega (arith, others n h s.submitted_msgs)))
    ];
    ready =
        IsReady-frame s.msgs (update s.msgs m (record (s.msgs m) { complete = false }))
          s.submitted_msgs _ s.next_chunk_idx s.next_ready_msg
          (IsFront-append s.submitted_msgs (m ∷ []))
          (λ n o. update_chunks s.msgs m (record (s.msgs m) { complete = false }) n refl)
          (λ n o c.
            ap (λ (x : Message). x.complete) (kept unfinished s.submitted_msgs away n o) ∙ c)
          v.ready;
  }
    where
      unfinished : Message
      unfinished = record (s.msgs m) { complete = false }

      away : occ m s.submitted_msgs ≡ 0
      away = omega (
        arith,
        v.owned m,
        ap (occ_option m) e,
        ap {B = ℕ} (λ b. if b then 1 else 0) ((==_iff m m).1 refl),
      )

      others : (n : ℕ) → (m == n) ≡ false → (xs : List ℕ) → occ n (xs ++ (m ∷ [])) ≡ occ n xs
      others n h xs = omega (arith, occ-snoc n m xs, ap {B = ℕ} (λ b. if b then 1 else 0) h)
