-- ===== src/ParallelCompressor/Order.antt =====
-- src/compress_parallel.c returns the chunks in the order in which they were filled in.
use wimlib.Common.{
  ℕ, ◌+◌, ◌<◌, ◌≡◌, refl, ap, ap₂, sym, ◌∙◌, true, false, List, [], ◌∷◌, ◌++◌, map, length, get_or,
  ◌==◌, ==_iff, arith, Option, none, some, Bool-cases, inl, inr, append_assoc, append-nil, subst,
}
use mathlib.Core.List.{map-append}
use wimlib.ParallelCompressor.{
  Message, Compressor, Chunk, update, output, submit_compression_msg, get_chunk_buffer,
  append_chunk, signal_chunk_filled, deliver,
}
use wimlib.ParallelCompressor.Frames.{
  occ, undelivered, undelivered-append, undelivered-frame, drop_next, drop_end, get_or-map,
}
use wimlib.ParallelCompressor.Invariant.{
  IsFront, IsReady, IsFilling, IsCompressor, update_chunks, front-occ,
}
use wimlib.ParallelCompressor.Delivery.{behind_front}
use wimlib.ParallelCompressor.Filling.{
  next_submit_away, append_chunk-IsCompressor, taken, get_chunk_buffer-cases, taken-IsCompressor,
  signal_chunk_filled-cases, append_chunk_filling, IsBetween,
}
use wimlib.ParallelCompressor.Submission.{kept}

-- The next chunk to deliver of the first submitted message.
abbrev pub position : Compressor → Option ℕ → ℕ
position s none = 0
position s (some m) = s.next_chunk_idx

abbrev pub filling : (ℕ → Message) → Option ℕ → List Chunk
filling msgs none = []
filling msgs (some m) = (msgs m).uncompressed_chunks

-- The chunks that were filled in and not returned yet.
unfoldable pub pending : Compressor → List Chunk
pending s =
    undelivered s.msgs (position s s.next_ready_msg) s.submitted_msgs
    ++ filling s.msgs s.next_submit_msg

module _ (compress : Chunk → Option Chunk) where
  -- What is returned for a chunk.
  abbrev pub result : Chunk → Chunk × ℕ
  result chunk = output (compress chunk) chunk

  -- What came out, and then what is to come out, is what went in.
  abbrev pub IsInOrder : Compressor → Type 0
  IsInOrder s = map result s.filled ≡ s.delivered ++ map result (pending s)

  pub submit-pending :
      (s : Compressor) (m : ℕ)
      → IsCompressor compress s
      → s.next_submit_msg ≡ some m
      → pending (submit_compression_msg s m) ≡ pending s
  unfolding pending submit_compression_msg undelivered
  submit-pending s m v e =
      append-nil _
      ∙ undelivered-frame s.msgs (update s.msgs m (record (s.msgs m) { complete = false }))
          (position s s.next_ready_msg) (s.submitted_msgs ++ (m ∷ []))
          (λ n o. update_chunks s.msgs m (record (s.msgs m) { complete = false }) n refl)
      ∙ last s.next_ready_msg s.submitted_msgs v.ready
      ∙ ap
          (λ o.
            undelivered s.msgs (position s s.next_ready_msg) s.submitted_msgs ++ filling s.msgs o)
          (sym e)
    where
      last :
          (o : Option ℕ) (xs : List ℕ)
          → IsReady s.msgs xs s.next_chunk_idx o
          → undelivered s.msgs (position s o) (xs ++ (m ∷ []))
            ≡ undelivered s.msgs (position s o) xs ++ (s.msgs m).uncompressed_chunks
      last o (x ∷ xs) r = undelivered-append s.msgs (position s o) m x xs
      last none [] r = append-nil (s.msgs m).uncompressed_chunks
      last (some k) [] r = absurd r.0

  append-pending :
      (s : Compressor) (m : ℕ) (chunk : Chunk)
      → IsCompressor compress s
      → s.next_submit_msg ≡ some m
      → pending (append_chunk s m chunk) ≡ pending s ++ (chunk ∷ [])
  unfolding pending append_chunk
  append-pending s m chunk v e =
      ap₂ (λ (xs ys : List Chunk). xs ++ ys)
        (undelivered-frame s.msgs (append_chunk s m chunk).msgs (position s s.next_ready_msg)
          s.submitted_msgs
          (λ n o.
            ap (λ (x : Message). x.uncompressed_chunks)
              (kept compress s v m _ s.submitted_msgs (next_submit_away compress s v m e) n o)))
        (ap (filling (append_chunk s m chunk).msgs) e
          ∙ append_chunk_filling s m chunk
          ∙ ap (λ (o : Option ℕ). filling s.msgs o ++ (chunk ∷ [])) (sym e))
      ∙ sym (
          append_assoc (undelivered s.msgs (position s s.next_ready_msg) s.submitted_msgs)
            (filling s.msgs s.next_submit_msg) (chunk ∷ []))

  taken-pending :
      (s : Compressor) (m : ℕ) (rest : List ℕ)
      → IsCompressor compress s
      → occ m s.submitted_msgs ≡ 0
      → s.next_submit_msg ≡ none
      → pending (taken s m rest) ≡ pending s
  unfolding pending
  taken-pending s m rest v away e =
      ap₂ (λ (xs ys : List Chunk). xs ++ ys)
        (undelivered-frame s.msgs (taken s m rest).msgs (position s s.next_ready_msg)
          s.submitted_msgs
          (λ n o.
            ap (λ (x : Message). x.uncompressed_chunks)
              (kept compress s v m _ s.submitted_msgs away n o)))
        (here_empty ∙ ap (filling s.msgs) (sym e))
    where
      here_empty :
          (update s.msgs m (record (s.msgs m) { uncompressed_chunks = [] }) m).uncompressed_chunks
          ≡ []
      here_empty = rw ((==_iff m m).1 refl) refl

  module _ (s : Compressor) (m k : ℕ) (v : IsCompressor compress s) (f : IsFront m s.submitted_msgs)
      (l : k < length (s.msgs m).uncompressed_chunks) where
    -- The chunk that is returned next.
    abbrev next_chunk : Chunk
    next_chunk = get_or (s.msgs m).uncompressed_chunks k []

    deliver-delivered :
        (s.msgs m).complete ≡ true
        → ((deliver s m k).delivered ≡ s.delivered ++ (result next_chunk ∷ []))
          × ((deliver s m k).filled ≡ s.filled)
    unfolding deliver
    deliver-delivered c = elim (Bool-cases (k + 1 == length (s.msgs m).uncompressed_chunks)) [
      | inl h ↦ rw h (ap (λ r. s.delivered ++ (output r next_chunk ∷ [])) found, refl)
      | inr h ↦ rw h (ap (λ r. s.delivered ++ (output r next_chunk ∷ [])) found, refl)
    ]
      where
        found : get_or (s.msgs m).compressed_chunks k none ≡ compress next_chunk
        found =
            ap (λ xs. get_or xs k none) (v.results_complete m c (front-occ m s.submitted_msgs f))
            ∙ get_or-map compress k (s.msgs m).uncompressed_chunks l

    deliver-pending :
        position s s.next_ready_msg ≡ k → pending s ≡ next_chunk ∷ pending (deliver s m k)
    unfolding pending deliver undelivered
    deliver-pending at =
        let (rest, e, r) = behind_front m s.submitted_msgs f in
        ap₂ (λ (i : ℕ) (xs : List ℕ). undelivered s.msgs i xs ++ filling s.msgs s.next_submit_msg)
          at e
        ∙ ap (λ xs. (xs ++ undelivered s.msgs 0 rest) ++ filling s.msgs s.next_submit_msg)
            (drop_next k (s.msgs m).uncompressed_chunks l)
        ∙ ap (λ xs. next_chunk ∷ xs)
            (elim (Bool-cases (k + 1 == length (s.msgs m).uncompressed_chunks)) [
              | inl h ↦ rw h (
                  ap (λ xs. (xs ++ undelivered s.msgs 0 rest) ++ filling s.msgs s.next_submit_msg)
                    (drop_end (k + 1) (s.msgs m).uncompressed_chunks ((==_iff _ _).0 h))
                  ∙ ap (λ xs. undelivered s.msgs 0 xs ++ filling s.msgs s.next_submit_msg) (sym r))
              | inr h ↦ rw h (
                  ap (λ xs. undelivered s.msgs (k + 1) xs ++ filling s.msgs s.next_submit_msg)
                    (sym e))
            ])

    pub deliver-IsInOrder :
        (s.msgs m).complete ≡ true
        → position s s.next_ready_msg ≡ k
        → IsInOrder s
        → IsInOrder (deliver s m k)
    deliver-IsInOrder c at o =
        let (out, in_same) = deliver-delivered c in
        ap (map result) in_same
        ∙ o
        ∙ ap (λ xs. s.delivered ++ map result xs) (deliver-pending at)
        ∙ sym (
            append_assoc s.delivered (result next_chunk ∷ [])
              (map result (pending (deliver s m k))))
        ∙ ap (λ xs. xs ++ map result (pending (deliver s m k))) (sym out)

  pub fill-IsInOrder :
      (s : Compressor) (m : ℕ) (chunk : Chunk)
      → IsCompressor compress s
      → s.next_submit_msg ≡ some m
      → IsInOrder s
      → IsInOrder (signal_chunk_filled s m chunk)
  unfolding append_chunk submit_compression_msg
  fill-IsInOrder s m chunk v e o = elim (signal_chunk_filled-cases s m chunk) [
    | inl h ↦ subst IsInOrder (sym h) appended
    | inr h ↦ subst IsInOrder (sym h) (
        appended
        ∙ ap (λ xs. s.delivered ++ map result xs)
            (sym (
              submit-pending (append_chunk s m chunk) m
                (append_chunk-IsCompressor compress s v m e chunk) e)))
  ]
    where
      appended : IsInOrder (append_chunk s m chunk)
      appended =
          map-append result s.filled (chunk ∷ [])
          ∙ ap (λ xs. xs ++ (result chunk ∷ [])) o
          ∙ append_assoc s.delivered (map result (pending s)) (result chunk ∷ [])
          ∙ ap (λ xs. s.delivered ++ xs) (sym (map-append result (pending s) (chunk ∷ [])))
          ∙ ap (λ xs. s.delivered ++ map result xs) (sym (append-pending s m chunk v e))

  -- The state between two steps.
  abbrev pub IsGood : Compressor → Type 0
  IsGood s = IsBetween compress s × IsInOrder s

  pub get_chunk_buffer-IsGood :
      (s s' : Compressor) (m : ℕ)
      → get_chunk_buffer s ≡ some (s', m)
      → IsGood s
      → IsCompressor compress s' × (s'.next_submit_msg ≡ some m) × IsInOrder s'
  get_chunk_buffer-IsGood s s' m q ((v, f), o) = elim (get_chunk_buffer-cases s s' m q) [
    | inl (e, same) ↦ subst IsGiven same (v, e, o)
    | inr (rest, e, a, same) ↦
        let w = taken-IsCompressor compress s v m rest e a in
        subst IsGiven same (
          w,
          refl,
          o
              ∙ ap (λ xs. s.delivered ++ map result xs)
                  (sym (
                    taken-pending s m rest v (next_submit_away compress (taken s m rest) w m refl)
                      e)),
        )
  ]
    where
      IsGiven : Compressor → Type 0
      IsGiven t = IsCompressor compress t × (t.next_submit_msg ≡ some m) × IsInOrder t

  pub IsFilling-kept :
      (s : Compressor) (m : ℕ) (w : Message) (o : Option ℕ)
      → w.uncompressed_chunks ≡ (s.msgs m).uncompressed_chunks
      → IsFilling s o
      → IsFilling (record s { msgs = update s.msgs m w }) o
  IsFilling-kept s m w none e f = tt
  IsFilling-kept s m w (some n) e f = omega (arith, f, ap length (update_chunks s.msgs m w n e))

  filling_kept :
      (msgs : ℕ → Message) (m : ℕ) (w : Message) (o : Option ℕ)
      → w.uncompressed_chunks ≡ (msgs m).uncompressed_chunks
      → filling msgs o ≡ filling (update msgs m w) o
  filling_kept msgs m w none e = refl
  filling_kept msgs m w (some n) e = sym (update_chunks msgs m w n e)

  -- A message's chunks are what they were.
  pub message-IsInOrder :
      (s : Compressor) (m : ℕ) (w : Message)
      → w.uncompressed_chunks ≡ (s.msgs m).uncompressed_chunks
      → IsInOrder s
      → IsInOrder (record s { msgs = update s.msgs m w })
  unfolding pending
  message-IsInOrder s m w e o =
      o
      ∙ ap (λ xs. s.delivered ++ map result xs)
          (ap₂ (λ (xs ys : List Chunk). xs ++ ys)
            (sym (
              undelivered-frame s.msgs (update s.msgs m w) (position s s.next_ready_msg)
                s.submitted_msgs (λ n o. update_chunks s.msgs m w n e)))
            (filling_kept s.msgs m w s.next_submit_msg e))
