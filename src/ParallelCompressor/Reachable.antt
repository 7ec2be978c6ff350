-- ===== src/ParallelCompressor/Reachable.antt =====
-- The states that src/compress_parallel.c reaches, whatever the caller and the threads do in turn.
use wimlib.Common.{
  ℕ, ◌+◌, ◌<◌, ◌≡◌, refl, ap, ap₂, sym, ◌∙◌, true, List, [], ◌++◌, map, length, ◌==◌, Option, none,
  Bool-cases, inl, inr, append-nil, subst,
}
use wimlib.ParallelCompressor.{
  Compressor, Chunk, submit_compression_msg, deliver, compress_chunks, new_compressor, Step, fill,
  flush, take, finish, receive, continue, begin, Reach, here, next,
}
use wimlib.ParallelCompressor.Frames.{undelivered}
use wimlib.ParallelCompressor.Invariant.{
  IsFront, IsReady, IsFilling, front-occ, new_compressor-IsCompressor, take-IsCompressor,
  finish-IsCompressor, receive-IsCompressor,
}
use wimlib.ParallelCompressor.Delivery.{deliver-IsCompressor}
use wimlib.ParallelCompressor.Filling.{IsBetween, submit-IsBetween, signal_chunk_filled-IsBetween}
use wimlib.ParallelCompressor.Order.{
  position, filling, pending, result, IsGood, submit-pending, fill-IsInOrder,
  get_chunk_buffer-IsGood, IsFilling-kept, message-IsInOrder, deliver-IsInOrder,
}

module _ (compress : Chunk → Option Chunk) where
  deliver-IsGood :
      (s : Compressor) (m k : ℕ)
      → IsFront m s.submitted_msgs
      → (s.msgs m).complete ≡ true
      → k < length (s.msgs m).uncompressed_chunks
      → position s s.next_ready_msg ≡ k
      → IsGood compress s
      → IsGood compress (deliver s m k)
  unfolding deliver
  deliver-IsGood s m k f c l at ((v, g), o) = (
    (deliver-IsCompressor compress s v m k f c l, same_filling),
    deliver-IsInOrder compress s m k v f l c at o,
  )
    where
      same_filling : IsFilling (deliver s m k) (deliver s m k).next_submit_msg
      same_filling = elim (Bool-cases (k + 1 == length (s.msgs m).uncompressed_chunks)) [
        | inl h ↦ rw h g
        | inr h ↦ rw h g
      ]

  -- Each step, of the caller or of a thread, leads from a good state to a good state.
  Step-IsGood : {s t : Compressor} → Step compress s t → IsGood compress s → IsGood compress t
  unfolding submit_compression_msg compress_chunks pending
  Step-IsGood (fill {s} {s'} m chunk q) g =
      let (v, e, o) = get_chunk_buffer-IsGood compress s s' m q g in
      (
        signal_chunk_filled-IsBetween compress s' m chunk v e,
        fill-IsInOrder compress s' m chunk v e o,
      )
  Step-IsGood (flush {s} m e) ((v, f), o) = (
    submit-IsBetween compress s m (v, f) e,
    o ∙ ap (λ xs. s.delivered ++ map (result compress) xs) (sym (submit-pending compress s m v e)),
  )
  Step-IsGood (take {s} m rest e) ((v, f), o) = ((take-IsCompressor compress s m rest e v, f), o)
  Step-IsGood (finish {s} m front back e) ((v, f), o) = (
    (
      finish-IsCompressor compress s m front back e v,
      IsFilling-kept compress s m _ s.next_submit_msg refl f,
    ),
    message-IsInOrder compress s m (compress_chunks compress (s.msgs m)) refl o,
  )
  Step-IsGood (receive {s} m rest first others g h f' c e) ((v, f), o) = (
    (
      receive-IsCompressor compress s m rest e v,
      IsFilling-kept compress s m _ s.next_submit_msg refl f,
    ),
    message-IsInOrder compress s m (record (s.msgs m) { complete = true }) refl o,
  )
  Step-IsGood (continue {s} m n e) ((v, f), o) =
      let (front, c, l) = subst (IsReady s.msgs s.submitted_msgs s.next_chunk_idx) e v.ready in
      deliver-IsGood s m s.next_chunk_idx front c l (ap (position s) e) ((v, f), o)
  Step-IsGood (begin {s} m rest n e front c) ((v, f), o) =
      let first : IsFront m s.submitted_msgs = subst (IsFront m) (sym front) refl in
      deliver-IsGood s m 0 first c (v.submitted_filled m (front-occ m s.submitted_msgs first))
        (ap (position s) e) ((v, f), o)

  pub Reach-IsGood :
      (num_messages chunks_per_msg : ℕ) {s : Compressor}
      → Reach compress (new_compressor num_messages chunks_per_msg) s
      → IsGood compress s
  unfolding new_compressor pending undelivered
  Reach-IsGood n per_msg here = ((new_compressor-IsCompressor compress n per_msg, tt), refl)
  Reach-IsGood n per_msg (next r st) = Step-IsGood st (Reach-IsGood n per_msg r)

-- Whatever the caller and the threads do in turn, the state stays well-formed: a message is available,
-- being filled or submitted, and only one of these; a submitted message is complete or, once, in a queue
-- or with a thread; what has the results of its chunks keeps them; and a message that is submitted or
-- being filled has a chunk.
pub Reach-IsBetween :
    (compress : Chunk → Option Chunk) (num_messages chunks_per_msg : ℕ) {s : Compressor}
    → Reach compress (new_compressor num_messages chunks_per_msg) s
    → IsBetween compress s
Reach-IsBetween compress n per_msg r = (Reach-IsGood compress n per_msg r).0

-- Whatever the caller and the threads do in turn, the results that were returned are those of the first
-- chunks that were filled in, in that order, and the results of the chunks that are with messages are
-- those to come.
pub Reach-IsInOrder :
    (compress : Chunk → Option Chunk) (num_messages chunks_per_msg : ℕ) {s : Compressor}
    → Reach compress (new_compressor num_messages chunks_per_msg) s
    → map (result compress) s.filled ≡ s.delivered ++ map (result compress) (pending s)
Reach-IsInOrder compress n per_msg r = (Reach-IsGood compress n per_msg r).1

-- When no message is submitted and none is being filled, each chunk's result has been returned, in the
-- order in which the chunks were filled in, and once.
pub Reach-delivered :
    (compress : Chunk → Option Chunk) (num_messages chunks_per_msg : ℕ) {s : Compressor}
    → Reach compress (new_compressor num_messages chunks_per_msg) s
    → s.submitted_msgs ≡ []
    → s.next_submit_msg ≡ none
    → s.delivered ≡ map (result compress) s.filled
unfolding pending undelivered
Reach-delivered compress n per_msg {s} r e f =
    sym (append-nil s.delivered)
    ∙ ap₂
        (λ (xs : List ℕ) (o : Option ℕ).
          s.delivered
          ++ map (result compress)
              (undelivered s.msgs (position s s.next_ready_msg) xs ++ filling s.msgs o))
        (sym e) (sym f)
    ∙ sym (Reach-IsInOrder compress n per_msg r)
