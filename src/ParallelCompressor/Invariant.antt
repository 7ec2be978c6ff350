-- ===== src/ParallelCompressor/Invariant.antt =====
-- The state of src/compress_parallel.c: which lists a message is on, and what it holds there.
use wimlib.Common.{
  ℕ, ◌+◌, ◌≤◌, ◌<◌, ◌≡◌, refl, ap, sym, ◌∙◌, Bool, true, false, List, [], ◌∷◌, ◌++◌, map, length,
  ◌==◌, ==_iff, if◌then◌else◌, arith, Option, none, some, Bool-cases, inl, inr, subst,
}
use wimlib.ParallelCompressor.{
  Message, Compressor, Chunk, update, compress_chunks, finish_message, new_compressor,
}
use wimlib.ParallelCompressor.Frames.{occ, occ_option, occ-snoc, occ-middle, occ-indices}

-- The message that is being delivered is the first submitted one, complete, with a chunk to go.
abbrev pub IsFront : ℕ → List ℕ → Type 0
IsFront m [] = ⊥
IsFront m (x ∷ xs) = x ≡ m

abbrev pub IsReady : (ℕ → Message) → List ℕ → ℕ → Option ℕ → Type 0
IsReady msgs submitted idx none = Unit
IsReady msgs submitted idx (some m) =
    IsFront m submitted × ((msgs m).complete ≡ true) × (idx < length (msgs m).uncompressed_chunks)

abbrev pub IsFilling : Compressor → Option ℕ → Type 0
IsFilling s none = Unit
IsFilling s (some m) = 0 < length (s.msgs m).uncompressed_chunks

pub update_chunks :
    (msgs : ℕ → Message) (m : ℕ) (v : Message) (n : ℕ)
    → v.uncompressed_chunks ≡ (msgs m).uncompressed_chunks
    → (update msgs m v n).uncompressed_chunks ≡ (msgs n).uncompressed_chunks
update_chunks msgs m v n e = elim (Bool-cases (m == n)) [
  | inl h ↦ rw h (e ∙ ap (λ k. (msgs k).uncompressed_chunks) ((==_iff m n).0 h))
  | inr h ↦ rw h refl
]

pub update_complete :
    (msgs : ℕ → Message) (m : ℕ) (v : Message) (n : ℕ)
    → v.complete ≡ (msgs m).complete
    → (update msgs m v n).complete ≡ (msgs n).complete
update_complete msgs m v n e = elim (Bool-cases (m == n)) [
  | inl h ↦ rw h (e ∙ ap (λ k. (msgs k).complete) ((==_iff m n).0 h))
  | inr h ↦ rw h refl
]

-- A message that another one stands before.
pub occ_other :
    (m n : ℕ) (xs : List ℕ) → (m == n) ≡ false → 1 ≤ occ n (xs ++ (m ∷ [])) → 1 ≤ occ n xs
occ_other m n xs h o =
    omega (arith, occ-snoc n m xs, ap {B = ℕ} (λ (b : Bool). if b then 1 else 0) h)

pub front-occ : (m : ℕ) (xs : List ℕ) → IsFront m xs → 1 ≤ occ m xs
unfolding occ
front-occ m [] f = absurd f
front-occ m (x ∷ xs) f = rw ((==_iff x m).1 f) (omega arith)

-- What `IsReady` reads.
pub IsReady-frame :
    (msgs msgs' : ℕ → Message) (submitted submitted' : List ℕ) (idx : ℕ) (o : Option ℕ)
    → ((m : ℕ) → IsFront m submitted → IsFront m submitted')
    → ((n : ℕ) → 1 ≤ occ n submitted → (msgs' n).uncompressed_chunks ≡ (msgs n).uncompressed_chunks)
    → ((n : ℕ) → 1 ≤ occ n submitted → (msgs n).complete ≡ true → (msgs' n).complete ≡ true)
    → IsReady msgs submitted idx o
    → IsReady msgs' submitted' idx o
IsReady-frame msgs msgs' submitted submitted' idx none first chunks done r = tt
IsReady-frame msgs msgs' submitted submitted' idx (some m) first chunks done (f, c, l) = (
  first m f,
  done m (front-occ m submitted f) c,
  omega (arith, l, ap length (chunks m (front-occ m submitted f))),
)

module _ (compress : Chunk → Option Chunk) where
  abbrev pub HasResults : Message → Type 0
  HasResults msg = msg.compressed_chunks ≡ map compress msg.uncompressed_chunks

  -- Each message is available, being filled or submitted, and only one of these; a submitted message is
  -- complete or on its way through the threads, once. Where a thread is done with it, it has the results
  -- of its chunks. A submitted message has a chunk.
  pub record IsCompressor (s : Compressor) : Type 0 where
    pub owned :
        (n : ℕ)
        → occ n s.available_msgs + occ_option n s.next_submit_msg + occ n s.submitted_msgs ≤ 1
    pub in_flight :
        (n : ℕ)
        → occ n s.chunks_to_compress_queue + occ n s.working + occ n s.compressed_chunks_queue
          ≡ (if (s.msgs n).complete then 0 else occ n s.submitted_msgs)
    pub results_complete :
        (n : ℕ) → (s.msgs n).complete ≡ true → 1 ≤ occ n s.submitted_msgs → HasResults (s.msgs n)
    pub results_queued : (n : ℕ) → 1 ≤ occ n s.compressed_chunks_queue → HasResults (s.msgs n)
    pub submitted_filled :
        (n : ℕ) → 1 ≤ occ n s.submitted_msgs → 0 < length (s.msgs n).uncompressed_chunks
    pub ready : IsReady s.msgs s.submitted_msgs s.next_chunk_idx s.next_ready_msg

  pub new_compressor-IsCompressor : (n per_msg : ℕ) → IsCompressor (new_compressor n per_msg)
  unfolding new_compressor occ
  new_compressor-IsCompressor n per_msg = record {
    owned = λ k. omega (arith, (occ-indices k 0 n).0);
    in_flight = λ k. refl;
    results_complete = λ k h o. cc;
    results_queued = λ k o. absurd (omega arith);
    submitted_filled = λ k o. absurd (omega arith);
    ready = tt;
  }

  pub take-IsCompressor :
      (s : Compressor) (m : ℕ) (rest : List ℕ)
      → s.chunks_to_compress_queue ≡ m ∷ rest
      → IsCompressor s
      → IsCompressor (record s { chunks_to_compress_queue = rest; working = m ∷ s.working })
  unfolding occ
  take-IsCompressor s m rest e v = record {
    owned = v.owned;
    in_flight = λ n. omega (arith, v.in_flight n, ap (occ n) e);
    results_complete = v.results_complete;
    results_queued = v.results_queued;
    submitted_filled = v.submitted_filled;
    ready = v.ready;
  }

  pub finish-IsCompressor :
      (s : Compressor) (m : ℕ) (front back : List ℕ)
      → s.working ≡ front ++ (m ∷ back)
      → IsCompressor s
      → IsCompressor (finish_message compress s m (front ++ back))
  unfolding compress_chunks
  finish-IsCompressor s m front back e v = record {
    owned = v.owned;
    in_flight = λ n.
        moved n
        ∙ v.in_flight n
        ∙ ap (λ c. if c then 0 else occ n s.submitted_msgs)
            (sym (update_complete s.msgs m _ n refl));
    results_complete = λ n. elim (Bool-cases (m == n)) [
      | inl h ↦ rw h (λ c o. refl)
      | inr h ↦ rw h (v.results_complete n)
    ];
    results_queued = λ n. elim (Bool-cases (m == n)) [
      | inl h ↦ rw h (λ o. refl)
      | inr h ↦ rw h (λ o. v.results_queued n (occ_other m n s.compressed_chunks_queue h o))
    ];
    submitted_filled = λ n o.
        subst (λ (c : List Chunk). 0 < length c)
          (sym (update_chunks s.msgs m (compress_chunks compress (s.msgs m)) n refl))
          (v.submitted_filled n o);
    ready =
        IsReady-frame s.msgs (update s.msgs m (compress_chunks compress (s.msgs m)))
          s.submitted_msgs _ s.next_chunk_idx s.next_ready_msg (λ k f. f)
          (λ n o. update_chunks s.msgs m _ n refl) (λ n o c. update_complete s.msgs m _ n refl ∙ c)
          v.ready;
  }
    where
      moved :
          (n : ℕ)
          → occ n s.chunks_to_compress_queue
              + occ n (front ++ back)
              + occ n (s.compressed_chunks_queue ++ (m ∷ []))
            ≡ occ n s.chunks_to_compress_queue + occ n s.working + occ n s.compressed_chunks_queue
      moved n =
          omega
            (arith, ap (occ n) e, occ-middle n m front back, occ-snoc n m s.compressed_chunks_queue)

  pub receive-IsCompressor :
      (s : Compressor) (m : ℕ) (rest : List ℕ)
      → s.compressed_chunks_queue ≡ m ∷ rest
      → IsCompressor s
      → IsCompressor (record s {
        msgs = update s.msgs m (record (s.msgs m) { complete = true });
        compressed_chunks_queue = rest;
      })
  unfolding occ
  receive-IsCompressor s m rest e v = record {
    owned = v.owned;
    in_flight = λ n. elim (Bool-cases (m == n)) [
      | inl h ↦ rw h (omega (arith, arrived n h))
      | inr h ↦ rw h (omega (arith, v.in_flight n, ap (occ n) e, skipped n h))
    ];
    results_complete = λ n. elim (Bool-cases (m == n)) [
      | inl h ↦ rw h (λ c o. v.results_queued m (here_now m ((==_iff m m).1 refl)))
      | inr h ↦ rw h (v.results_complete n)
    ];
    results_queued = λ n o. elim (Bool-cases (m == n)) [
      | inl h ↦ rw h (v.results_queued m (here_now m ((==_iff m m).1 refl)))
      | inr h ↦ rw h (v.results_queued n (later n o))
    ];
    submitted_filled = λ n o.
        subst (λ (c : List Chunk). 0 < length c)
          (sym (update_chunks s.msgs m (record (s.msgs m) { complete = true }) n refl))
          (v.submitted_filled n o);
    ready =
        IsReady-frame s.msgs (update s.msgs m (record (s.msgs m) { complete = true }))
          s.submitted_msgs _ s.next_chunk_idx s.next_ready_msg (λ k f. f)
          (λ n o. update_chunks s.msgs m _ n refl)
          (λ n o. elim (Bool-cases (m == n)) [ inl h ↦ rw h (λ c. refl) | inr h ↦ rw h (λ c. c) ])
          v.ready;
  }
    where
      here_now : (n : ℕ) → (m == n) ≡ true → 1 ≤ occ n s.compressed_chunks_queue
      here_now n h =
          omega (arith, ap (occ n) e, ap {B = ℕ} (λ b. (if b then 1 else 0) + occ n rest) h)

      later : (n : ℕ) → 1 ≤ occ n rest → 1 ≤ occ n s.compressed_chunks_queue
      later n o = omega (arith, ap (occ n) e)

      skipped : (n : ℕ) → (m == n) ≡ false → occ n (m ∷ rest) ≡ occ n rest
      skipped n h = omega (arith, ap {B = ℕ} (λ b. (if b then 1 else 0) + occ n rest) h)

      arrived :
          (n : ℕ)
          → (m == n) ≡ true
          → occ n s.chunks_to_compress_queue + occ n s.working + occ n rest ≡ 0
      arrived n h = ground (
        arith,
        v.in_flight n,
        v.owned n,
        here_now n h,
        ap (occ n) e,
        ap {B = ℕ} (λ b. (if b then 1 else 0) + occ n rest) h,
      )
