-- ===== src/ParallelCompressor/Delivery.antt =====
-- Returning a chunk in src/compress_parallel.c keeps the state.
use wimlib.Common.{
  ℕ, ◌+◌, ◌<◌, ◌≡◌, ap, sym, ◌∙◌, Bool, true, false, List, [], ◌∷◌, length, ◌==◌, ==_iff,
  if◌then◌else◌, arith, Option, Bool-cases, inl, inr,
}
use wimlib.ParallelCompressor.{Compressor, Chunk, remove, deliver}
use wimlib.ParallelCompressor.Frames.{occ, occ-snoc, remove_front}
use wimlib.ParallelCompressor.Invariant.{IsFront, IsCompressor}

-- The rest of a list behind its front.
pub behind_front :
    (m : ℕ) (xs : List ℕ) → IsFront m xs → (rest : List ℕ) × (xs ≡ m ∷ rest) × (remove m xs ≡ rest)
behind_front m [] f = absurd f
behind_front m (x ∷ xs) f =
    (xs, ap (λ k. k ∷ xs) f, ap (λ k. remove m (k ∷ xs)) f ∙ remove_front m xs)

module _ (compress : Chunk → Option Chunk) (s : Compressor) (v : IsCompressor compress s) where
  pub deliver-IsCompressor :
      (m idx : ℕ)
      → IsFront m s.submitted_msgs
      → (s.msgs m).complete ≡ true
      → idx < length (s.msgs m).uncompressed_chunks
      → IsCompressor compress (deliver s m idx)
  unfolding deliver occ
  deliver-IsCompressor m idx f c l =
      let (rest, e, r) = behind_front m s.submitted_msgs f in
      elim (Bool-cases (idx + 1 == length (s.msgs m).uncompressed_chunks)) [
        | inl h ↦ rw h (record {
          owned = λ n.
              omega (arith, v.owned n, ap (occ n) e, ap (occ n) r, occ-snoc n m s.available_msgs);
          in_flight = λ n. elim (Bool-cases (m == n)) [
            | inl g ↦
                v.in_flight n
                ∙ ap {B = ℕ} (λ (b : Bool). if b then 0 else occ n s.submitted_msgs) (done n g)
                ∙ ap {B = ℕ} (λ (b : Bool). if b then 0 else occ n (remove m s.submitted_msgs))
                    (sym (done n g))
            | inr g ↦
                v.in_flight n ∙ ap (λ k. if (s.msgs n).complete then 0 else k) (others n g rest e r)
          ];
          results_complete =
              λ n d o. v.results_complete n d (omega (arith, ap (occ n) e, ap (occ n) r));
          results_queued = v.results_queued;
          submitted_filled =
              λ n o. v.submitted_filled n (omega (arith, ap (occ n) e, ap (occ n) r));
          ready = tt;
        })
        | inr h ↦ rw h (record {
          owned = v.owned;
          in_flight = v.in_flight;
          results_complete = v.results_complete;
          results_queued = v.results_queued;
          submitted_filled = v.submitted_filled;
          ready = (f, c, more h);
        })
      ]
    where
      more :
          (idx + 1 == length (s.msgs m).uncompressed_chunks) ≡ false
          → idx + 1 < length (s.msgs m).uncompressed_chunks
      more h = ground arith

      done : (n : ℕ) → (m == n) ≡ true → (s.msgs n).complete ≡ true
      done n g = ap (λ k. (s.msgs k).complete) (sym ((==_iff m n).0 g)) ∙ c

      others :
          (n : ℕ)
          → (m == n) ≡ false
          → (rest : List ℕ) → s.submitted_msgs ≡ m ∷ rest
          → remove m s.submitted_msgs ≡ rest
          → occ n s.submitted_msgs ≡ occ n (remove m s.submitted_msgs)
      others n g rest e r =
          omega (
            arith,
            ap (occ n) e,
            ap (occ n) r,
            ap {B = ℕ} (λ b. (if b then 1 else 0) + occ n rest) g,
          )
