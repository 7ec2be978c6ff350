-- ===== src/SerialCompressor/Equivalence.antt =====
-- src/compress_serial.c returns what src/compress_parallel.c does.
use wimlib.Common.{
  ℕ, ◌≡◌, refl, ap, sym, ◌∙◌, true, false, List, [], ◌∷◌, ◌++◌, map, length, Option, none, some,
  append-nil, subst,
}
use mathlib.Core.List.{map-append}
use wimlib.ParallelCompressor as Parallel
use wimlib.ParallelCompressor.{Chunk, output, Compressor}
use wimlib.ParallelCompressor.Order as Order
use wimlib.ParallelCompressor.Reachable.{Reach-delivered}
use wimlib.SerialCompressor.{
  SerialCompressor, new_compressor, get_chunk_buffer, get_compression_result, signal_chunk_filled,
  fill, result, Reach, here, next,
}

-- The result that is kept.
abbrev kept : Option Chunk → ℕ → List (Chunk × ℕ)
kept none n = []
kept (some chunk) n = (chunk, n) ∷ []

module _ (compress : Chunk → Option Chunk) where
  abbrev IsInOrder : SerialCompressor → Type 0
  IsInOrder s = map (Order.result compress) s.filled ≡ s.delivered ++ kept s.result_data s.usize

  fill-IsInOrder :
      (s : SerialCompressor) (chunk : Chunk)
      → get_chunk_buffer s ≡ true
      → IsInOrder s
      → IsInOrder (signal_chunk_filled compress s chunk)
  unfolding get_chunk_buffer signal_chunk_filled output
  fill-IsInOrder s chunk e o =
      map-append (Order.result compress) s.filled (chunk ∷ [])
      ∙ ap (λ xs. xs ++ (Order.result compress chunk ∷ []))
          (o
            ∙ ap (λ r. s.delivered ++ kept r s.usize) (free s.result_data e)
            ∙ append-nil s.delivered)
      ∙ ap (λ r. s.delivered ++ (r ∷ [])) (same (compress chunk))
    where
      free : (r : Option Chunk) → (elim r [ some chunk ↦ false | none ↦ true ]) ≡ true → r ≡ none
      free none e = refl
      free (some x) e = cc

      same :
          (r : Option Chunk)
          → output r chunk ≡ (elim r [ none ↦ chunk | some compressed ↦ compressed ], length chunk)
      same none = refl
      same (some x) = refl

  result-IsInOrder :
      (s t : SerialCompressor) → get_compression_result s ≡ some t → IsInOrder s → IsInOrder t
  unfolding get_compression_result
  result-IsInOrder s t e o = by_data s.result_data refl e
    where
      some_state : {x y : SerialCompressor} → some x ≡ some y → x ≡ y
      some_state e = cc

      by_data :
          (r : Option Chunk)
          → s.result_data ≡ r
          → (elim r [
            | none ↦ none
            | some chunk ↦ some (record s {
              result_data = none;
              delivered = s.delivered ++ ((chunk, s.usize) ∷ []);
            })
          ])
            ≡ some t
          → IsInOrder t
      by_data none f e = cc
      by_data (some chunk) f e = subst IsInOrder (some_state e) (
          o
          ∙ ap (λ r. s.delivered ++ kept r s.usize) f
          ∙ sym (append-nil (s.delivered ++ ((chunk, s.usize) ∷ []))))

  Reach-IsInOrder : {s : SerialCompressor} → Reach compress new_compressor s → IsInOrder s
  unfolding new_compressor
  Reach-IsInOrder here = refl
  Reach-IsInOrder (next r (fill {s} chunk e)) = fill-IsInOrder s chunk e (Reach-IsInOrder r)
  Reach-IsInOrder (next r (result {s} {t} e)) = result-IsInOrder s t e (Reach-IsInOrder r)

-- The two compressors agree: when the same chunks were filled into a serial and into a parallel one, by
-- whatever steps, and neither has anything left to return, both have returned the same results in the
-- same order.
pub serial_parallel_results :
    (compress : Chunk → Option Chunk) (num_messages chunks_per_msg : ℕ) {s : SerialCompressor}
    {p : Compressor}
    → Reach compress new_compressor s
    → Parallel.Reach compress (Parallel.new_compressor num_messages chunks_per_msg) p
    → s.filled ≡ p.filled
    → s.result_data ≡ none
    → p.submitted_msgs ≡ []
    → p.next_submit_msg ≡ none
    → s.delivered ≡ p.delivered
serial_parallel_results compress n per_msg {s} {p} r r' same e f g =
    sym (append-nil s.delivered)
    ∙ ap (λ o. s.delivered ++ kept o s.usize) (sym e)
    ∙ sym (Reach-IsInOrder compress r)
    ∙ ap (map (Order.result compress)) same
    ∙ sym (Reach-delivered compress n per_msg r' f g)
