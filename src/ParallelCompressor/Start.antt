-- ===== src/ParallelCompressor/Start.antt =====
-- The end of `new_parallel_chunk_compressor` of src/compress_parallel.c: the threads are started, and the
-- messages made for those that run. The memory for all of it is taken to be there.
use wimlib.Common.{
  ℕ, zero, suc, ◌+◌, ◌*◌, refl, sym, ap, ◌∙◌, ◌≤◌, ◌≡◌, Bool, if-cases, leb, if◌then◌else◌, Option,
  none, some, arith, inl, inr,
}
use wimlib.ParallelCompressor.{Compressor, new_compressor}
use wimlib.ParallelCompressor.Plans.{Plan}

-- The loop, with the threads that are left to start and `num_started_threads`. `creates i` says whether
-- `thread_create` succeeds on thread `i`; one that fails ends the loop where two threads run, and else
-- the call.
unfoldable pub start_loop : (ℕ → Bool) → ℕ → ℕ → Option ℕ
start_loop creates zero num_started_threads = some num_started_threads
start_loop creates (suc left) num_started_threads =
    let rest = start_loop creates left (suc num_started_threads) in
    if creates num_started_threads
    then rest
    else if leb 2 num_started_threads
    then some num_started_threads
    else none

unfoldable pub start_threads : (ℕ → Bool) → ℕ → Option ℕ
start_threads creates num_threads = start_loop creates num_threads 0

-- The number of threads that run, and the compressor.
abbrev with_messages : Plan → Option ℕ → Option (ℕ × Compressor)
with_messages p none = none
with_messages p (some n) = some (n, new_compressor (n * p.msgs_per_thread) p.chunks_per_msg)

unfoldable pub start_compressor : (ℕ → Bool) → Plan → Option (ℕ × Compressor)
start_compressor creates p = with_messages p (start_threads creates p.num_threads)

start_loop_some :
    (creates : ℕ → Bool) (left started : ℕ) {n : ℕ}
    → start_loop creates left started ≡ some n
    → 2 ≤ started + left
    → 2 ≤ n
unfolding start_loop
start_loop_some creates zero started e h = ground (arith, e, h)
start_loop_some creates (suc left) started e h = elim (if-cases (creates started) e) [
  | inl (_, e') ↦ start_loop_some creates left (suc started) e' (omega (arith, h))
  | inr (_, e') ↦ ground (arith, e')
]

-- If two threads at least are wanted, two at least run, and the compressor is new.
pub start_compressor_some :
    (creates : ℕ → Bool) (p : Plan) {n : ℕ} {c : Compressor}
    → start_compressor creates p ≡ some (n, c)
    → 2 ≤ p.num_threads
    → (2 ≤ n) × (new_compressor (n * p.msgs_per_thread) p.chunks_per_msg ≡ c)
unfolding start_compressor start_threads
start_compressor_some creates p {n} {c} e h = started (start_loop creates p.num_threads 0) refl e
  where
    started :
        (r : Option ℕ)
        → start_loop creates p.num_threads 0 ≡ r
        → with_messages p r ≡ some (n, c)
        → (2 ≤ n) × (new_compressor (n * p.msgs_per_thread) p.chunks_per_msg ≡ c)
    started none f e = cc
    started (some k) f e =
        let same : k ≡ n = cc in
        let fresh : new_compressor (k * p.msgs_per_thread) p.chunks_per_msg ≡ c = cc in
        (
          start_loop_some creates p.num_threads 0 (f ∙ ap some same) (omega (arith, h)),
          ap (λ x. new_compressor (x * p.msgs_per_thread) p.chunks_per_msg) (sym same) ∙ fresh,
        )
