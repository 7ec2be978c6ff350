-- ===== src/ParallelCompressor/Sizing.antt =====
-- What `new_parallel_chunk_compressor` of src/compress_parallel.c comes to, when the sizing ends.
use wimlib.Common.{
  ℕ, ◌+◌, ◌*◌, ◌/◌, ◌%◌, ◌^◌, ◌≤◌, ◌<◌, ◌≡◌, refl, ap, ◌⊎◌, inl, inr, true, false, ltb, min, ◌==◌,
  ==_iff, if◌then◌else◌, arith, some, Bool-cases,
}
use wimlib.ParallelCompressor.Plans.{
  assertion_failed, one_thread, too_little_memory, planned, Plan, Sizing, max_chunks_per_msg,
  initial_plan, required, limit, plan_compressor, wanted,
}
use wimlib.ParallelCompressor.Limits.{IsPlan, IsLimited, limit-IsLimited}

initial_plan-IsPlan :
    (n out_chunk_size : ℕ)
    → 1 ≤ n
    → IsPlan (initial_plan n out_chunk_size)
      × ((initial_plan n out_chunk_size).chunks_per_msg ≤ max_chunks_per_msg)
      × ((initial_plan n out_chunk_size).msgs_per_thread ≤ 2)
      × ((initial_plan n out_chunk_size).num_threads ≡ n)
unfolding initial_plan
initial_plan-IsPlan n out_chunk_size h = elim (Bool-cases (ltb out_chunk_size (2 ^ 23))) [
  | inl e ↦
      let (low, high) = clamped (2 + n * (65536 / out_chunk_size) % 2 ^ 32 / 16) in
      rw e ((low, omega arith, h), high, omega arith, refl)
  | inr e ↦ rw e ((omega arith, omega arith, h), omega arith, omega arith, refl)
]
  where
    clamped :
        (w : ℕ)
        → (1 ≤ min max_chunks_per_msg (if ltb w 2 then 2 else w))
          × (min max_chunks_per_msg (if ltb w 2 then 2 else w) ≤ max_chunks_per_msg)
    clamped w = (ground arith, ground arith)

-- What the sizing ends with.
unfoldable pub IsSized : (num_threads max_memory out_chunk_size needed : ℕ) → Sizing → Type 0
IsSized n max_memory out_chunk_size needed assertion_failed = ⊥
IsSized n max_memory out_chunk_size needed one_thread = n ≡ 1
IsSized n max_memory out_chunk_size needed too_little_memory =
    max_memory
    < required out_chunk_size needed
        (record { chunks_per_msg = 1; msgs_per_thread = 1; num_threads = 2 })
IsSized n max_memory out_chunk_size needed (planned p) =
    (2 ≤ p.num_threads)
    × (p.num_threads ≤ n)
    × (1 ≤ p.chunks_per_msg)
    × (p.chunks_per_msg ≤ max_chunks_per_msg)
    × (1 ≤ p.msgs_per_thread)
    × (p.msgs_per_thread ≤ 2)
    × (required out_chunk_size needed p ≤ max_memory)

-- If there is a processor and the chunk size is above 0, no assertion fails and the sizing ends: with -1 for one thread, with -2 only if two threads with the
-- least messages do not fit in the memory, and otherwise with from 2 threads to as many as are wanted, 1
-- to 16 chunks in a message and 1 or 2 messages for a thread, whose estimate fits in the memory.
pub plan_compressor-IsSized :
    (num_threads max_memory out_chunk_size cpus memory needed : ℕ)
    → 1 ≤ cpus
    → 1 ≤ out_chunk_size
    → (r : Sizing) × (plan_compressor num_threads max_memory out_chunk_size cpus memory needed
        ≡ some r)
      × IsSized (wanted num_threads cpus) (wanted max_memory memory) out_chunk_size needed r
unfolding plan_compressor IsSized
plan_compressor-IsSized num_threads max_memory out_chunk_size cpus memory needed h some_size =
    sized (Bool-cases (n == 1)) (
      limit-IsLimited out_chunk_size needed limit_to (max_chunks_per_msg + 2 + n) first valid
        (omega (arith, low, few, same)))
  where
    n : ℕ
    n = wanted num_threads cpus

    limit_to : ℕ
    limit_to = wanted max_memory memory

    first : Plan
    first = initial_plan n out_chunk_size

    sized_chunk : (out_chunk_size == 0) ≡ false
    sized_chunk = ground (arith, some_size)

    some_thread : 1 ≤ n
    some_thread = ground (arith, h)

    valid : IsPlan first
    valid = (initial_plan-IsPlan n out_chunk_size some_thread).0

    low : first.chunks_per_msg ≤ max_chunks_per_msg
    low = (initial_plan-IsPlan n out_chunk_size some_thread).1

    few : first.msgs_per_thread ≤ 2
    few = (initial_plan-IsPlan n out_chunk_size some_thread).2

    same : first.num_threads ≡ n
    same = (initial_plan-IsPlan n out_chunk_size some_thread).3

    above :
        (q : Plan)
        → IsLimited out_chunk_size needed limit_to first q
        → q.num_threads ≡ 1
        → (n == 1) ≡ false
        → limit_to
          < required out_chunk_size needed
              (record { chunks_per_msg = 1; msgs_per_thread = 1; num_threads = 2 })
    above q w one more = elim w.needed_less [
      | inl e ↦ absurd (ground (arith, e, one, same))
      | inr l ↦ omega (
        arith,
        l,
        ap
            (λ (k : ℕ).
              required out_chunk_size needed
                (record { chunks_per_msg = 1; msgs_per_thread = 1; num_threads = k + 1 }))
            one,
      )
    ]

    in_memory :
        (q : Plan)
        → IsLimited out_chunk_size needed limit_to first q
        → (q.num_threads == 1) ≡ false
        → IsSized n limit_to out_chunk_size needed (planned q)
    in_memory q w g = (
      ground (arith, w.valid.2),
      omega (arith, w.threads, same),
      w.valid.0,
      omega (arith, w.chunks, low),
      w.valid.1,
      omega (arith, w.messages, few),
      elim w.fits [ inl f ↦ f | inr e ↦ absurd (ground (arith, e)) ],
    )

    sized :
        ((n == 1) ≡ true) ⊎ ((n == 1) ≡ false)
        → (q : Plan) × (limit out_chunk_size needed limit_to (max_chunks_per_msg + 2 + n) first
            ≡ some q)
          × IsLimited out_chunk_size needed limit_to first q
        → (r : Sizing) × (plan_compressor num_threads max_memory out_chunk_size cpus memory needed
            ≡ some r)
          × IsSized n limit_to out_chunk_size needed r
    sized (inl one) found = rw (sized_chunk, one) (one_thread, refl, (==_iff n 1).0 one)
    sized (inr more) (q, e, w) = elim (Bool-cases (q.num_threads == 1)) [
      | inl g ↦
          rw (sized_chunk, more, e, g) (too_little_memory, refl, above q w ((==_iff _ 1).0 g) more)
      | inr g ↦ rw (sized_chunk, more, e, g) (planned q, refl, in_memory q w g)
    ]
