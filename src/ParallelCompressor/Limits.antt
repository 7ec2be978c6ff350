-- ===== src/ParallelCompressor/Limits.antt =====
-- The loop of the sizing in src/compress_parallel.c ends within its fuel.
use wimlib.Common.{
  ℕ, zero, suc, ◌+◌, ◌≤◌, ◌<◌, ◌≡◌, refl, ap, ◌∙◌, ◌⊎◌, inl, inr, leb, ltb, arith, none, some,
  Bool-cases,
}
use wimlib.ParallelCompressor.Plans.{Plan, reduce, required, limit}

-- The least parts that each plan has.
abbrev pub IsPlan : Plan → Type 0
IsPlan p = (1 ≤ p.chunks_per_msg) × (1 ≤ p.msgs_per_thread) × (1 ≤ p.num_threads)

abbrev plan_size : Plan → ℕ
plan_size p = p.chunks_per_msg + p.msgs_per_thread + p.num_threads

-- The next plan that the loop tries.
record IsReduced (p q : Plan) : Type 0 where
  pub valid : IsPlan q
  pub smaller : plan_size q < plan_size p
  pub chunks : q.chunks_per_msg ≤ p.chunks_per_msg
  pub messages : q.msgs_per_thread ≤ p.msgs_per_thread
  pub threads :
      (q.num_threads ≡ p.num_threads)
      ⊎ (p ≡ record { chunks_per_msg = 1; msgs_per_thread = 1; num_threads = q.num_threads + 1 })

reduce-cases :
    (p : Plan)
    → IsPlan p
    → ((reduce p ≡ none) × (p.num_threads ≡ 1)) ⊎ ((q : Plan) × (reduce p ≡ some q) × IsReduced p q)
unfolding reduce
reduce-cases p (c, m, t) = elim (Bool-cases (ltb 1 p.chunks_per_msg)) [
  | inl h ↦ rw h (
      inr (
        _,
        refl,
        record {
          valid = (ground arith, m, t);
          smaller = ground arith;
          chunks = omega arith;
          messages = omega arith;
          threads = inl refl;
        },
      ))
  | inr h ↦ elim (Bool-cases (ltb 1 p.msgs_per_thread)) [
    | inl k ↦
        rw (h, k)
          (inr (
            _,
            refl,
            record {
              valid = (c, ground arith, t);
              smaller = ground arith;
              chunks = omega arith;
              messages = omega arith;
              threads = inl refl;
            },
          ))
    | inr k ↦ elim (Bool-cases (ltb 1 p.num_threads)) [
      | inl l ↦
          rw (h, k, l)
            (inr (
              _,
              refl,
              record {
                valid = (c, m, ground arith);
                smaller = ground arith;
                chunks = omega arith;
                messages = omega arith;
                threads = inr (same_plan (ground arith) (ground arith) (ground arith));
              },
            ))
      | inr l ↦ rw (h, k, l) (inl (refl, ground arith))
    ]
  ]
]
  where
    same_plan :
        {n : ℕ}
        → p.chunks_per_msg ≡ 1
        → p.msgs_per_thread ≡ 1
        → p.num_threads ≡ n
        → p ≡ record { chunks_per_msg = 1; msgs_per_thread = 1; num_threads = n }
    same_plan a b d = λ i. record { chunks_per_msg = a i; msgs_per_thread = b i; num_threads = d i }

module _ (out_chunk_size needed max_memory : ℕ) where
  -- A plan that the loop ends with, from `p`.
  pub record IsLimited (p q : Plan) : Type 0 where
    pub valid : IsPlan q
    pub chunks : q.chunks_per_msg ≤ p.chunks_per_msg
    pub messages : q.msgs_per_thread ≤ p.msgs_per_thread
    pub threads : q.num_threads ≤ p.num_threads
    pub fits : (required out_chunk_size needed q ≤ max_memory) ⊎ (q.num_threads ≡ 1)
    pub needed_less :
        (q.num_threads ≡ p.num_threads)
        ⊎ (max_memory
            < required out_chunk_size needed (record {
              chunks_per_msg = 1;
              msgs_per_thread = 1;
              num_threads = q.num_threads + 1;
            }))

  -- What the loop does after it tried `p`.
  later :
      (p q u : Plan)
      → IsReduced p q
      → IsLimited q u
      → max_memory < required out_chunk_size needed p
      → IsLimited p u
  later p q u r w above = record {
    valid = w.valid;
    chunks = omega (arith, w.chunks, r.chunks);
    messages = omega (arith, w.messages, r.messages);
    threads = elim r.threads [
      | inl e ↦ omega (arith, w.threads, e)
      | inr e ↦ omega (arith, w.threads, ap (λ (x : Plan). x.num_threads) e)
    ];
    fits = w.fits;
    needed_less = elim w.needed_less [
      | inr l ↦ inr l
      | inl e ↦ elim r.threads [
        | inl e' ↦ inl (e ∙ e')
        | inr e' ↦ inr (
            omega (
              arith,
              above,
              ap (required out_chunk_size needed) e',
              ap
                  (λ (n : ℕ).
                    required out_chunk_size needed
                      (record { chunks_per_msg = 1; msgs_per_thread = 1; num_threads = n + 1 }))
                  e,
            ))
      ]
    ];
  }

  pub limit-IsLimited :
      (fuel : ℕ) (p : Plan)
      → IsPlan p
      → plan_size p < fuel + 3
      → (q : Plan) × (limit out_chunk_size needed max_memory fuel p ≡ some q) × IsLimited p q
  unfolding limit
  limit-IsLimited zero p (c, m, t) le = absurd (omega arith)
  limit-IsLimited (suc fuel) p v le =
      elim (Bool-cases (leb (required out_chunk_size needed p) max_memory)) [
        | inl h ↦ rw h (p, refl, ends p v (inl (ground arith)))
        | inr h ↦ elim (reduce-cases p v) [
          | inl (e, one) ↦ rw (h, e) (p, refl, ends p v (inr one))
          | inr (q, e, r) ↦
              let (u, f, w) = limit-IsLimited fuel q r.valid (omega (arith, r.smaller)) in
              rw (h, e) (u, f, later p q u r w (ground arith))
        ]
      ]
    where
      ends :
          (p : Plan)
          → IsPlan p
          → ((required out_chunk_size needed p ≤ max_memory) ⊎ (p.num_threads ≡ 1))
          → IsLimited p p
      ends p v f = record {
        valid = v;
        chunks = omega arith;
        messages = omega arith;
        threads = omega arith;
        fits = f;
        needed_less = inl refl;
      }
