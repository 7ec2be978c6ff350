-- ===== src/ParallelCompressor/Plans.antt =====
-- How many threads, messages and chunks `new_parallel_chunk_compressor` of src/compress_parallel.c takes.
use wimlib.Common.{
  ℕ, zero, suc, ◌+◌, ◌-◌, ◌*◌, ◌/◌, ◌%◌, ◌^◌, leb, ltb, min, ◌==◌, if◌then◌else◌, Option, none,
  some,
}

pub record Plan : Type 0 where
  pub chunks_per_msg : ℕ
  pub msgs_per_thread : ℕ
  pub num_threads : ℕ

-- `assertion_failed` is the end of the program at an assertion, `one_thread` is the code -1 and
-- `too_little_memory` is -2.
pub data Sizing : Type 0 where
  assertion_failed one_thread too_little_memory : Sizing
  planned : Plan → Sizing

abbrev pub max_chunks_per_msg : ℕ
max_chunks_per_msg = 16

-- `num_threads` is an unsigned int, of 32 bits. The division is by a chunk size above 0, which the
-- assertion of `plan_compressor` has established.
unfoldable pub initial_plan : ℕ → ℕ → Plan
initial_plan num_threads out_chunk_size =
    if ltb out_chunk_size (2 ^ 23)
    then record {
      chunks_per_msg = min max_chunks_per_msg (
          let wanted = 2 + num_threads * (65536 / out_chunk_size) % 2 ^ 32 / 16 in
          if ltb wanted 2 then 2 else wanted);
      msgs_per_thread = 2;
      num_threads = num_threads;
    }
    else record { chunks_per_msg = 1; msgs_per_thread = 1; num_threads = num_threads }

-- One of the three is taken down, if one is above 1.
unfoldable pub reduce : Plan → Option Plan
reduce p =
    if ltb 1 p.chunks_per_msg
    then some (record p { chunks_per_msg = p.chunks_per_msg - 1 })
    else if ltb 1 p.msgs_per_thread
    then some (record p { msgs_per_thread = p.msgs_per_thread - 1 })
    else if ltb 1 p.num_threads
    then some (record p { num_threads = p.num_threads - 1 })
    else none

-- `needed` is what `wimlib_get_compressor_needed_memory` returns for one compressor.
module _ (out_chunk_size needed : ℕ) where
  -- `approx_mem_required`, of 64 bits
  pub required : Plan → ℕ
  required p =
      (p.chunks_per_msg * p.msgs_per_thread * p.num_threads * out_chunk_size
        + out_chunk_size
        + 1000000
        + p.num_threads * needed)
      % 2 ^ 64

  -- The loop, on fuel.
  unfoldable pub limit : ℕ → ℕ → Plan → Option Plan
  limit max_memory zero p = none
  limit max_memory (suc fuel) p =
      if leb (required p) max_memory
      then some p
      else elim (reduce p) [ none ↦ some p | some q ↦ limit max_memory fuel q ]

-- The arguments 0 stand for what `get_available_cpus` and `get_available_memory` return.
unfoldable pub plan_compressor :
    (num_threads max_memory out_chunk_size cpus memory needed : ℕ) → Option Sizing
plan_compressor num_threads max_memory out_chunk_size cpus memory needed =
    let n = if num_threads == 0 then cpus else num_threads in
    let limit_to = if max_memory == 0 then memory else max_memory in
    if out_chunk_size == 0
    then some assertion_failed
    else if n == 1
    then some one_thread
    else elim (limit out_chunk_size needed limit_to (max_chunks_per_msg + 2 + n)
        (initial_plan n out_chunk_size)) [
          | none ↦ none
          | some p ↦ some (if p.num_threads == 1 then too_little_memory else planned p)
        ]

abbrev pub wanted : ℕ → ℕ → ℕ
wanted n default = if n == 0 then default else n
