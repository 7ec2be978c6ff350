-- ===== src/ParallelCompressor/Tests.antt =====
-- src/compress_parallel.c with one message of one chunk: the states of a run, and the theorems in them.
use wimlib.Common.{ltb, ◌^◌, arith, ◌≡◌, refl, [], ◌∷◌, ◌++◌, map, Option, none, some, true}
use wimlib.ParallelCompressor.{
  Compressor, Chunk, update, new_compressor, indices, get_chunk_buffer, take_available,
  signal_chunk_filled, append_chunk, submit_compression_msg, deliver, remove, compress_chunks,
  Reach, here, next, fill, take, finish, receive, begin, output,
}
use wimlib.ParallelCompressor.Filling.{taken, IsBetween}
use wimlib.ParallelCompressor.Order.{pending, result}
use wimlib.ParallelCompressor.Reachable.{Reach-IsBetween, Reach-IsInOrder}
use wimlib.ParallelCompressor.Sizing.{IsSized, plan_compressor-IsSized}
use wimlib.ParallelCompressor.Plans.{Plan, Sizing, wanted, plan_compressor}
use wimlib.ParallelCompressor.Start.{start_loop, start_threads, start_compressor}
use wimlib.ParallelCompressor.Progress.{load, CompletesWithin, Reach-CompletesWithin}

abbrev pub shorten : Chunk → Option Chunk
shorten [] = none
shorten (x ∷ chunk) = some (x ∷ [])

abbrev pub submitted : Compressor
submitted = signal_chunk_filled (taken (new_compressor 1 1) 0 []) 0 (5 ∷ 5 ∷ [])

submitted_reached : Reach shorten (new_compressor 1 1) submitted
unfolding new_compressor indices get_chunk_buffer take_available
submitted_reached = next here (fill 0 (5 ∷ 5 ∷ []) refl)

abbrev pub with_thread : Compressor
with_thread = record submitted { chunks_to_compress_queue = []; working = 0 ∷ [] }

abbrev pub compressed : Compressor
compressed = record with_thread {
  msgs = update with_thread.msgs 0 (compress_chunks shorten (with_thread.msgs 0));
  working = [];
  compressed_chunks_queue = 0 ∷ [];
}

abbrev pub received : Compressor
received = record compressed {
  msgs = update compressed.msgs 0 (record (compressed.msgs 0) { complete = true });
  compressed_chunks_queue = [];
}

abbrev pub returned : Compressor
returned = deliver received 0 0

pub returned_reached : Reach shorten (new_compressor 1 1) returned
unfolding new_compressor indices signal_chunk_filled append_chunk submit_compression_msg
    compress_chunks
returned_reached =
    next
      (next (next (next submitted_reached (take 0 [] refl)) (finish 0 [] [] refl))
        (receive 0 [] 0 [] refl refl refl refl refl))
      (begin 0 [] refl refl refl refl)

Reach-IsBetween_example : IsBetween shorten returned
Reach-IsBetween_example = Reach-IsBetween shorten 1 1 returned_reached

Reach-IsInOrder_example :
    map (result shorten) submitted.filled
    ≡ submitted.delivered ++ map (result shorten) (pending submitted)
Reach-IsInOrder_example = Reach-IsInOrder shorten 1 1 submitted_reached

-- Of three threads the third is not created; each of the two has one message.
abbrev plan : Plan
plan = record { chunks_per_msg = 1; msgs_per_thread = 1; num_threads = 3 }

abbrev waiting : Compressor
waiting = signal_chunk_filled (taken (new_compressor 2 1) 0 (1 ∷ [])) 0 (5 ∷ 5 ∷ [])

waiting_reached : Reach shorten (new_compressor 2 1) waiting
unfolding new_compressor indices get_chunk_buffer take_available
waiting_reached = next here (fill 0 (5 ∷ 5 ∷ []) refl)

Reach-CompletesWithin_example :
    CompletesWithin shorten (load waiting) 2 0 [] waiting.delivered waiting
unfolding start_compressor start_threads start_loop new_compressor indices signal_chunk_filled
    append_chunk submit_compression_msg
Reach-CompletesWithin_example =
    Reach-CompletesWithin shorten (λ i. ltb i 2) plan {num_started_threads = 2}
      {c = new_compressor 2 1} {s = waiting} 0 [] refl (omega arith) waiting_reached refl refl refl

-- The one chunk is returned compressed, with the size that it had.
returned_delivered : returned.delivered ≡ (5 ∷ [], 2) ∷ []
unfolding new_compressor indices signal_chunk_filled append_chunk submit_compression_msg
    compress_chunks deliver remove output
returned_delivered = refl

pub returned_end :
    (returned.filled ≡ (5 ∷ 5 ∷ []) ∷ [])
    × (returned.submitted_msgs ≡ [])
    × (returned.next_submit_msg ≡ none)
unfolding new_compressor indices signal_chunk_filled append_chunk submit_compression_msg
    compress_chunks deliver remove
returned_end = (refl, refl, refl)

plan_compressor-IsSized_example :
    (r : Sizing) × (plan_compressor 4 0 32768 8 (2 ^ 30) 1000000 ≡ some r)
    × IsSized (wanted 4 8) (wanted 0 (2 ^ 30)) 32768 1000000 r
plan_compressor-IsSized_example =
    plan_compressor-IsSized 4 0 32768 8 (2 ^ 30) 1000000 (omega arith) (omega arith)
