-- ===== src/SerialCompressor.antt =====
-- src/compress_serial.c: a chunk is compressed where it is filled in, and its result is kept until it is
-- returned. `wimlib_compress` is a parameter as in ParallelCompressor.
pub mod Equivalence
mod Tests
use wimlib.Common.{ℕ, ◌≡◌, Bool, true, false, List, [], ◌∷◌, ◌++◌, length, Option, none, some}
use wimlib.ParallelCompressor.{Chunk}

-- struct serial_chunk_compressor; `filled` and `delivered` record what went in and came out.
pub record SerialCompressor : Type 0 where
  pub usize : ℕ
  pub result_data : Option Chunk
  pub filled : List Chunk
  pub delivered : List (Chunk × ℕ)

pub new_compressor : SerialCompressor
new_compressor = record { usize = 0; result_data = none; filled = []; delivered = [] }

-- Whether there is a buffer.
pub get_chunk_buffer : SerialCompressor → Bool
get_chunk_buffer s = elim s.result_data [ some chunk ↦ false | none ↦ true ]

-- The state after the result is returned, if there is one.
pub get_compression_result : SerialCompressor → Option SerialCompressor
get_compression_result s = elim s.result_data [
  | none ↦ none
  | some chunk ↦
      some (record s { result_data = none; delivered = s.delivered ++ ((chunk, s.usize) ∷ []) })
]

module _ (compress : Chunk → Option Chunk) where
  -- The chunk that the caller has stored in the buffer.
  pub signal_chunk_filled : SerialCompressor → Chunk → SerialCompressor
  signal_chunk_filled s chunk = record s {
    usize = length chunk;
    result_data = some (elim (compress chunk) [ none ↦ chunk | some compressed ↦ compressed ]);
    filled = s.filled ++ (chunk ∷ []);
  }

  pub data Step : SerialCompressor → SerialCompressor → Type 0 where
    fill :
        {s : SerialCompressor} (chunk : Chunk)
        → get_chunk_buffer s ≡ true
        → Step s (signal_chunk_filled s chunk)
    result : {s t : SerialCompressor} → get_compression_result s ≡ some t → Step s t

  pub data Reach (s : SerialCompressor) : SerialCompressor → Type 0 where
    here : Reach s s
    next : {t u : SerialCompressor} → Reach s t → Step t u → Reach s u
