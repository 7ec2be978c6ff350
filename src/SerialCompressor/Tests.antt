-- ===== src/SerialCompressor/Tests.antt =====
-- src/compress_serial.c and src/compress_parallel.c on one chunk.
use wimlib.Common.{◌≡◌, refl, sym, [], ◌∷◌, none}
use wimlib.ParallelCompressor.Tests.{shorten, returned, returned_reached, returned_end}
use wimlib.SerialCompressor as Serial
use wimlib.SerialCompressor.{
  SerialCompressor, fill, result, here, next, get_chunk_buffer, get_compression_result,
}
use wimlib.SerialCompressor.Equivalence.{serial_parallel_results}

abbrev serial : SerialCompressor
serial = record {
  usize = 2;
  result_data = none;
  filled = (5 ∷ 5 ∷ []) ∷ [];
  delivered = (5 ∷ [], 2) ∷ [];
}

serial_reached : Serial.Reach shorten Serial.new_compressor serial
unfolding Serial.new_compressor Serial.signal_chunk_filled get_chunk_buffer get_compression_result
serial_reached = next (next here (fill (5 ∷ 5 ∷ []) refl)) (result refl)

serial_parallel_results_example : serial.delivered ≡ returned.delivered
serial_parallel_results_example =
    serial_parallel_results shorten 1 1 serial_reached returned_reached (sym returned_end.0) refl
      returned_end.1 returned_end.2
