-- ===== src/Lzx/Tests.antt =====
-- The theorem on src/lzx_common.c at one buffer.
use wimlib.Common.{ℕ, ◌≡◌, List, ◌∷◌, replicate, arith}
use wimlib.Lzx.{lzx_preprocess, lzx_postprocess}
use wimlib.Lzx.Filter.{lzx_filters_inverse}

-- A call at offset 2, and the bytes that the filter leaves alone.
abbrev code : List ℕ
code = 0x90 ∷ 0x90 ∷ 0xe8 ∷ 0x10 ∷ 0 ∷ 0 ∷ 0 ∷ replicate 8 0x90

lzx_filters_inverse_example :
    (lzx_postprocess (lzx_preprocess code) ≡ code) × (lzx_preprocess (lzx_postprocess code) ≡ code)
lzx_filters_inverse_example = lzx_filters_inverse code (ground arith) (omega arith)
