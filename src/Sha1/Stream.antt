-- ===== src/Sha1/Stream.antt =====
-- The streaming functions of src/sha1.c. The buffer of a context keeps what it held before behind the
-- bytes that count.
use wimlib.Common.{
  ℕ, zero, suc, ◌+◌, ◌-◌, ◌*◌, ◌/◌, ◌%◌, ◌^◌, List, [], ◌∷◌, ◌++◌, length, take, drop, replicate,
  ltb, ◌==◌, if◌then◌else◌,
}
use wimlib.Sha1.Blocks.{Words, sha1_block_size, sha1_blocks}

pub record Sha1Ctx : Type 0 where
  pub bytecount : ℕ
  pub h : Words
  pub buffer : List ℕ

-- `memcpy(&buffer[at], bytes, len)`
unfoldable pub copy_to : List ℕ → ℕ → List ℕ → List ℕ
copy_to buffer at bytes = take at buffer ++ (bytes ++ drop (at + length bytes) buffer)

-- The buffer is not initialised; its bytes are zeros here.
unfoldable pub sha1_init : Sha1Ctx
sha1_init = record {
  bytecount = 0;
  h = record { a = 0x67452301; b = 0xEFCDAB89; c = 0x98BADCFE; d = 0x10325476; e = 0xC3D2E1F0 };
  buffer = replicate sha1_block_size 0;
}

-- The second half of `sha1_update`, from the whole blocks on.
unfoldable pub update_blocks : Sha1Ctx → List ℕ → Sha1Ctx
update_blocks ctx bytes =
    let blocks = length bytes / sha1_block_size in
    record ctx {
      h = sha1_blocks ctx.h bytes blocks;
      buffer = copy_to ctx.buffer 0 (drop (blocks * sha1_block_size) bytes);
    }

unfoldable pub sha1_update : Sha1Ctx → List ℕ → Sha1Ctx
sha1_update ctx bytes =
    let buffered = ctx.bytecount % sha1_block_size in
    let remaining = sha1_block_size - buffered in
    let counted = record ctx { bytecount = (ctx.bytecount + length bytes) % 2 ^ 64 } in
    if buffered == 0
    then update_blocks counted bytes
    else if ltb (length bytes) remaining
    then record counted { buffer = copy_to ctx.buffer buffered bytes }
    else update_blocks
        (record counted {
          h = sha1_blocks ctx.h (copy_to ctx.buffer buffered (take remaining bytes)) 1;
          buffer = copy_to ctx.buffer buffered (take remaining bytes);
        })
        (drop remaining bytes)

-- Big-endian bytes.
unfoldable pub put_be : ℕ → ℕ → List ℕ
put_be zero n = []
put_be (suc k) n = (n / 256 ^ k) % 256 ∷ put_be k n

-- The last block: the zeros from `buffered` on, and the count of the bits.
unfoldable pub last_block : Words → List ℕ → ℕ → ℕ → Words
last_block h buffer buffered bitcount =
    sha1_blocks h
      (copy_to (copy_to buffer buffered (replicate (sha1_block_size - 8 - buffered) 0))
        (sha1_block_size - 8) (put_be 8 bitcount))
      1

unfoldable pub sha1_final : Sha1Ctx → List ℕ
sha1_final ctx =
    let buffered = ctx.bytecount % sha1_block_size in
    let bitcount = ctx.bytecount * 8 % 2 ^ 64 in
    let marked = copy_to ctx.buffer buffered (0x80 ∷ []) in
    let full = copy_to marked (buffered + 1) (replicate (sha1_block_size - (buffered + 1)) 0) in
    let h =
      if ltb (sha1_block_size - 8) (buffered + 1)
      then last_block (sha1_blocks ctx.h full 1) full 0 bitcount
      else last_block ctx.h marked (buffered + 1) bitcount in
    put_be 4 h.a ++ (put_be 4 h.b ++ (put_be 4 h.c ++ (put_be 4 h.d ++ put_be 4 h.e)))

unfoldable pub sha1 : List ℕ → List ℕ
sha1 bytes = sha1_final (sha1_update sha1_init bytes)
