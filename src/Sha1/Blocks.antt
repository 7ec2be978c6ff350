-- ===== src/Sha1/Blocks.antt =====
-- The portable compression function of src/sha1.c. Words are 32 bits wide.
use wimlib.Common.{
  ℕ, zero, suc, ◌+◌, ◌-◌, ◌*◌, ◌/◌, ◌%◌, ◌^◌, List, take, drop, set, get_or, replicate, ltb,
  if◌then◌else◌,
}
use Prim.Native.Nat.{bit_and, bit_or, bit_xor}

abbrev pub sha1_block_size : ℕ
sha1_block_size = 64

pub record Words : Type 0 where
  pub a : ℕ
  pub b : ℕ
  pub c : ℕ
  pub d : ℕ
  pub e : ℕ

unfoldable pub rol32 : ℕ → ℕ → ℕ
rol32 v bits = bit_or (v * 2 ^ bits % 2 ^ 32) (v / 2 ^ (32 - bits))

unfoldable pub sha1_k : ℕ → ℕ
sha1_k i =
    if ltb i 20
    then 0x5A827999
    else if ltb i 40
    then 0x6ED9EBA1
    else if ltb i 60
    then 0x8F1BBCDC
    else 0xCA62C1D6

unfoldable pub sha1_f : ℕ → ℕ → ℕ → ℕ → ℕ
sha1_f i b c d =
    if ltb i 20
    then bit_xor (bit_and b (bit_xor c d)) d
    else if ltb i 40
    then bit_xor (bit_xor b c) d
    else if ltb i 60
    then bit_xor (bit_and c d) (bit_and b (bit_xor c d))
    else bit_xor (bit_xor b c) d

-- `get_unaligned_be32`
unfoldable pub get_be32 : List ℕ → ℕ
get_be32 s = ((get_or s 0 0 * 256 + get_or s 1 0) * 256 + get_or s 2 0) * 256 + get_or s 3 0

-- The word of the message schedule for round `i`; `w` holds the last 16.
unfoldable pub schedule : ℕ → List ℕ → List ℕ → ℕ
schedule i w bytes =
    if ltb i 16
    then get_be32 (drop (i * 4) bytes)
    else rol32
        (bit_xor (bit_xor (get_or w ((i - 16) % 16) 0) (get_or w ((i - 14) % 16) 0))
          (bit_xor (get_or w ((i - 8) % 16) 0) (get_or w ((i - 3) % 16) 0)))
        1

-- SHA1_GENERIC_ROUND: the variables change their places from round to round.
unfoldable pub sha1_round : ℕ → ℕ → Words → Words
sha1_round i word s = record {
  a = (s.e + word + rol32 s.a 5 + sha1_f i s.b s.c s.d + sha1_k i) % 2 ^ 32;
  b = s.a;
  c = rol32 s.b 30;
  d = s.c;
  e = s.d;
}

-- The rounds from `i` on, `left` of them.
unfoldable pub sha1_rounds : ℕ → ℕ → List ℕ → List ℕ → Words → Words
sha1_rounds zero i w bytes s = s
sha1_rounds (suc left) i w bytes s =
    let word = schedule i w bytes in
    sha1_rounds left (suc i) (set w (i % 16) word) bytes (sha1_round i word s)

-- The body of the loop over the blocks.
unfoldable pub sha1_block : Words → List ℕ → Words
sha1_block h bytes =
    let s = sha1_rounds 80 0 (replicate 16 0) bytes h in
    record {
      a = (h.a + s.a) % 2 ^ 32;
      b = (h.b + s.b) % 2 ^ 32;
      c = (h.c + s.c) % 2 ^ 32;
      d = (h.d + s.d) % 2 ^ 32;
      e = (h.e + s.e) % 2 ^ 32;
    }

-- The loop of `sha1_blocks_generic`; its callers give one block at least.
unfoldable pub sha1_blocks : Words → List ℕ → ℕ → Words
sha1_blocks h bytes zero = h
sha1_blocks h bytes (suc num_blocks) =
    sha1_blocks (sha1_block h (take sha1_block_size bytes)) (drop sha1_block_size bytes) num_blocks
