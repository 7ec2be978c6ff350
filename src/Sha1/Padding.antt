-- ===== src/Sha1/Padding.antt =====
-- What `sha1_final` of src/sha1.c hashes last: the bytes that are pending, and the padding.
use wimlib.Common.{
  ℕ, zero, suc, ◌+◌, ◌-◌, ◌*◌, ◌%◌, ◌^◌, ◌≤◌, ◌<◌, ◌≡◌, refl, ap, ap₂, sym, ◌∙◌, List, [], ◌∷◌,
  ◌++◌, length, take, drop, replicate, ltb, if◌then◌else◌, arith, length-append, length-take,
  length-drop, drop_all, append-nil, append_assoc, length-replicate, Bool-cases, inl, inr,
}
use wimlib.Common.Bytes.{take-append}
use wimlib.Sha1.Blocks.{Words, sha1_block_size, sha1_blocks}
use wimlib.Sha1.Stream.{Sha1Ctx, copy_to, put_be, last_block, sha1_final}

-- The buffer is as large as a block.
pub record IsSha1Ctx (c : Sha1Ctx) : Type 0 where
  pub buffer : length c.buffer ≡ sha1_block_size

-- The bytes of the buffer that count.
unfoldable pub pending : Sha1Ctx → List ℕ
pending c = take (c.bytecount % sha1_block_size) c.buffer

pub length-copy_to :
    (buffer : List ℕ) (at : ℕ) (bytes : List ℕ)
    → at + length bytes ≤ length buffer
    → length (copy_to buffer at bytes) ≡ length buffer
unfolding copy_to
length-copy_to buffer at bytes h = omega (
  arith,
  length-append (take at buffer) (bytes ++ drop (at + length bytes) buffer),
  length-append bytes (drop (at + length bytes) buffer),
  length-take at buffer,
  length-drop (at + length bytes) buffer,
)

pub take-copy_to :
    (buffer : List ℕ) (at n : ℕ) (bytes : List ℕ)
    → at + length bytes ≤ length buffer
    → n ≡ at + length bytes
    → take n (copy_to buffer at bytes) ≡ take at buffer ++ bytes
unfolding copy_to
take-copy_to buffer at n bytes h e =
    ap₂ (λ (k : ℕ) (s : List ℕ). take k s)
      (e ∙ omega (arith, length-append (take at buffer) bytes, length-take at buffer))
      (sym (append_assoc (take at buffer) bytes (drop (at + length bytes) buffer)))
    ∙ take-append (take at buffer ++ bytes) (drop (at + length bytes) buffer)

pub copy_to_end :
    (buffer : List ℕ) (at : ℕ) (bytes : List ℕ)
    → at + length bytes ≡ length buffer
    → copy_to buffer at bytes ≡ take at buffer ++ bytes
unfolding copy_to
copy_to_end buffer at bytes e =
    ap (λ s. take at buffer ++ (bytes ++ s))
      (drop_all (at + length bytes) buffer (omega (arith, e)))
    ∙ ap (λ s. take at buffer ++ s) (append-nil bytes)

length-put_be : (k n : ℕ) → length (put_be k n) ≡ k
unfolding put_be
length-put_be zero n = refl
length-put_be (suc k) n = ap suc (length-put_be k n)

abbrev zeros : ℕ → List ℕ
zeros n = replicate n 0

last_block-front :
    (h : Words) (buffer front : List ℕ) (n count : ℕ)
    → length buffer ≡ 64
    → n ≤ 56
    → take n buffer ≡ front
    → last_block h buffer n count ≡ sha1_blocks h ((front ++ zeros (56 - n)) ++ put_be 8 count) 1
unfolding last_block
last_block-front h buffer front n count len small e =
    ap (λ s. sha1_blocks h s 1)
      (copy_to_end _ 56 (put_be 8 count) (
          omega (
            arith,
            length-put_be 8 count,
            length-copy_to buffer n (zeros (56 - n)) (omega (arith, len, fill)),
            len,
          ))
        ∙ ap (λ s. s ++ put_be 8 count)
            (take-copy_to buffer n 56 (zeros (56 - n)) (omega (arith, len, fill))
                (omega (arith, fill))
              ∙ ap (λ s. s ++ zeros (56 - n)) e))
  where
    fill : length (zeros (56 - n)) ≡ 56 - n
    fill = length-replicate (56 - n) 0

-- The state after the last blocks, from the `n` bytes that are pending.
unfoldable pub padded : Words → List ℕ → ℕ → ℕ → Words
padded h front n count =
    if ltb 56 (n + 1)
    then sha1_blocks (sha1_blocks h ((front ++ (0x80 ∷ [])) ++ zeros (63 - n)) 1)
        (zeros 56 ++ put_be 8 count) 1
    else sha1_blocks h (((front ++ (0x80 ∷ [])) ++ zeros (56 - (n + 1))) ++ put_be 8 count) 1

pub digest_bytes : Words → List ℕ
digest_bytes h = put_be 4 h.a ++ (put_be 4 h.b ++ (put_be 4 h.c ++ (put_be 4 h.d ++ put_be 4 h.e)))

module _ (h : Words) (buffer front : List ℕ) (n count : ℕ) (len : length buffer ≡ 64) (few : n < 64)
    (e : take n buffer ≡ front) where
  marked : List ℕ
  marked = copy_to buffer n (0x80 ∷ [])

  full : List ℕ
  full = copy_to marked (n + 1) (zeros (64 - (n + 1)))

  length-marked : length marked ≡ 64
  unfolding marked
  length-marked = length-copy_to buffer n (0x80 ∷ []) (omega (arith, len)) ∙ len

  take-marked : take (n + 1) marked ≡ front ++ (0x80 ∷ [])
  unfolding marked
  take-marked =
      take-copy_to buffer n (n + 1) (0x80 ∷ []) (omega (arith, len)) refl
      ∙ ap (λ s. s ++ (0x80 ∷ [])) e

  full_bytes : full ≡ (front ++ (0x80 ∷ [])) ++ zeros (63 - n)
  unfolding full
  full_bytes =
      copy_to_end marked (n + 1) (zeros (64 - (n + 1)))
        (omega (arith, length-marked, length-replicate {A = ℕ} (64 - (n + 1)) 0))
      ∙ ap₂ (λ (s t : List ℕ). s ++ t) take-marked (ap zeros (omega arith))

  length-full : length full ≡ 64
  unfolding full
  length-full =
      length-copy_to marked (n + 1) (zeros (64 - (n + 1)))
        (omega (arith, length-marked, length-replicate {A = ℕ} (64 - (n + 1)) 0))
      ∙ length-marked

  pub final_words :
      (if ltb 56 (n + 1)
        then last_block
            (sha1_blocks h
              (copy_to (copy_to buffer n (0x80 ∷ [])) (n + 1) (zeros (64 - (n + 1))))
              1)
            (copy_to (copy_to buffer n (0x80 ∷ [])) (n + 1) (zeros (64 - (n + 1))))
            0
            count
        else last_block h (copy_to buffer n (0x80 ∷ [])) (n + 1) count)
      ≡ padded h front n count
  unfolding padded full marked
  final_words = elim (Bool-cases (ltb 56 (n + 1))) [
    | inl b ↦ rw b (
        last_block-front _ full [] 0 count length-full (omega arith) refl
        ∙ ap (λ s. sha1_blocks (sha1_blocks h s 1) (zeros 56 ++ put_be 8 count) 1) full_bytes)
    | inr b ↦ rw b (
        last_block-front h marked (front ++ (0x80 ∷ [])) (n + 1) count length-marked (ground arith)
          take-marked)
  ]

pub sha1_final-pending :
    (c : Sha1Ctx)
    → IsSha1Ctx c
    → sha1_final c
      ≡ digest_bytes
          (padded c.h (pending c) (c.bytecount % sha1_block_size) (c.bytecount * 8 % 2 ^ 64))
unfolding sha1_final digest_bytes pending
sha1_final-pending c v = ap digest_bytes (
    final_words c.h c.buffer (pending c) (c.bytecount % 64) (c.bytecount * 8 % 2 ^ 64) v.buffer
      (omega arith) refl)
