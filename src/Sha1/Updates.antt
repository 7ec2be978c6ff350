-- ===== src/Sha1/Updates.antt =====
-- What `sha1_update` of src/sha1.c makes of a context.
use wimlib.Common.{
  ℕ, zero, suc, ◌+◌, ◌-◌, ◌*◌, ◌/◌, ◌%◌, ◌^◌, ◌≤◌, ◌<◌, ◌≡◌, refl, ap, ap₂, sym, ◌∙◌, List, [], ◌∷◌,
  ◌++◌, length, take, drop, ltb, ◌==◌, ==_iff, arith, length-append, length-take, length-drop,
  drop_all, append_assoc, Bool-cases, inl, inr, take-append-drop, subst,
}
use wimlib.FileIo.Read.{drop_more}
use wimlib.Sha1.Blocks.{Words, sha1_blocks, sha1_block}
use wimlib.Sha1.Stream.{Sha1Ctx, copy_to, sha1_update, update_blocks}
use wimlib.Sha1.Padding.{IsSha1Ctx, pending, length-copy_to, take-copy_to, copy_to_end}

take_front : (n : ℕ) (xs ys : List ℕ) → n ≤ length xs → take n (xs ++ ys) ≡ take n xs
take_front zero xs ys h = refl
take_front (suc n) [] ys h = absurd (omega arith)
take_front (suc n) (x ∷ xs) ys h = ap (◌∷◌ x) (take_front n xs ys (omega arith))

pub drop_front : (n : ℕ) (xs ys : List ℕ) → n ≤ length xs → drop n (xs ++ ys) ≡ drop n xs ++ ys
drop_front zero xs ys h = refl
drop_front (suc n) [] ys h = absurd (omega arith)
drop_front (suc n) (x ∷ xs) ys h = drop_front n xs ys (omega arith)

pub blocks_split :
    (n m : ℕ) (h : Words) (s : List ℕ)
    → sha1_blocks h s (n + m) ≡ sha1_blocks (sha1_blocks h s n) (drop (n * 64) s) m
unfolding sha1_blocks
blocks_split zero m h s = let e : 0 + m ≡ m = omega arith in ap (sha1_blocks h s) e
blocks_split (suc n) m h s =
    let e : suc n + m ≡ suc (n + m) = omega arith in
    let e' : 64 + n * 64 ≡ suc n * 64 = omega arith in
    ap (sha1_blocks h s) e
    ∙ blocks_split n m (sha1_block h (take 64 s)) (drop 64 s)
    ∙ ap (λ t. sha1_blocks (sha1_blocks (sha1_block h (take 64 s)) (drop 64 s) n) t m)
        (drop_more 64 (n * 64) s ∙ ap (λ k. drop k s) e')

pub blocks_front :
    (n : ℕ) (h : Words) (xs ys : List ℕ)
    → n * 64 ≤ length xs
    → sha1_blocks h (xs ++ ys) n ≡ sha1_blocks h xs n
unfolding sha1_blocks
blocks_front zero h xs ys le = refl
blocks_front (suc n) h xs ys le =
    ap₂ (λ (s t : List ℕ). sha1_blocks (sha1_block h s) t n) (take_front 64 xs ys (omega arith))
      (drop_front 64 xs ys (omega arith))
    ∙ blocks_front n (sha1_block h (take 64 xs)) (drop 64 xs) ys (omega (arith, length-drop 64 xs))

-- A context after the blocks of all the bytes that it was given on top of what was pending.
pub record Consumes (h : Words) (bytecount : ℕ) (all : List ℕ) (c : Sha1Ctx) : Type 0 where
  pub words : c.h ≡ sha1_blocks h all (length all / 64)
  pub left : pending c ≡ drop (length all / 64 * 64) all
  pub counted : c.bytecount ≡ bytecount
  pub in_size : IsSha1Ctx c

update_blocks-Consumes :
    (c : Sha1Ctx) (bytes : List ℕ)
    → IsSha1Ctx c
    → c.bytecount % 64 ≡ length bytes % 64
    → Consumes c.h c.bytecount bytes (update_blocks c bytes)
unfolding update_blocks pending
update_blocks-Consumes c bytes v e = record {
  words = refl;
  left = take-copy_to c.buffer 0 (c.bytecount % 64) rest fits (omega (arith, e, size));
  counted = refl;
  in_size = record { buffer = length-copy_to c.buffer 0 rest fits ∙ v.buffer };
}
  where
    rest : List ℕ
    rest = drop (length bytes / 64 * 64) bytes

    size : length rest ≡ length bytes % 64
    size = omega (arith, length-drop (length bytes / 64 * 64) bytes)

    fits : 0 + length rest ≤ length c.buffer
    fits = omega (arith, size, v.buffer)

-- A block that was filled up before.
block-Consumes :
    (h : Words) (bytecount : ℕ) (front bytes : List ℕ) (c : Sha1Ctx)
    → length front ≡ 64
    → Consumes (sha1_blocks h front 1) bytecount bytes c
    → Consumes h bytecount (front ++ bytes) c
block-Consumes h bytecount front bytes c len k = record {
  words =
      k.words
      ∙ ap₂ (λ (w : Words) (s : List ℕ). sha1_blocks w s (length bytes / 64))
          (sym (blocks_front 1 h front bytes (omega (arith, len)))) (sym (behind 0))
      ∙ sym (blocks_split 1 (length bytes / 64) h (front ++ bytes))
      ∙ ap (sha1_blocks h (front ++ bytes)) more;
  left =
      k.left
      ∙ sym (
          ap (λ n. drop n (front ++ bytes)) (ap (λ n. n * 64) (sym more) ∙ plus_block)
          ∙ behind (length bytes / 64 * 64));
  counted = k.counted;
  in_size = k.in_size;
}
  where
    more : 1 + length bytes / 64 ≡ length (front ++ bytes) / 64
    more = omega (arith, len, length-append front bytes)

    plus_block : (1 + length bytes / 64) * 64 ≡ 64 + length bytes / 64 * 64
    plus_block = omega arith

    behind : (n : ℕ) → drop (64 + n) (front ++ bytes) ≡ drop n bytes
    behind n =
        sym (drop_more 64 n (front ++ bytes))
        ∙ ap (drop n) (
            drop_front 64 front bytes (omega (arith, len))
            ∙ ap (λ s. s ++ bytes) (drop_all 64 front (omega (arith, len))))

module _ (c : Sha1Ctx) (bytes : List ℕ) (v : IsSha1Ctx c) where
  counted_on : Sha1Ctx
  counted_on = record c { bytecount = (c.bytecount + length bytes) % 2 ^ 64 }

  length-pending : length (pending c) ≡ c.bytecount % 64
  unfolding pending
  length-pending = omega (arith, length-take (c.bytecount % 64) c.buffer, v.buffer)

  on_empty :
      c.bytecount % 64 ≡ 0
      → Consumes c.h
          ((c.bytecount + length bytes) % 2 ^ 64)
          (pending c ++ bytes)
          (update_blocks counted_on bytes)
  unfolding pending counted_on
  on_empty e =
      subst
        (λ all.
          Consumes c.h ((c.bytecount + length bytes) % 2 ^ 64) all (update_blocks counted_on bytes))
        (ap (λ n. take n c.buffer ++ bytes) (sym e))
        (update_blocks-Consumes counted_on bytes (record { buffer = v.buffer }) (omega (arith, e)))

  on_little :
      length bytes < 64 - c.bytecount % 64
      → Consumes c.h
          ((c.bytecount + length bytes) % 2 ^ 64)
          (pending c ++ bytes)
          (record counted_on { buffer = copy_to c.buffer (c.bytecount % 64) bytes })
  unfolding pending counted_on sha1_blocks
  on_little few = record {
    words = ap (sha1_blocks c.h (pending c ++ bytes)) none;
    left =
        take-copy_to c.buffer (c.bytecount % 64) _ bytes (omega (arith, v.buffer)) (omega arith)
        ∙ ap (λ n. drop n (pending c ++ bytes)) (ap (λ n. n * 64) none);
    counted = refl;
    in_size = record {
      buffer =
          length-copy_to c.buffer (c.bytecount % 64) bytes (omega (arith, v.buffer)) ∙ v.buffer;
    };
  }
    where
      none : 0 ≡ length (pending c ++ bytes) / 64
      none = omega (arith, length-append (pending c) bytes, length-pending)

  on_much :
      64 - c.bytecount % 64 ≤ length bytes
      → Consumes c.h ((c.bytecount + length bytes) % 2 ^ 64) (pending c ++ bytes) (
          update_blocks
            (record counted_on {
              h =
                  sha1_blocks c.h
                    (copy_to c.buffer (c.bytecount % 64) (take (64 - c.bytecount % 64) bytes))
                    1;
              buffer = copy_to c.buffer (c.bytecount % 64) (take (64 - c.bytecount % 64) bytes);
            })
            (drop (64 - c.bytecount % 64) bytes))
  unfolding counted_on pending
  on_much many =
      subst
        (λ all.
          Consumes c.h ((c.bytecount + length bytes) % 2 ^ 64) all
            (update_blocks full_block (drop room bytes)))
        whole
        (block-Consumes c.h _ filled (drop room bytes) _ size (
          update_blocks-Consumes full_block (drop room bytes) (record { buffer = size })
            (omega (arith, length-drop room bytes))))
    where
      room : ℕ
      room = 64 - c.bytecount % 64

      filled : List ℕ
      filled = copy_to c.buffer (c.bytecount % 64) (take room bytes)

      full_block : Sha1Ctx
      full_block = record counted_on { h = sha1_blocks c.h filled 1; buffer = filled }

      size : length filled ≡ 64
      size =
          length-copy_to c.buffer (c.bytecount % 64) (take room bytes)
            (omega (arith, v.buffer, length-take room bytes))
          ∙ v.buffer

      whole : filled ++ drop room bytes ≡ pending c ++ bytes
      whole =
          ap (λ s. s ++ drop room bytes)
            (copy_to_end c.buffer (c.bytecount % 64) (take room bytes)
              (omega (arith, v.buffer, length-take room bytes)))
          ∙ append_assoc (pending c) (take room bytes) (drop room bytes)
          ∙ ap (λ s. pending c ++ s) (take-append-drop room bytes)

  pub sha1_update-Consumes :
      Consumes c.h
        ((c.bytecount + length bytes) % 2 ^ 64)
        (pending c ++ bytes)
        (sha1_update c bytes)
  unfolding sha1_update counted_on
  sha1_update-Consumes = elim (Bool-cases (c.bytecount % 64 == 0)) [
    | inl e ↦ rw e (on_empty ((==_iff _ _).0 e))
    | inr e ↦ elim (Bool-cases (ltb (length bytes) (64 - c.bytecount % 64))) [
      | inl l ↦ rw (e, l) (on_little (ground arith))
      | inr l ↦ rw (e, l) (on_much (ground arith))
    ]
  ]
