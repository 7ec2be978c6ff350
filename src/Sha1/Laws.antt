-- ===== src/Sha1/Laws.antt =====
-- The streaming of src/sha1.c keeps the interface's law: data given in pieces has the digest of the whole.
use wimlib.Common.{
  ℕ, ◌+◌, ◌*◌, ◌/◌, ◌%◌, ◌^◌, ◌≡◌, refl, ap, ap₂, sym, ◌∙◌, List, ◌++◌, length, drop, arith,
  length-append, length-drop, append_assoc,
}
use wimlib.FileIo.Read.{drop_more}
use wimlib.Sha1.{Sha1}
use wimlib.Sha1.Blocks.{Words, sha1_blocks}
use wimlib.Sha1.Stream.{Sha1Ctx, sha1_init, sha1_update, sha1_final}
use wimlib.Sha1.Padding.{IsSha1Ctx, pending, padded, digest_bytes, sha1_final-pending}
use wimlib.Sha1.Updates.{drop_front, blocks_split, blocks_front, Consumes, sha1_update-Consumes}

-- Data given to a context in two pieces has the digest of the whole, wherever it is cut.
pub sha1_final-update :
    (c : Sha1Ctx) (a b : List ℕ)
    → IsSha1Ctx c
    → sha1_final (sha1_update (sha1_update c a) b) ≡ sha1_final (sha1_update c (a ++ b))
sha1_final-update c a b v =
    sha1_final-pending _ second.in_size
    ∙ ap digest_bytes (λ i.
      padded (same_words i) (same_pending i) (same_count i % 64) (same_count i * 8 % 2 ^ 64))
    ∙ sym (sha1_final-pending _ whole.in_size)
  where
    first : Consumes c.h ((c.bytecount + length a) % 2 ^ 64) (pending c ++ a) (sha1_update c a)
    first = sha1_update-Consumes c a v

    second :
        Consumes
          (sha1_update c a).h
          (((sha1_update c a).bytecount + length b) % 2 ^ 64)
          (pending (sha1_update c a) ++ b)
          (sha1_update (sha1_update c a) b)
    second = sha1_update-Consumes (sha1_update c a) b first.in_size

    whole :
        Consumes c.h
          ((c.bytecount + length (a ++ b)) % 2 ^ 64)
          (pending c ++ (a ++ b))
          (sha1_update c (a ++ b))
    whole = sha1_update-Consumes c (a ++ b) v

    all : List ℕ
    all = pending c ++ a

    n : ℕ
    n = length all / 64

    rest : List ℕ
    rest = drop (n * 64) all ++ b

    regroup : pending c ++ (a ++ b) ≡ all ++ b
    regroup = sym (append_assoc (pending c) a b)

    blocks : length (all ++ b) / 64 ≡ n + length rest / 64
    blocks =
        omega (
          arith,
          length-append all b,
          length-append (drop (n * 64) all) b,
          length-drop (n * 64) all,
        )

    behind : drop (n * 64) (all ++ b) ≡ rest
    behind = drop_front (n * 64) all b (omega arith)

    same_words : (sha1_update (sha1_update c a) b).h ≡ (sha1_update c (a ++ b)).h
    same_words =
        second.words
        ∙ ap₂ (λ (w : Words) (p : List ℕ). sha1_blocks w (p ++ b) (length (p ++ b) / 64))
            first.words first.left
        ∙ ap₂ (λ (w : Words) (s : List ℕ). sha1_blocks w s (length rest / 64))
            (sym (blocks_front n c.h all b (omega arith))) (sym behind)
        ∙ sym (blocks_split n (length rest / 64) c.h (all ++ b))
        ∙ ap (sha1_blocks c.h (all ++ b)) (sym blocks)
        ∙ ap (λ s. sha1_blocks c.h s (length s / 64)) (sym regroup)
        ∙ sym whole.words

    in_bytes : n * 64 + length rest / 64 * 64 ≡ length (all ++ b) / 64 * 64
    in_bytes = omega (arith, blocks)

    same_pending : pending (sha1_update (sha1_update c a) b) ≡ pending (sha1_update c (a ++ b))
    same_pending =
        second.left
        ∙ ap (λ (p : List ℕ). drop (length (p ++ b) / 64 * 64) (p ++ b)) first.left
        ∙ ap (drop (length rest / 64 * 64)) (sym behind)
        ∙ drop_more (n * 64) (length rest / 64 * 64) (all ++ b)
        ∙ ap (λ k. drop k (all ++ b)) in_bytes
        ∙ ap (λ s. drop (length s / 64 * 64) s) (sym regroup)
        ∙ sym whole.left

    same_count : (sha1_update (sha1_update c a) b).bytecount ≡ (sha1_update c (a ++ b)).bytecount
    same_count = omega (arith, second.counted, first.counted, whole.counted, length-append a b)

pub init-IsSha1Ctx : IsSha1Ctx sha1_init
unfolding sha1_init
init-IsSha1Ctx = record { buffer = refl }

pub sha1_update-IsSha1Ctx : (c : Sha1Ctx) (a : List ℕ) → IsSha1Ctx c → IsSha1Ctx (sha1_update c a)
sha1_update-IsSha1Ctx c a v = (sha1_update-Consumes c a v).in_size

-- The functions of the source fill the interface.
abbrev pub sha1_streaming : Sha1
sha1_streaming = record {
  Ctx = Sha1Ctx;
  IsCtx = IsSha1Ctx;
  init = sha1_init;
  update = sha1_update;
  final = sha1_final;
  init-IsCtx = init-IsSha1Ctx;
  update-IsCtx = sha1_update-IsSha1Ctx;
  final-update = sha1_final-update;
}
