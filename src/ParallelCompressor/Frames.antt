-- ===== src/ParallelCompressor/Frames.antt =====
-- Lists of messages of src/compress_parallel.c: how often a message is on one, and the chunks of the
-- messages on one.
use wimlib.Common.{
  ℕ, zero, suc, ◌+◌, ◌≤◌, ◌<◌, ◌≡◌, refl, ap, ap₂, sym, ◌∙◌, List, [], ◌∷◌, ◌++◌, map, length, drop,
  get_or, ◌==◌, ==_iff, if◌then◌else◌, arith, Option, none, some, append_assoc, append-nil,
}
use wimlib.ParallelCompressor.{Message, Chunk, remove, indices}

-- How often a message is on a list.
unfoldable pub occ : ℕ → List ℕ → ℕ
occ m [] = 0
occ m (x ∷ xs) = (if x == m then 1 else 0) + occ m xs

abbrev pub occ_option : ℕ → Option ℕ → ℕ
occ_option m none = 0
occ_option m (some x) = if x == m then 1 else 0

pub occ-append : (m : ℕ) (xs ys : List ℕ) → occ m (xs ++ ys) ≡ occ m xs + occ m ys
unfolding occ
occ-append m [] ys = omega arith
occ-append m (x ∷ xs) ys = omega (arith, occ-append m xs ys)

pub occ-snoc :
    (m n : ℕ) (xs : List ℕ) → occ m (xs ++ (n ∷ [])) ≡ occ m xs + (if n == m then 1 else 0)
unfolding occ
occ-snoc m n xs = omega (arith, occ-append m xs (n ∷ []))

pub occ-middle :
    (m n : ℕ) (xs ys : List ℕ)
    → occ m (xs ++ (n ∷ ys)) ≡ occ m (xs ++ ys) + (if n == m then 1 else 0)
unfolding occ
occ-middle m n xs ys = omega (arith, occ-append m xs (n ∷ ys), occ-append m xs ys)

pub remove_front : (m : ℕ) (xs : List ℕ) → remove m (m ∷ xs) ≡ xs
unfolding remove
remove_front m xs = rw ((==_iff m m).1 refl) refl

-- Distinct indices.
pub occ-indices : (m i n : ℕ) → (occ m (indices i n) ≤ 1) × (m < i → occ m (indices i n) ≡ 0)
unfolding occ indices
occ-indices m i zero = (omega arith, λ h. refl)
occ-indices m i (suc n) =
    let (p, q) = occ-indices m (suc i) n in (ground (arith, q), λ h. ground (arith, q))

module _ (msgs : ℕ → Message) where
  -- The chunks of submitted messages that are still to be delivered; of the first, those from `k` on.
  unfoldable pub undelivered : ℕ → List ℕ → List Chunk
  undelivered k [] = []
  undelivered k (m ∷ ms) = drop k (msgs m).uncompressed_chunks ++ undelivered 0 ms

  pub undelivered-append :
      (k m : ℕ) (x : ℕ) (xs : List ℕ)
      → undelivered k ((x ∷ xs) ++ (m ∷ []))
        ≡ undelivered k (x ∷ xs) ++ (msgs m).uncompressed_chunks
  unfolding undelivered
  undelivered-append k m x [] =
      ap (λ s. drop k (msgs x).uncompressed_chunks ++ s) (append-nil (msgs m).uncompressed_chunks)
      ∙ ap (λ s. s ++ (msgs m).uncompressed_chunks)
          (sym (append-nil (drop k (msgs x).uncompressed_chunks)))
  undelivered-append k m x (y ∷ xs) =
      ap (λ s. drop k (msgs x).uncompressed_chunks ++ s) (undelivered-append 0 m y xs)
      ∙ sym (
          append_assoc (drop k (msgs x).uncompressed_chunks) (undelivered 0 (y ∷ xs))
            (msgs m).uncompressed_chunks)

-- The chunks do not change where each message on the list keeps its own.
pub undelivered-frame :
    (msgs msgs' : ℕ → Message) (k : ℕ) (xs : List ℕ)
    → ((n : ℕ) → 1 ≤ occ n xs → (msgs' n).uncompressed_chunks ≡ (msgs n).uncompressed_chunks)
    → undelivered msgs' k xs ≡ undelivered msgs k xs
unfolding undelivered occ
undelivered-frame msgs msgs' k [] same = refl
undelivered-frame msgs msgs' k (x ∷ xs) same =
    ap₂ (λ (s t : List Chunk). drop k s ++ t) (same x (rw ((==_iff x x).1 refl) (omega arith)))
      (undelivered-frame msgs msgs' 0 xs (λ n h. same n (omega arith)))

-- The next chunk, and what is left behind it.
pub drop_next :
    (k : ℕ) (xs : List Chunk) → k < length xs → drop k xs ≡ get_or xs k [] ∷ drop (k + 1) xs
drop_next zero [] h = absurd (omega arith)
drop_next (suc k) [] h = absurd (omega arith)
drop_next zero (x ∷ xs) h = refl
drop_next (suc k) (x ∷ xs) h =
    let e : suc k + 1 ≡ suc (k + 1) = omega arith in rw e (drop_next k xs (omega arith))

pub drop_end : (k : ℕ) (xs : List Chunk) → k ≡ length xs → drop k xs ≡ []
drop_end zero [] h = refl
drop_end zero (x ∷ xs) h = absurd (omega (arith, h))
drop_end (suc k) [] h = refl
drop_end (suc k) (x ∷ xs) h = drop_end k xs (omega (arith, h))

pub get_or-map :
    (f : Chunk → Option Chunk) (k : ℕ) (xs : List Chunk)
    → k < length xs
    → get_or (map f xs) k none ≡ f (get_or xs k [])
get_or-map f zero [] h = absurd (omega arith)
get_or-map f (suc k) [] h = absurd (omega arith)
get_or-map f zero (x ∷ xs) h = refl
get_or-map f (suc k) (x ∷ xs) h = get_or-map f k xs (omega arith)
