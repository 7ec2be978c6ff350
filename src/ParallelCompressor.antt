-- ===== src/ParallelCompressor.antt =====
-- src/compress_parallel.c: chunks go to threads in messages, and the results come back in the order of
-- the chunks. A message is named by its index among `msgs`; the lists that a message is on are lists of
-- such indices. What the threads share is the two queues; each operation on a queue is made under its
-- lock, so it is one step.
pub mod Frames
pub mod Invariant
pub mod Submission
pub mod Filling
pub mod Delivery
pub mod Order
pub mod Reachable
pub mod Plans
pub mod Limits
pub mod Sizing
pub mod Start
pub mod Progress
pub mod Tests
use wimlib.Common.{
  ℕ, zero, suc, ◌+◌, ◌-◌, ◌≡◌, Bool, true, false, List, [], ◌∷◌, ◌++◌, map, length, drop, get_or,
  ◌==◌, if◌then◌else◌, Option, none, some,
}

abbrev pub Chunk : Type 0
Chunk = List ℕ

-- struct message; `num_filled_chunks` is the length of the uncompressed chunks. A compressed size of 0
-- is `none`.
pub record Message : Type 0 where
  pub uncompressed_chunks : List Chunk
  pub compressed_chunks : List (Option Chunk)
  pub complete : Bool

-- struct parallel_chunk_compressor with its queues; `working` are the messages that a thread has taken
-- and not put back. `filled` and `delivered` record what went in and came out.
pub record Compressor : Type 0 where
  pub msgs : ℕ → Message
  pub num_alloc_chunks : ℕ
  pub available_msgs : List ℕ
  pub submitted_msgs : List ℕ
  pub next_submit_msg : Option ℕ
  pub next_ready_msg : Option ℕ
  pub next_chunk_idx : ℕ
  pub chunks_to_compress_queue : List ℕ
  pub working : List ℕ
  pub compressed_chunks_queue : List ℕ
  pub filled : List Chunk
  pub delivered : List (Chunk × ℕ)

abbrev pub update : (ℕ → Message) → ℕ → Message → ℕ → Message
update msgs m v n = if m == n then v else msgs n

-- The messages from index `i` on.
pub indices : ℕ → ℕ → List ℕ
indices i zero = []
indices i (suc n) = i ∷ indices (suc i) n

-- What `new_parallel_chunk_compressor` makes of its memory.
pub new_compressor : ℕ → ℕ → Compressor
new_compressor num_messages chunks_per_msg = record {
  msgs = λ n. record { uncompressed_chunks = []; compressed_chunks = []; complete = false };
  num_alloc_chunks = chunks_per_msg;
  available_msgs = indices 0 num_messages;
  submitted_msgs = [];
  next_submit_msg = none;
  next_ready_msg = none;
  next_chunk_idx = 0;
  chunks_to_compress_queue = [];
  working = [];
  compressed_chunks_queue = [];
  filled = [];
  delivered = [];
}

abbrev pub message_queue_put : List ℕ → ℕ → List ℕ
message_queue_put queue m = queue ++ (m ∷ [])

-- `submit_compression_msg` of the message `m`.
pub submit_compression_msg : Compressor → ℕ → Compressor
submit_compression_msg s m = record s {
  msgs = update s.msgs m (record (s.msgs m) { complete = false });
  submitted_msgs = s.submitted_msgs ++ (m ∷ []);
  chunks_to_compress_queue = message_queue_put s.chunks_to_compress_queue m;
  next_submit_msg = none;
}

-- The message whose next buffer is returned; `none` is a null pointer.
pub take_available : Compressor → List ℕ → Option (Compressor × ℕ)
take_available s [] = none
take_available s (m ∷ rest) = some (
  record s {
    msgs = update s.msgs m (record (s.msgs m) { uncompressed_chunks = [] });
    available_msgs = rest;
    next_submit_msg = some m;
  },
  m,
)

pub get_chunk_buffer : Compressor → Option (Compressor × ℕ)
get_chunk_buffer s = elim s.next_submit_msg [
  | some m ↦ some (s, m)
  | none ↦ take_available s s.available_msgs
]

-- The chunk that the caller has stored in the buffer of `m`.
pub append_chunk : Compressor → ℕ → Chunk → Compressor
append_chunk s m chunk = record s {
  msgs =
      update s.msgs m (record (s.msgs m) {
        uncompressed_chunks = (s.msgs m).uncompressed_chunks ++ (chunk ∷ []);
      });
  filled = s.filled ++ (chunk ∷ []);
}

pub signal_chunk_filled : Compressor → ℕ → Chunk → Compressor
signal_chunk_filled s m chunk =
    let s' = append_chunk s m chunk in
    if length (s'.msgs m).uncompressed_chunks == s.num_alloc_chunks
    then submit_compression_msg s' m
    else s'

-- `list_del`
pub remove : ℕ → List ℕ → List ℕ
remove m [] = []
remove m (x ∷ xs) = let rest = remove m xs in if x == m then xs else x ∷ rest

-- The data and the uncompressed size that are returned for a chunk.
unfoldable pub output : Option Chunk → Chunk → Chunk × ℕ
output none chunk = (chunk, length chunk)
output (some compressed) chunk = (compressed, length chunk)

-- The end of `get_compression_result`, for chunk `idx` of the message `m`.
pub deliver : Compressor → ℕ → ℕ → Compressor
deliver s m idx =
    let msg = s.msgs m in
    let out =
      output (get_or msg.compressed_chunks idx none) (get_or msg.uncompressed_chunks idx []) in
    if idx + 1 == length msg.uncompressed_chunks
    then record s {
      submitted_msgs = remove m s.submitted_msgs;
      available_msgs = s.available_msgs ++ (m ∷ []);
      next_ready_msg = none;
      next_chunk_idx = idx + 1;
      delivered = s.delivered ++ (out ∷ []);
    }
    else record s {
      next_ready_msg = some m;
      next_chunk_idx = idx + 1;
      delivered = s.delivered ++ (out ∷ []);
    }

module _ (compress : Chunk → Option Chunk) where
  -- `compress` is `wimlib_compress`; `none` is its 0. It may overwrite a chunk that it compresses, which
  -- is not read again; here the chunk is kept.
  pub compress_chunks : Message → Message
  compress_chunks msg = record msg { compressed_chunks = map compress msg.uncompressed_chunks }

  -- One round of `compressor_thread_proc`, from where the thread has its message `m` on; `others` are the
  -- messages that the other threads have.
  abbrev pub finish_message : Compressor → ℕ → List ℕ → Compressor
  finish_message s m others = record s {
    msgs = update s.msgs m (compress_chunks (s.msgs m));
    working = others;
    compressed_chunks_queue = message_queue_put s.compressed_chunks_queue m;
  }

  -- One step of the caller or of a thread. A call of `get_compression_result` is a `flush`, if a message
  -- is being filled, then as many steps `receive` as the loop makes, and a `continue` or a `begin`; the
  -- threads make their steps in between. How many threads there are is not said: any number of messages
  -- can be at work, so that what holds of every state that is reached holds for each number of threads.
  pub data Step : Compressor → Compressor → Type 0 where
    -- `get_chunk_buffer` finds a buffer, the caller fills it, and `signal_chunk_filled` is called.
    fill :
        {s s' : Compressor} (m : ℕ) (chunk : Chunk)
        → get_chunk_buffer s ≡ some (s', m)
        → Step s (signal_chunk_filled s' m chunk)
    -- `get_compression_result` begins: a message that is not full is submitted.
    flush :
        {s : Compressor} (m : ℕ) → s.next_submit_msg ≡ some m → Step s (submit_compression_msg s m)
    -- A thread takes the message at the head of its queue.
    take :
        {s : Compressor} (m : ℕ) (rest : List ℕ)
        → s.chunks_to_compress_queue ≡ m ∷ rest
        → Step s (record s { chunks_to_compress_queue = rest; working = m ∷ s.working })
    -- A thread is done with a message, and puts it on the other queue.
    finish :
        {s : Compressor} (m : ℕ) (front back : List ℕ)
        → s.working ≡ front ++ (m ∷ back)
        → Step s (finish_message s m (front ++ back))
    -- The loop of `get_compression_result` takes a message off that queue, as long as the first submitted
    -- message is not complete.
    receive :
        {s : Compressor} (m : ℕ) (rest : List ℕ) (first : ℕ) (others : List ℕ)
        → s.next_submit_msg ≡ none
        → s.next_ready_msg ≡ none
        → s.submitted_msgs ≡ first ∷ others
        → (s.msgs first).complete ≡ false
        → s.compressed_chunks_queue ≡ m ∷ rest
        → Step s (record s {
          msgs = update s.msgs m (record (s.msgs m) { complete = true });
          compressed_chunks_queue = rest;
        })
    -- `get_compression_result` goes on with the message that it was in.
    continue :
        {s : Compressor} (m : ℕ)
        → s.next_submit_msg ≡ none
        → s.next_ready_msg ≡ some m
        → Step s (deliver s m s.next_chunk_idx)
    -- The first submitted message is complete, and its first chunk is returned.
    begin :
        {s : Compressor} (m : ℕ) (rest : List ℕ)
        → s.next_submit_msg ≡ none
        → s.next_ready_msg ≡ none
        → s.submitted_msgs ≡ m ∷ rest
        → (s.msgs m).complete ≡ true
        → Step s (deliver s m 0)

  pub data Reach (s : Compressor) : Compressor → Type 0 where
    here : Reach s s
    next : {t u : Compressor} → Reach s t → Step t u → Reach s u
