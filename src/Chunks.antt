-- ===== src/Chunks.antt =====
-- crates/geserdesk-proto/src/clipboard.rs, the chunk envelope: which clipboard a transfer is of,
-- how its bytes are cut into chunks, and how the receiver puts them together. A byte is a number
-- below 256; lengths are u64 and do not overflow.
pub mod Transfer
use geser_desk.Prelude.{
  ℕ, zero, suc, ◌+◌, Bool, true, false, List, [], ◌∷◌, ◌++◌, ◌&&◌, not, if◌then◌else◌, ltb, ◌==◌,
  length, take, drop,
}

pub data ClipboardId : Type 0 where
  clipboard primary : ClipboardId

pub data Chunk : Type 0 where
  start : ℕ → Chunk
  bytes : List ℕ → Chunk
  end : Chunk

abbrev pub chunk_size : ℕ
chunk_size = 32768

-- `bytes.chunks(size)`, one round for each unit of fuel.
unfoldable pub chunks : ℕ → ℕ → List ℕ → List (List ℕ)
chunks fuel size [] = []
chunks zero size (b ∷ bs) = []
chunks (suc fuel) size (b ∷ bs) = take size (b ∷ bs) ∷ chunks fuel size (drop size (b ∷ bs))

-- The `Data` chunks, then `End`.
abbrev pub chunk_body : List (List ℕ) → List Chunk
chunk_body [] = end ∷ []
chunk_body (d ∷ ds) = bytes d ∷ chunk_body ds

unfoldable pub stream : List ℕ → List Chunk
stream bs = start (length bs) ∷ chunk_body (chunks (length bs) chunk_size bs)

pub data ChunkError : Type 0 where
  not_started double_start after_end : ChunkError
  length_mismatch : ℕ → ℕ → ChunkError
  too_large : ℕ → ChunkError

pub record ChunkAssembler : Type 0 where
  pub started : Bool
  pub finished : Bool
  pub expected : ℕ
  -- 0 is no limit
  pub limit : ℕ
  pub buf : List ℕ

-- `Result<Option<Vec<u8>>, ChunkError>`
pub data Pushed : Type 0 where
  more : Pushed
  whole : List ℕ → Pushed
  failed : ChunkError → Pushed

unfoldable pub with_limit : ℕ → ChunkAssembler
with_limit limit = record {
  started = false;
  finished = false;
  expected = 0;
  limit = limit;
  buf = [];
}

push_start : ChunkAssembler → ℕ → ChunkAssembler × Pushed
push_start a total =
    if a.started
    then (a, failed double_start)
    else if ltb 0 a.limit && ltb a.limit total
    then (a, failed (too_large a.limit))
    else (record a { started = true; expected = total }, more)

push_bytes : ChunkAssembler → List ℕ → ChunkAssembler × Pushed
push_bytes a d =
    if not a.started
    then (a, failed not_started)
    else if ltb 0 a.limit && ltb a.limit (length a.buf + length d)
    then (a, failed (too_large a.limit))
    else (record a { buf = a.buf ++ d }, more)

-- `mem::take` leaves the buffer empty.
push_end : ChunkAssembler → ChunkAssembler × Pushed
push_end a =
    if not a.started
    then (a, failed not_started)
    else if not (a.expected == 0) && not (a.expected == length a.buf)
    then (a, failed (length_mismatch a.expected (length a.buf)))
    else (record a { finished = true; buf = [] }, whole a.buf)

push_chunk : ChunkAssembler → Chunk → ChunkAssembler × Pushed
unfolding push_start push_bytes push_end
push_chunk a (start total) = push_start a total
push_chunk a (bytes d) = push_bytes a d
push_chunk a end = push_end a

unfoldable pub push : ChunkAssembler → Chunk → ChunkAssembler × Pushed
unfolding push_chunk
push a c = if a.finished then (a, failed after_end) else push_chunk a c
