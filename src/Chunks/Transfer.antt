-- ===== src/Chunks/Transfer.antt =====
-- A whole transfer of clipboard.rs: the stream of some bytes, and an assembler that is fed it.
use geser_desk.Prelude.{
  append_assoc, append_nil, ℕ, zero, suc, ◌+◌, ◌-◌, ◌≤◌, ◌<◌, true, false, List, [], ◌∷◌, ◌++◌,
  ◌&&◌, not, ltb, ◌==◌, arith, ◌≡◌, refl, ap, ◌∙◌, ◌⊎◌, length, length-append, drop,
  take-append-drop,
}
use geser_desk.Chunks.{
  Chunk, start, bytes, end, chunk_size, chunks, chunk_body, stream, ChunkAssembler, Pushed, more,
  whole, failed, with_limit, push, push_chunk, push_start, push_bytes, push_end,
}

-- A result that ends the transfer stays; any other goes on.
abbrev pub go_on :
    (ChunkAssembler → ChunkAssembler × Pushed) → ChunkAssembler × Pushed → ChunkAssembler × Pushed
go_on next (a, more) = next a
go_on next (a, whole bs) = (a, whole bs)
go_on next (a, failed e) = (a, failed e)

-- Chunk after chunk, until one completes the transfer or is refused.
abbrev pub push_all : ChunkAssembler → List Chunk → ChunkAssembler × Pushed
push_all a [] = (a, more)
push_all a (c ∷ cs) = go_on (λ a'. push_all a' cs) (push a c)

abbrev joined : List (List ℕ) → List ℕ
joined [] = []
joined (d ∷ ds) = d ++ joined ds

length-drop : (n : ℕ) (xs : List ℕ) → length (drop n xs) ≡ length xs - n
length-drop zero xs = omega arith
length-drop (suc n) [] = omega arith
length-drop (suc n) (x ∷ xs) = omega (arith, length-drop n xs)

joined-chunks :
    (fuel size : ℕ) (bs : List ℕ) → 0 < size → length bs ≤ fuel → joined (chunks fuel size bs) ≡ bs
unfolding chunks
joined-chunks fuel size [] s h = refl
joined-chunks zero size (b ∷ bs) s h = absurd (omega arith)
joined-chunks (suc fuel) size (b ∷ bs) s h =
    let cut = length-drop size (b ∷ bs) in
    let later = joined-chunks fuel size (drop size (b ∷ bs)) s (omega arith) in
    rw later (take-append-drop size (b ∷ bs))

-- An assembler that has started and is not done.
abbrev filling : ℕ → ℕ → List ℕ → ChunkAssembler
filling limit expected buf = record {
  started = true;
  finished = false;
  expected = expected;
  limit = limit;
  buf = buf;
}

push-bytes :
    (limit expected : ℕ) (buf d : List ℕ)
    → (limit ≡ 0) ⊎ (length buf + length d ≤ limit)
    → push (filling limit expected buf) (bytes d) ≡ (filling limit expected (buf ++ d), more)
unfolding push push_chunk push_bytes
push-bytes limit expected buf d h =
    let fits : (ltb 0 limit && ltb limit (length buf + length d)) ≡ false = ground (arith, h) in
    rw fits refl

push-end :
    (limit : ℕ) (buf : List ℕ)
    → push (filling limit (length buf) buf) end
      ≡ (record (filling limit (length buf) buf) { finished = true; buf = [] }, whole buf)
unfolding push push_chunk push_end
push-end limit buf =
    let same : (not (length buf == 0) && not (length buf == length buf)) ≡ false = ground arith in
    rw same refl

push-start :
    (limit total : ℕ)
    → (limit ≡ 0) ⊎ (total ≤ limit)
    → push (with_limit limit) (start total) ≡ (filling limit total [], more)
unfolding push push_chunk push_start with_limit
push-start limit total h =
    let fits : (ltb 0 limit && ltb limit total) ≡ false = ground (arith, h) in rw fits refl

push_all_more :
    (a a' : ChunkAssembler) (c : Chunk) (cs : List Chunk)
    → push a c ≡ (a', more)
    → (push_all a (c ∷ cs)).1 ≡ (push_all a' cs).1
push_all_more a a' c cs e = ap (λ r. (go_on (λ b. push_all b cs) r).1) e

push_all-body :
    (limit expected : ℕ) (buf : List ℕ) (ds : List (List ℕ))
    → (limit ≡ 0) ⊎ (length buf + length (joined ds) ≤ limit)
    → expected ≡ length buf + length (joined ds)
    → (push_all (filling limit expected buf) (chunk_body ds)).1 ≡ whole (buf ++ joined ds)
push_all-body limit expected buf [] h e =
    let same : expected ≡ length buf = omega arith in
    rw (same, push_all, chunk_body, go_on, push-end limit buf, append_nil buf) refl
push_all-body limit expected buf (d ∷ ds) h e =
    let rest = length-append d (joined ds) in
    let more_room = push-bytes limit expected buf d (ground (arith, rest, h)) in
    let later =
      push_all-body limit expected (buf ++ d) ds (ground (arith, rest, length-append buf d, h))
        (omega (arith, rest, length-append buf d, e)) in
    push_all_more _ (filling limit expected (buf ++ d)) (bytes d) (chunk_body ds) more_room
    ∙ later
    ∙ ap whole (append_assoc buf d (joined ds))

-- The receiver of a stream gets the sender's bytes, when there are no more of them than its limit, a
-- limit of 0 being none. No chunk is refused on the way.
pub push_all-stream :
    (limit : ℕ) (bs : List ℕ)
    → (limit ≡ 0) ⊎ (length bs ≤ limit)
    → (push_all (with_limit limit) (stream bs)).1 ≡ whole bs
unfolding stream
push_all-stream limit bs h =
    let ds = chunks (length bs) chunk_size bs in
    let all = joined-chunks (length bs) chunk_size bs (omega arith) (omega arith) in
    let later =
      push_all-body limit (length bs) [] ds (ground (arith, ap length all, h))
        (omega (arith, ap length all)) in
    push_all_more _ _ _ (chunk_body ds) (push-start limit (length bs) h) ∙ later ∙ ap whole all

-- With a limit, a push never leaves more than that many bytes in the buffer, and never completes a transfer of
-- more; the limit stays. That holds of every chunk, whoever sent it.
pub push-limit :
    (a : ChunkAssembler) (c : Chunk)
    → 0 < a.limit
    → length a.buf ≤ a.limit
    → (length (push a c).0.buf ≤ a.limit)
      × ((push a c).0.limit ≡ a.limit)
      × ((bs : List ℕ) → (push a c).1 ≡ whole bs → length bs ≤ a.limit)
unfolding push push_chunk push_start push_bytes push_end
push-limit a (start total) l h = (ground (arith, h), ground arith, λ bs e. ground (arith, e))
push-limit a (bytes d) l h =
    let both = length-append a.buf d in
    (ground (arith, h, both), ground arith, λ bs e. ground (arith, e))
push-limit a end l h = (ground (arith, h), ground arith, λ bs e. ground (arith, e, h))

-- The bytes with those of a chunk.
abbrev pub after : List ℕ → Chunk → List ℕ
after bs (start total) = bs
after bs (bytes d) = bs ++ d
after bs end = bs

-- While more is expected, the bytes of a chunk are kept.
pub push_more :
    (a : ChunkAssembler) (c : Chunk) → (push a c).1 ≡ more → (push a c).0.buf ≡ after a.buf c
unfolding push push_chunk push_start push_bytes push_end
push_more a (start total) e = ground (arith, e)
push_more a (bytes d) e = ground (arith, e)
push_more a end e = ground (arith, e)

-- Only the last chunk completes a transfer, with the bytes that had come.
pub push_whole :
    (a : ChunkAssembler) (c : Chunk) (bs : List ℕ)
    → (push a c).1 ≡ whole bs
    → (c ≡ end) × (bs ≡ a.buf)
unfolding push push_chunk push_start push_bytes push_end
push_whole a (start total) bs e = ground (arith, e)
push_whole a (bytes d) bs e = ground (arith, e)
push_whole a end bs e = ground (arith, e)
