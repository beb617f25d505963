-- ===== src/Inbound/Limits.antt =====
-- What the receiver of inbound.rs reports, after any announcements and chunks.
use geser_desk.Prelude.{
  ℕ, ◌≤◌, true, false, ◌||◌, ◌&&◌, not, List, [], ◌∷◌, Option, none, some, ◌==◌, if◌then◌else◌,
  arith, ◌≡◌, refl, inl, inr, length, ap, sym, ◌∙◌, Bool-cases, Option-cases,
}
use geser_desk.Chunks.{
  ClipboardId, clipboard, primary, Chunk, ChunkAssembler, Pushed, more, whole, failed, with_limit,
  push,
}
use geser_desk.Chunks.Transfer.{push-limit, after, push_more, push_whole}
use geser_desk.Content.{ClipboardContent, data_len}
use geser_desk.Inbound.{
  Inbound, content, new, grab, finish, pushed, data_in, is_clipboard, saturating_add,
  encoding_slack,
}

-- A call of the receiver: an announcement with the limit that it has, or a chunk.
pub data Call : Type 0 where
  grabs : ClipboardId → ℕ → ℕ → Call
  comes : ClipboardId → ℕ → Chunk → Call

-- A transfer that was announced: its number, its limit, and the bytes that came of it.
abbrev Heard : Type 0
Heard = Option (ℕ × ℕ × List ℕ)

-- One more chunk, if it is of that transfer.
abbrev pub gather : Heard → ClipboardId → ℕ → Chunk → Heard
gather none id seq chunk = none
gather (some (now, max_bytes, bs)) id seq chunk =
    some (now, max_bytes, if is_clipboard id && seq == now then after bs chunk else bs)

-- The transfer that was announced last.
abbrev pub heard : Heard → List Call → Heard
heard o [] = o
heard o (grabs clipboard seq max_bytes ∷ cs) = heard (some (seq, max_bytes, [])) cs
heard o (grabs primary seq max_bytes ∷ cs) = heard none cs
heard o (comes id seq chunk ∷ cs) = heard (gather o id seq chunk) cs

-- The transfer in progress is the one that was announced, with all its bytes, under its limit.
abbrev Fits : Heard → Option (ℕ × ℕ × ChunkAssembler) → Type 0
Fits o none = Unit
Fits o (some (seq, max_bytes, asm)) =
    (o ≡ some (seq, max_bytes, asm.buf))
    × (asm.limit ≡ saturating_add max_bytes encoding_slack)
    × (length asm.buf ≤ saturating_add max_bytes encoding_slack)

gather-other :
    (now max_bytes : ℕ) (bs : List ℕ) (id : ClipboardId) (seq : ℕ) (chunk : Chunk)
    → not (is_clipboard id) || not (seq == now) ≡ true
    → gather (some (now, max_bytes, bs)) id seq chunk ≡ some (now, max_bytes, bs)
gather-other now max_bytes bs id seq chunk e = ground (arith, e)

gather-push :
    (now max_bytes : ℕ) (asm : ChunkAssembler) (id : ClipboardId) (seq : ℕ) (chunk : Chunk)
    → not (is_clipboard id) || not (seq == now) ≡ false
    → (push asm chunk).1 ≡ more
    → gather (some (now, max_bytes, asm.buf)) id seq chunk
      ≡ some (now, max_bytes, (push asm chunk).0.buf)
gather-push now max_bytes asm id seq chunk e m = ground (arith, e, push_more asm chunk m)

module _ (decode : List ℕ → Option ClipboardContent) where
  abbrev pub calls : Inbound → List Call → Inbound
  calls i [] = i
  calls i (grabs id seq max_bytes ∷ cs) = calls (grab i id seq max_bytes) cs
  calls i (comes id seq chunk ∷ cs) = calls ((data_in decode i id seq chunk).0) cs

  pushed-Fits :
      (o : Heard) (seq max_bytes : ℕ) (r : ChunkAssembler × Pushed)
      → (r.1 ≡ more → Fits o (some (seq, max_bytes, r.0)))
      → Fits o ((pushed decode seq max_bytes r).0.current)
  unfolding pushed
  pushed-Fits o seq max_bytes (asm, more) f = f refl
  pushed-Fits o seq max_bytes (asm, whole bs) f = tt
  pushed-Fits o seq max_bytes (asm, failed e) f = tt

  data_in-Fits :
      (o : Heard) (current : Option (ℕ × ℕ × ChunkAssembler)) (id : ClipboardId) (seq : ℕ)
      (chunk : Chunk)
      → Fits o current
      → Fits
          (gather o id seq chunk)
          ((data_in decode (record { current = current }) id seq chunk).0.current)
  unfolding data_in
  data_in-Fits o none id seq chunk f = tt
  data_in-Fits o (some (now, max_bytes, asm)) id seq chunk f =
      let told = ap (λ x. gather x id seq chunk) f.0 in
      elim (Bool-cases (not (is_clipboard id) || not (seq == now))) [
        | inl t ↦ rw t (told ∙ gather-other now max_bytes asm.buf id seq chunk t, f.1, f.2)
        | inr e ↦
            let kept = push-limit asm chunk (ground (arith, f)) (ground (arith, f)) in
            rw e (
              pushed-Fits (gather o id seq chunk) now max_bytes (push asm chunk) λ m. (
                told ∙ gather-push now max_bytes asm id seq chunk e m,
                ground (arith, kept, f),
                ground (arith, kept, f),
              ))
      ]

  calls-Fits :
      (cs : List Call) (i : Inbound) (o : Heard)
      → Fits o i.current
      → Fits (heard o cs) ((calls i cs).current)
  unfolding grab with_limit
  calls-Fits [] i o f = f
  calls-Fits (grabs clipboard seq max_bytes ∷ cs) i o f =
      calls-Fits cs _ (some (seq, max_bytes, [])) (refl, refl, omega arith)
  calls-Fits (grabs primary seq max_bytes ∷ cs) i o f = calls-Fits cs _ none tt
  calls-Fits (comes id seq chunk ∷ cs) i o f =
      calls-Fits cs _ (gather o id seq chunk) (data_in-Fits o i.current id seq chunk f)

  -- A finished transfer: contents are reported of it only if they were read from its bytes and fit.
  finish-limit :
      (max_bytes : ℕ) (bs : List ℕ) (k : ClipboardContent)
      → finish decode max_bytes bs ≡ content k
      → (decode bs ≡ some k) × (data_len k ≤ max_bytes)
  unfolding finish
  finish-limit max_bytes bs k e = elim (Option-cases (decode bs)) [
    | inl p ↦ ground (arith, p, e)
    | inr (j, p) ↦ ground (arith, p, e)
  ]

  -- The contents `k` were read from the bytes that came of the transfer `seq`, and are within its limits.
  abbrev pub IsWithin : Heard → ℕ → ClipboardContent → Type 0
  IsWithin o seq k =
      (max_bytes : ℕ) × (bs : List ℕ) × (o ≡ some (seq, max_bytes, bs))
      × (decode bs ≡ some k)
      × (data_len k ≤ max_bytes)
      × (length bs ≤ saturating_add max_bytes encoding_slack)

  pushed-content :
      (seq max_bytes : ℕ) (r : ChunkAssembler × Pushed) (k : ClipboardContent)
      → (pushed decode seq max_bytes r).1 ≡ content k
      → (bs : List ℕ) × (r.1 ≡ whole bs)
        × (decode bs ≡ some k)
        × (data_len k ≤ max_bytes)
        × ((pushed decode seq max_bytes r).0 ≡ new)
  unfolding pushed new
  pushed-content seq max_bytes (asm, more) k e = cc
  pushed-content seq max_bytes (asm, whole bs) k e =
      let (read, fits) = finish-limit max_bytes bs k e in (bs, refl, read, fits, refl)
  pushed-content seq max_bytes (asm, failed x) k e = cc

  -- A report of contents ends the transfer.
  pub data_in_over :
      (current : Option (ℕ × ℕ × ChunkAssembler)) (id : ClipboardId) (seq : ℕ) (chunk : Chunk)
      (k : ClipboardContent)
      → (data_in decode (record { current = current }) id seq chunk).1 ≡ content k
      → (data_in decode (record { current = current }) id seq chunk).0 ≡ new
  unfolding data_in
  data_in_over none id seq chunk k e = cc
  data_in_over (some (now, max_bytes, asm)) id seq chunk k e =
      elim (Bool-cases (not (is_clipboard id) || not (seq == now))) [
        | inl t ↦ cc (rw t at e)
        | inr f ↦
            let (bs, done, read, fits, over) =
              pushed-content now max_bytes (push asm chunk) k (rw f at e) in
            rw f over
      ]

  data_in-IsWithin :
      (o : Heard) (current : Option (ℕ × ℕ × ChunkAssembler)) (id : ClipboardId) (seq : ℕ)
      (chunk : Chunk) (k : ClipboardContent)
      → Fits o current
      → (data_in decode (record { current = current }) id seq chunk).1 ≡ content k
      → (id ≡ clipboard)
        × (chunk ≡ Chunk.end)
        × IsWithin o seq k
        × ((data_in decode (record { current = current }) id seq chunk).0 ≡ new)
  unfolding data_in
  data_in-IsWithin o none id seq chunk k f e = cc
  data_in-IsWithin o (some (now, max_bytes, asm)) primary seq chunk k f e = cc
  data_in-IsWithin o (some (now, max_bytes, asm)) clipboard seq chunk k f e =
      elim (Bool-cases (seq == now)) [
        | inr g ↦ cc (rw g at e)
        | inl t ↦
            let (bs, done, read, fits, over) =
              pushed-content now max_bytes (push asm chunk) k (rw t at e) in
            let (last, all) = push_whole asm chunk bs done in
            let same : now ≡ seq = ground (arith, t) in
            let told : o ≡ some (seq, max_bytes, bs) =
              f.0
              ∙ ap (λ n. some (n, max_bytes, asm.buf)) same
              ∙ ap (λ x. some (seq, max_bytes, x)) (sym all) in
            (refl, last, (max_bytes, bs, told, read, fits, rw all f.2), rw t over)
      ]

  -- After any announcements and chunks, whatever their order and whoever sent them, a chunk makes the receiver
  -- report contents only if it is the last one of the transfer that was announced last. The contents were read
  -- from just the bytes that have come of that transfer since; their data is within the limit that was
  -- announced, the bytes are at most 4096 more than that, and the transfer is over.
  pub data_in-limit :
      (cs : List Call) (id : ClipboardId) (seq : ℕ) (chunk : Chunk) (k : ClipboardContent)
      → (data_in decode (calls new cs) id seq chunk).1 ≡ content k
      → (id ≡ clipboard)
        × (chunk ≡ Chunk.end)
        × IsWithin (heard none cs) seq k
        × ((data_in decode (calls new cs) id seq chunk).0 ≡ new)
  unfolding new
  data_in-limit cs id seq chunk k e =
      data_in-IsWithin (heard none cs) ((calls new cs).current) id seq chunk k
        (calls-Fits cs new none tt) e
