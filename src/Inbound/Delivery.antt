-- ===== src/Inbound/Delivery.antt =====
-- What the receiver of inbound.rs makes of the chunks of a transfer.
use geser_desk.Prelude.{
  ℕ, ◌+◌, ◌≤◌, ◌<◌, true, false, List, [], ◌∷◌, Option, some, ltb, ◌==◌, arith, ◌≡◌, refl, ap, ◌∙◌,
  inl, inr, length, Bool-cases, Option-cases,
}
use geser_desk.Chunks.{
  clipboard, Chunk, ChunkAssembler, Pushed, more, whole, failed, stream, with_limit, push,
}
use geser_desk.Chunks.Transfer.{go_on, push_all, push_all-stream}
use geser_desk.Content.{ClipboardContent, data_len}
use geser_desk.Inbound.{
  Inbound, Received, nothing, content, err, of_chunks, grab, finish, pushed, data_in,
  saturating_add, encoding_slack,
}

module _ (decode : List ℕ → Option ClipboardContent) where
  abbrev receiving : ℕ → ℕ → ChunkAssembler → Inbound
  receiving seq max_bytes asm = record { current = some (seq, max_bytes, asm) }

  -- What is reported ends the transfer; nothing to report goes on.
  abbrev pub continue : (Inbound → Inbound × Received) → Inbound × Received → Inbound × Received
  continue next (i, nothing) = next i
  continue next (i, content k) = (i, content k)
  continue next (i, err e) = (i, err e)

  -- Chunk after chunk of the transfer `seq`, until there is something to report.
  abbrev pub receive_all : Inbound → ℕ → List Chunk → Inbound × Received
  receive_all i seq [] = (i, nothing)
  receive_all i seq (c ∷ cs) =
      continue (λ i'. receive_all i' seq cs) (data_in decode i clipboard seq c)

  -- What is reported of a transfer, from what its assembler says.
  abbrev report : ℕ → Pushed → Received
  report max_bytes more = nothing
  report max_bytes (whole bs) = finish decode max_bytes bs
  report max_bytes (failed e) = err (of_chunks e)

  data_in-receiving :
      (seq max_bytes : ℕ) (asm : ChunkAssembler) (c : Chunk)
      → data_in decode (receiving seq max_bytes asm) clipboard seq c
        ≡ pushed decode seq max_bytes (push asm c)
  unfolding data_in
  data_in-receiving seq max_bytes asm c =
      let current : (seq == seq) ≡ true = ground arith in rw current refl

  -- A finished transfer has something to report.
  continue-finish :
      (next : Inbound → Inbound × Received) (i : Inbound) (max_bytes : ℕ) (bs : List ℕ)
      → (continue next (i, finish decode max_bytes bs)).1 ≡ finish decode max_bytes bs
  unfolding finish
  continue-finish next i max_bytes bs = elim (Option-cases (decode bs)) [
    | inl p ↦ rw (p, finish) refl
    | inr (k, p) ↦ elim (Bool-cases (ltb max_bytes (data_len k))) [
      | inl t ↦ rw (p, t, finish) refl
      | inr f ↦ rw (p, f, finish) refl
    ]
  ]

  receive_all-push_all :
      (seq max_bytes : ℕ) (asm : ChunkAssembler) (cs : List Chunk)
      → (receive_all (receiving seq max_bytes asm) seq cs).1 ≡ report max_bytes (push_all asm cs).1
  unfolding pushed
  receive_all-push_all seq max_bytes asm [] = refl
  receive_all-push_all seq max_bytes asm (c ∷ cs) =
      let next : Inbound → Inbound × Received = λ i. receive_all i seq cs in
      ap (λ r. (continue next r).1) (data_in-receiving seq max_bytes asm c)
      ∙ go (λ a. receive_all-push_all seq max_bytes a cs) (push asm c)
    where
      go :
          ((a : ChunkAssembler)
            → (receive_all (receiving seq max_bytes a) seq cs).1
              ≡ report max_bytes (push_all a cs).1)
          → (r : ChunkAssembler × Pushed)
          → (continue (λ i. receive_all i seq cs) (pushed decode seq max_bytes r)).1
            ≡ report max_bytes (go_on (λ a. push_all a cs) r).1
      go later (a, more) = later a
      go later (a, whole bs) = continue-finish (λ i. receive_all i seq cs) _ max_bytes bs
      go later (a, failed e) = refl

  -- A peer announces a transfer of contents `k`, whose data is within the announced limit, and streams their
  -- encoding, which is at most 4096 bytes longer than the limit and shorter than 2^64. Then the contents are what is
  -- reported.
  pub receive_all-stream :
      (i : Inbound) (seq max_bytes : ℕ) (k : ClipboardContent) (bs : List ℕ)
      → decode bs ≡ some k
      → data_len k ≤ max_bytes
      → length bs ≤ max_bytes + 4096
      → length bs < 18446744073709551616
      → (receive_all (grab i clipboard seq max_bytes) seq (stream bs)).1 ≡ content k
  unfolding grab finish
  receive_all-stream i seq max_bytes k bs d fits slack u64 =
      let limit = saturating_add max_bytes encoding_slack in
      let whole_stream = push_all-stream limit bs (inr (omega arith)) in
      let small : ltb max_bytes (data_len k) ≡ false = ground (arith, fits) in
      receive_all-push_all seq max_bytes (with_limit limit) (stream bs)
      ∙ ap (report max_bytes) whole_stream
      ∙ rw (finish, d, small) refl
