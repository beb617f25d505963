-- ===== src/Codec/Framing.antt =====
-- Frames of codec.rs, however the stream cuts them.
use geser_desk.Prelude.{
  append_assoc, ℕ, zero, suc, ◌+◌, ◌*◌, ◌/◌, ◌%◌, ◌≤◌, ◌<◌, false, List, [], ◌∷◌, ◌++◌, Option,
  none, some, arith, ◌≡◌, refl, ap, ap₂, some_eq, Option-cases, sym, ◌∙◌, ◌⊎◌, leb→le, inl, inr,
  Bool-cases, map, length, length-append, take, drop, ltb, leb,
}
use geser_desk.Codec.{
  to_le_bytes, from_le_bytes, incomplete, frame, Read, got, failed, look, Received, message, Sent,
  written, send, recv, decoded,
}

-- The bytes that are still to come.
abbrev pub coming : List Read → List ℕ
coming [] = []
coming (failed ∷ reads) = []
coming (got bs ∷ reads) = bs ++ coming reads

-- Reads that bring bytes.
abbrev pub AllBring : List Read → Type 0
AllBring [] = Unit
AllBring (failed ∷ reads) = ⊥
AllBring (got [] ∷ reads) = ⊥
AllBring (got (b ∷ bs) ∷ reads) = AllBring reads

le_bytes_round :
    (n : ℕ)
    → n < 4294967296
    → from_le_bytes (n % 256) (n / 256 % 256) (n / 65536 % 256) (n / 16777216 % 256) ≡ n
le_bytes_round n h = omega arith

-- A frame payload at the front of what there is.
split_front :
    (p body more rest : List ℕ)
    → body ++ more ≡ p ++ rest
    → length p ≤ length body
    → (take (length p) body ≡ p) × (drop (length p) body ++ more ≡ rest)
split_front [] body more rest e h = (refl, e)
split_front (x ∷ p) [] more rest e h = absurd (omega arith)
split_front (x ∷ p) (y ∷ body) more rest e h =
    let (t, d) = split_front p body more rest (cc e) (omega arith) in (cc (t, e), d)

-- The buffer and what follows it start with the frame of the payload `p`.
abbrev Starts : List ℕ → List ℕ → List ℕ → List ℕ → Type 0
Starts rbuf more p rest = rbuf ++ more ≡ to_le_bytes (length p) ++ (p ++ rest)

-- Either there is not all of the frame yet, or it is taken off.
abbrev Looks : ℕ → List ℕ → List ℕ → List ℕ → List ℕ → Type 0
Looks max_frame rbuf more p rest =
    ((look max_frame rbuf ≡ incomplete) × (length rbuf < 4 + length p))
    ⊎ ((r : List ℕ) × (look max_frame rbuf ≡ frame p r) × (r ++ more ≡ rest))

look_lem :
    (max_frame : ℕ) (rbuf more p rest : List ℕ)
    → length p ≤ max_frame
    → max_frame < 4294967296
    → Starts rbuf more p rest
    → Looks max_frame rbuf more p rest
unfolding look
look_lem m [] more p rest fits small e = inl (refl, omega arith)
look_lem m (a ∷ []) more p rest fits small e = inl (refl, omega arith)
look_lem m (a ∷ b ∷ []) more p rest fits small e = inl (refl, omega arith)
look_lem m (a ∷ b ∷ c ∷ []) more p rest fits small e = inl (refl, omega arith)
look_lem m (a ∷ b ∷ c ∷ d ∷ body) more p rest fits small e =
    let len : from_le_bytes a b c d ≡ length p =
      ap₂ (λ (x y : ℕ). x + y * 256 + c * 65536 + d * 16777216) (cc e) (cc e)
      ∙ ap₂ (λ (x y : ℕ). length p % 256 + length p / 256 % 256 * 256 + x * 65536 + y * 16777216)
          (cc e) (cc e)
      ∙ le_bytes_round (length p) (omega arith) in
    let allowed : ltb m (length p) ≡ false = ground (arith, fits) in
    elim (Bool-cases (leb (length p) (length body))) [
      | inl t ↦
          let (taken, left) = split_front p body more rest (cc e) (leb→le _ _ t) in
          inr (drop (length p) body, rw (len, allowed, t, taken) refl, left)
      | inr f ↦ inl (rw (len, allowed, f) refl, ground (arith, f))
    ]

-- With nothing to come, all of the frame is there.
Starts-nil : (rbuf p rest : List ℕ) → Starts rbuf [] p rest → 4 + length p ≤ length rbuf
Starts-nil rbuf p rest e = omega (
  arith,
  ap length e,
  length-append rbuf [],
  length-append (to_le_bytes (length p)) (p ++ rest),
  length-append p rest,
)

module _ (T : Type 0) (encode : T → Option (List ℕ)) (decode : List ℕ → Option T) where
  recv-frame :
      (max_frame : ℕ) (reads : List Read) (rbuf p rest : List ℕ)
      → length p ≤ max_frame
      → max_frame < 4294967296
      → AllBring reads
      → Starts rbuf (coming reads) p rest
      → (rbuf' : List ℕ) × (reads' : List Read) × (recv T encode decode max_frame rbuf reads
          ≡ (rbuf', reads', decoded T encode decode p))
        × (rbuf' ++ coming reads' ≡ rest)
        × AllBring reads'
  unfolding recv
  recv-frame m [] rbuf p rest fits small a e = elim (look_lem m rbuf [] p rest fits small e) [
    | inl (l, short) ↦ absurd (omega (arith, short, Starts-nil rbuf p rest e))
    | inr (r, l, left) ↦ (r, [], rw (l, recv) refl, left, tt)
  ]
  recv-frame m (failed ∷ reads) rbuf p rest fits small a e = absurd a
  recv-frame m (got [] ∷ reads) rbuf p rest fits small a e = absurd a
  recv-frame m (got (b ∷ bs) ∷ reads) rbuf p rest fits small a e =
      elim (look_lem m rbuf ((b ∷ bs) ++ coming reads) p rest fits small e) [
        | inl (l, short) ↦
            let (r, rs, k, left, still) =
              recv-frame m reads (rbuf ++ (b ∷ bs)) p rest fits small a
                (append_assoc rbuf (b ∷ bs) (coming reads) ∙ e) in
            (r, rs, rw (l, recv) k, left, still)
        | inr (r, l, left) ↦ (r, got (b ∷ bs) ∷ reads, rw (l, recv) refl, left, a)
      ]

  -- What `send` writes for the messages in order.
  abbrev pub send_all : ℕ → List T → Option (List ℕ)
  send_all max_frame [] = some []
  send_all max_frame (msg ∷ msgs) = elim (send T encode decode max_frame msg) [
    | written bs ↦ elim (send_all max_frame msgs) [ none ↦ none | some rest ↦ some (bs ++ rest) ]
    | Sent.frame_too_large size limit ↦ none
    | Sent.encode_failed ↦ none
  ]

  -- One call after the other, each on the buffer that the last one left.
  abbrev pub recv_each : ℕ → ℕ → List ℕ → List Read → List (Received T)
  recv_each zero max_frame rbuf reads = []
  recv_each (suc n) max_frame rbuf reads =
      let (rbuf', reads', r) = recv T encode decode max_frame rbuf reads in
      r ∷ recv_each n max_frame rbuf' reads'

  -- What was written starts with the frame of the first message.
  send_all-parts :
      (max_frame : ℕ) (msg : T) (msgs : List T) (bs : List ℕ)
      → send_all max_frame (msg ∷ msgs) ≡ some bs
      → (p : List ℕ) × (rest : List ℕ) × (encode msg ≡ some p)
        × (length p ≤ max_frame)
        × (send_all max_frame msgs ≡ some rest)
        × (bs ≡ to_le_bytes (length p) ++ (p ++ rest))
  unfolding send
  send_all-parts m msg msgs bs s = elim (Option-cases (encode msg)) [
    | inl n ↦ cc (rw (n, send_all) at s)
    | inr (p, y) ↦ elim (Bool-cases (ltb m (length p))) [
      | inl t ↦ cc (rw (y, t, send_all) at s)
      | inr f ↦ elim (Option-cases (send_all m msgs)) [
        | inl n ↦ cc (rw (y, f, send_all, n) at s)
        | inr (rest, z) ↦
            (p, rest, y, ground (arith, f), z, some_eq (sym (rw (y, f, send_all, z) at s)))
      ]
    ]
  ]

  -- Of an encoding that is read back, and a limit on frames that fits u32: the messages that `send` wrote for
  -- the same limit come back, one for each call of `recv` and in order, however the stream cuts their bytes
  -- into reads, and whatever part of them is in the buffer already.
  pub recv_each-send_all :
      (max_frame : ℕ) (msgs : List T) (rbuf : List ℕ) (reads : List Read) (bs : List ℕ)
      → ((msg : T) (p : List ℕ) → encode msg ≡ some p → decode p ≡ some msg)
      → max_frame < 4294967296
      → send_all max_frame msgs ≡ some bs
      → AllBring reads
      → rbuf ++ coming reads ≡ bs
      → recv_each (length msgs) max_frame rbuf reads ≡ map message msgs
  recv_each-send_all m [] rbuf reads bs law small s a e = refl
  recv_each-send_all m (msg ∷ msgs) rbuf reads bs law small s a e =
      let (p, rest, y, fits, z, front) = send_all-parts m msg msgs bs s in
      let (rbuf', reads', k, left, still) =
        recv-frame m reads rbuf p rest fits small a (e ∙ front) in
      let later = recv_each-send_all m msgs rbuf' reads' rest law small z still left in
      ap (λ r. r.2 ∷ recv_each (length msgs) m r.0 r.1) k
      ∙ ap₂ (λ (r : Received T) (rs : List (Received T)). r ∷ rs) (rw (law msg p y, decoded) refl)
          later
