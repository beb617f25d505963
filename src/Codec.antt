-- ===== src/Codec.antt =====
-- crates/geserdesk-proto/src/codec.rs: messages as frames with a length before them. What arrives on
-- the stream is a list of reads, each some bytes; none of them is the end of the stream. How a message is
-- written as bytes is another library's code, the parameters `encode` and `decode`.
pub mod Framing
use geser_desk.Prelude.{
  ℕ, ◌+◌, ◌*◌, ◌/◌, ◌%◌, List, [], ◌∷◌, ◌++◌, Option, none, some, length, take, drop, is_empty, ltb,
  leb, if◌then◌else◌,
}

-- `u32::to_le_bytes`, after the cast of a length to u32.
abbrev pub to_le_bytes : ℕ → List ℕ
to_le_bytes n = n % 256 ∷ n / 256 % 256 ∷ n / 65536 % 256 ∷ n / 16777216 % 256 ∷ []

abbrev pub from_le_bytes : ℕ → ℕ → ℕ → ℕ → ℕ
from_le_bytes a b c d = a + b * 256 + c * 65536 + d * 16777216

abbrev pub default_max_frame : ℕ
default_max_frame = 4194304

-- What one look at the buffer finds.
pub data Look : Type 0 where
  incomplete : Look
  too_large : ℕ → Look
  -- the payload, and the buffer without the frame
  frame : List ℕ → List ℕ → Look

pub data Read : Type 0 where
  got : List ℕ → Read
  failed : Read

unfoldable pub look : ℕ → List ℕ → Look
look max_frame (a ∷ b ∷ c ∷ d ∷ body) =
    let len = from_le_bytes a b c d in
    if ltb max_frame len
    then too_large len
    else if leb len (length body)
    then frame (take len body) (drop len body)
    else incomplete
look max_frame (a ∷ b ∷ c ∷ []) = incomplete
look max_frame (a ∷ b ∷ []) = incomplete
look max_frame (a ∷ []) = incomplete
look max_frame [] = incomplete

pub data Sent : Type 0 where
  written : List ℕ → Sent
  frame_too_large : ℕ → ℕ → Sent
  encode_failed : Sent

-- `pending` is a call that still waits for a read.
pub data Received (T : Type 0) : Type 0 where
  message : T → Received T
  decode_failed closed mid_frame io_failed pending : Received T
  refused : ℕ → ℕ → Received T

module _ (T : Type 0) (encode : T → Option (List ℕ)) (decode : List ℕ → Option T) where
  -- The bytes that `send` writes.
  unfoldable pub send : ℕ → T → Sent
  send max_frame msg = elim (encode msg) [
    | none ↦ encode_failed
    | some payload ↦
        if ltb max_frame (length payload)
        then frame_too_large (length payload) max_frame
        else written (to_le_bytes (length payload) ++ payload)
  ]

  abbrev pub decoded : List ℕ → Received T
  decoded payload = elim (decode payload) [ none ↦ decode_failed | some msg ↦ message msg ]

  -- The end of the stream.
  abbrev pub at_end : List ℕ → Received T
  at_end rbuf = if is_empty rbuf then closed else mid_frame

  -- One call: the buffer and the reads that it leaves, and its result. A call that is dropped while it
  -- waits leaves its buffer to the next.
  unfoldable pub recv : ℕ → List ℕ → List Read → List ℕ × List Read × Received T
  recv max_frame rbuf [] = elim (look max_frame rbuf) [
    | incomplete ↦ (rbuf, [], pending)
    | too_large len ↦ (rbuf, [], refused len max_frame)
    | frame payload rest ↦ (rest, [], decoded payload)
  ]
  recv max_frame rbuf (failed ∷ reads) = elim (look max_frame rbuf) [
    | incomplete ↦ (rbuf, reads, io_failed)
    | too_large len ↦ (rbuf, failed ∷ reads, refused len max_frame)
    | frame payload rest ↦ (rest, failed ∷ reads, decoded payload)
  ]
  recv max_frame rbuf (got [] ∷ reads) = elim (look max_frame rbuf) [
    | incomplete ↦ (rbuf, reads, at_end rbuf)
    | too_large len ↦ (rbuf, got [] ∷ reads, refused len max_frame)
    | frame payload rest ↦ (rest, got [] ∷ reads, decoded payload)
  ]
  recv max_frame rbuf (got (b ∷ bs) ∷ reads) = elim (look max_frame rbuf) [
    | incomplete ↦ recv max_frame (rbuf ++ (b ∷ bs)) reads
    | too_large len ↦ (rbuf, got (b ∷ bs) ∷ reads, refused len max_frame)
    | frame payload rest ↦ (rest, got (b ∷ bs) ∷ reads, decoded payload)
  ]
