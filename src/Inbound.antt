-- ===== src/Inbound.antt =====
-- crates/geserdesk-clipboard/src/inbound.rs: the receiving side of a clipboard push. How bytes are read as
-- contents, the code of another library, is the parameter `decode`; sizes are u64.
pub mod Delivery
pub mod Limits
use geser_desk.Prelude.{
  ℕ, ◌+◌, Bool, true, false, ◌||◌, not, List, Option, none, some, min, ltb, ◌==◌, if◌then◌else◌,
}
use geser_desk.Chunks.{
  ClipboardId, clipboard, primary, Chunk, ChunkError, too_large, ChunkAssembler, Pushed, more,
  whole, failed, with_limit, push,
}
use geser_desk.Content.{ClipboardContent, data_len}

abbrev pub encoding_slack : ℕ
encoding_slack = 4096

pub data InboundError : Type 0 where
  of_chunks : ChunkError → InboundError
  malformed : InboundError

-- The transfer in progress: its number, the most data it may hold, and its assembler.
pub record Inbound : Type 0 where
  pub current : Option (ℕ × ℕ × ChunkAssembler)

-- `Result<Option<ClipboardContent>, InboundError>`
pub data Received : Type 0 where
  nothing : Received
  content : ClipboardContent → Received
  err : InboundError → Received

abbrev pub is_clipboard : ClipboardId → Bool
is_clipboard clipboard = true
is_clipboard primary = false

-- `saturating_add` on u64.
abbrev pub saturating_add : ℕ → ℕ → ℕ
saturating_add a b = min (a + b) 18446744073709551615

unfoldable pub new : Inbound
new = record { current = none }

unfoldable pub grab : Inbound → ClipboardId → ℕ → ℕ → Inbound
grab i id seq max_bytes =
    if is_clipboard id
    then record {
      current = some (seq, max_bytes, with_limit (saturating_add max_bytes encoding_slack));
    }
    else record { current = none }

module _ (decode : List ℕ → Option ClipboardContent) where
  -- The contents of a finished transfer.
  unfoldable pub finish : ℕ → List ℕ → Received
  finish max_bytes bytes = elim (decode bytes) [
    | none ↦ err malformed
    | some c ↦
        if ltb max_bytes (data_len c) then err (of_chunks (too_large max_bytes)) else content c
  ]

  unfoldable pub pushed : ℕ → ℕ → ChunkAssembler × Pushed → Inbound × Received
  unfolding finish
  pushed seq max_bytes (asm, more) = (record { current = some (seq, max_bytes, asm) }, nothing)
  pushed seq max_bytes (asm, whole bytes) = (record { current = none }, finish max_bytes bytes)
  pushed seq max_bytes (asm, failed e) = (record { current = none }, err (of_chunks e))

  unfoldable pub data_in : Inbound → ClipboardId → ℕ → Chunk → Inbound × Received
  unfolding pushed
  data_in i id seq chunk = elim i.current [
    | none ↦ (i, nothing)
    | some (current, max_bytes, asm) ↦
        if not (is_clipboard id) || not (seq == current)
        then (i, nothing)
        else pushed current max_bytes (push asm chunk)
  ]
