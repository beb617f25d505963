-- ===== src/Examples/Wire.antt =====
-- clipboard.rs and inbound.rs on a transfer of three bytes.
use geser_desk.Prelude.{
  ℕ, ◌≤◌, true, false, List, [], ◌∷◌, Option, none, some, arith, ◌≡◌, refl, inr, length,
}
use geser_desk.Chunks.{clipboard, Chunk, bytes, ChunkAssembler, whole, stream, with_limit, push}
use geser_desk.Chunks.Transfer.{push_all, push_all-stream, push-limit}
use geser_desk.Content.{ClipboardContent, mime_text, data_len}
use geser_desk.Inbound
use geser_desk.Inbound.{content, finish, grab, data_in}
use geser_desk.Inbound.Delivery.{receive_all, receive_all-stream}
use geser_desk.Inbound.Limits.{Call, grabs, comes, calls, heard, IsWithin, data_in-limit}

abbrev abc : List ℕ
abc = 97 ∷ 98 ∷ 99 ∷ []

push_all-stream_example : (push_all (with_limit 3) (stream abc)).1 ≡ whole abc
push_all-stream_example = push_all-stream 3 abc (inr (omega arith))

-- Two bytes came of at most three.
abbrev half_way : ChunkAssembler
half_way = record { started = true; finished = false; expected = 0; limit = 3; buf = 97 ∷ 98 ∷ [] }

push-limit_example :
    (length (push half_way (bytes abc)).0.buf ≤ 3)
    × ((push half_way (bytes abc)).0.limit ≡ 3)
    × ((bs : List ℕ) → (push half_way (bytes abc)).1 ≡ whole bs → length bs ≤ 3)
push-limit_example = push-limit half_way (bytes abc) (omega arith) (omega arith)

-- An encoding that is the text itself.
abbrev text_of : List ℕ → ClipboardContent
text_of bs = record { items = record { mime = mime_text; data_bytes = bs } ∷ [] }

abbrev plain : List ℕ → Option ClipboardContent
plain bs = some (text_of bs)

receive_all-stream_example :
    (receive_all plain (grab Inbound.new clipboard 5 3) 5 (stream abc)).1 ≡ content (text_of abc)
unfolding data_len
receive_all-stream_example =
    receive_all-stream plain Inbound.new 5 3 (text_of abc) abc refl (omega arith) (omega arith)
      (omega arith)

-- A transfer that is given up for another one, all but the end of which has come.
abbrev abc_calls : List Call
abc_calls =
    grabs clipboard 4 9
    ∷ comes clipboard 4 (Chunk.start 9)
    ∷ grabs clipboard 5 3
    ∷ comes clipboard 5 (Chunk.start 3)
    ∷ comes clipboard 4 (bytes abc)
    ∷ comes clipboard 5 (bytes abc)
    ∷ []

reported :
    (data_in plain (calls plain Inbound.new abc_calls) clipboard 5 Chunk.end).1
    ≡ content (text_of abc)
unfolding data_in grab Inbound.new with_limit push finish data_len
reported = refl

data_in-limit_example :
    (clipboard ≡ clipboard)
    × (Chunk.end ≡ Chunk.end)
    × IsWithin plain (heard none abc_calls) 5 (text_of abc)
    × ((data_in plain (calls plain Inbound.new abc_calls) clipboard 5 Chunk.end).0 ≡ Inbound.new)
data_in-limit_example = data_in-limit plain abc_calls clipboard 5 Chunk.end (text_of abc) reported
