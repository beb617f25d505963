-- ===== src/Files/Relay.antt =====
-- crates/geserdesk-server/src/files.rs, `FileRouter`: questions about files on their way to the machine that
-- has them, and the answers on their way back. A one-shot channel is a number. The task that reads the server's
-- own files is an entry of `reading`, and its end a step. The map of the waiting questions is a list, newest
-- first.
pub mod Steps
pub mod Waits
pub mod Once
pub mod Left
use geser_desk.Prelude.{
  ℕ, zero, suc, ◌+◌, ◌%◌, ◌==◌, Bool, true, false, not, String, List, [], ◌∷◌, ◌++◌, Option, none,
  some, map, keep, if◌then◌else◌, ◌is◌,
}
use geser_desk.Message.{ServerMsg, FileReadResult, FileReadError}
use geser_desk.Hub.{Hub, send}
use geser_desk.Files.{FileManifest}
use geser_desk.Files.Owner as Served
use geser_desk.Files.Owner.{Disk, FileOwner, refuse}

pub data Owner : Type 0 where
  server : Owner
  client : String → Owner

-- Who asked: a client, under its own number, or a pull of the server's.
pub data Waiting : Type 0 where
  to_client : String → ℕ → Waiting
  to_local : ℕ → Waiting

pub record Pending : Type 0 where
  pub sent_to : String
  pub waiting : Waiting

-- A read of the server's own files that has not ended.
pub record Reading : Type 0 where
  pub seq : ℕ
  pub index : ℕ
  pub offset : ℕ
  pub len : ℕ
  pub waiting : Waiting

-- `answers` is what was delivered, oldest first, to clients and to local pulls.
pub record FileRouter : Type 0 where
  pub hub : Hub
  pub local_owner : FileOwner
  pub current : Option (Owner × ℕ × FileManifest)
  pub pending : List (ℕ × Pending)
  pub next_req : ℕ
  pub reading : List Reading
  pub answers : List (Waiting × FileReadResult)

unfoldable pub new : Hub → FileRouter
unfolding Served.new
new hub = record {
  hub = hub;
  local_owner = Served.new;
  current = none;
  pending = [];
  next_req = 1;
  reading = [];
  answers = [];
}

unfoldable pub announce : FileRouter → Owner → ℕ → FileManifest → FileRouter
announce r owner seq manifest = record r { current = some (owner, seq, manifest) }

unfoldable pub current_owner : FileRouter → Option Owner
current_owner r = elim r.current [ none ↦ none | some c ↦ some (c.0) ]

unfoldable pub deliver : FileRouter → Waiting → FileReadResult → FileRouter
unfolding send
deliver r (to_client name req) result = record r {
  hub = (send r.hub name (ServerMsg.file_reply req result)).0;
  answers = r.answers ++ ((to_client name req, result) ∷ []);
}
deliver r (to_local n) result = record r { answers = r.answers ++ ((to_local n, result) ∷ []) }

-- The entry of `req` taken out of the map.
unfoldable pub take_out : ℕ → List (ℕ × Pending) → Option Pending × List (ℕ × Pending)
take_out req [] = (none, [])
take_out req ((at, p) ∷ rest) =
    let later = take_out req rest in
    if at == req then (some p, rest) else (later.0, (at, p) ∷ later.1)

unfoldable pub put : ℕ → Pending → List (ℕ × Pending) → List (ℕ × Pending)
unfolding take_out
put req p m = (req, p) ∷ (take_out req m).1

-- The entry of `req`, if it is there, is answered with this.
unfoldable pub answer_with : FileRouter → ℕ → (Pending → FileReadResult) → FileRouter
unfolding take_out deliver
answer_with r req result =
    let found = take_out req r.pending in
    elim found.0 [
      | none ↦ r
      | some p ↦ deliver (record r { pending = found.1 }) p.waiting (result p)
    ]

abbrev pub not_found : FileReadResult
not_found = refuse FileReadError.not_found

unfoldable pub answer_all : FileRouter → List ℕ → FileRouter
unfolding answer_with
answer_all r [] = r
answer_all r (req ∷ reqs) = answer_all (answer_with r req (λ p. not_found)) reqs

-- The numbers of the questions that were sent to `name`.
unfoldable pub stale : String → List (ℕ × Pending) → List ℕ
stale name m = map (λ e. e.0) (keep (λ e. e.1.sent_to is name) m)

abbrev pub without_owner :
    String → Option (Owner × ℕ × FileManifest) → Option (Owner × ℕ × FileManifest)
without_owner name none = none
without_owner name (some (server, seq, m)) = some (server, seq, m)
without_owner name (some (client n, seq, m)) = if n is name then none else some (client n, seq, m)

unfoldable pub on_disconnected : FileRouter → String → FileRouter
unfolding stale answer_all
on_disconnected r name =
    let r' : FileRouter = record r { current = without_owner name r.current } in
    answer_all r' (stale name r'.pending)

-- To the client that owns the files: the question waits, unless it cannot be sent.
unfoldable pub ask : FileRouter → String → ℕ → ℕ → ℕ → ℕ → Waiting → FileRouter
unfolding put send answer_with
ask r name seq index offset len from =
    let req = r.next_req in
    let sent = send r.hub name (ServerMsg.file_read seq req index offset len) in
    let r' : FileRouter = record r {
      next_req = (r.next_req + 1) % 18446744073709551616;
      pending = put req (record { sent_to = name; waiting = from }) r.pending;
      hub = sent.0;
    } in
    if sent.1 then r' else answer_with r' req (λ p. not_found)

unfoldable pub route : FileRouter → ℕ → ℕ → ℕ → ℕ → Waiting → FileRouter
unfolding current_owner deliver ask
route r seq index offset len from = elim (current_owner r) [
  | none ↦ deliver r from not_found
  | some owner ↦ elim owner [
    | server ↦ record r {
      reading =
          r.reading
          ++ (record { seq = seq; index = index; offset = offset; len = len; waiting = from } ∷ []);
    }
    | client name ↦ ask r name seq index offset len from
  ]
]

-- The read at a place of the list, and the others.
unfoldable pub pick : ℕ → List Reading → Option Reading × List Reading
pick n [] = (none, [])
pick zero (t ∷ ts) = (some t, ts)
pick (suc n) (t ∷ ts) = let later = pick n ts in (later.0, t ∷ later.1)

-- One of the reads ends: they run beside each other.
unfoldable pub read_ends : Disk → FileRouter → ℕ → FileRouter
unfolding Served.read deliver pick
read_ends disk r n =
    let found = pick n r.reading in
    elim found.0 [
      | none ↦ r
      | some t ↦
          deliver (record r { reading = found.1 }) t.waiting
            (Served.read disk r.local_owner t.seq t.index t.offset t.len)
    ]

unfoldable pub request_for_client : FileRouter → String → ℕ → ℕ → ℕ → ℕ → ℕ → FileRouter
unfolding route
request_for_client r from seq req index offset len =
    route r seq index offset len (to_client from req)

-- Up to the wait for the channel's answer.
unfoldable pub request_local : FileRouter → ℕ → ℕ → ℕ → ℕ → ℕ → FileRouter
unfolding route
request_local r channel seq index offset len = route r seq index offset len (to_local channel)

-- An answer from another machine than the one that was asked is none.
unfoldable pub reply_from_client : FileRouter → String → ℕ → FileReadResult → FileRouter
unfolding answer_with
reply_from_client r from req result =
    answer_with r req (λ p. if p.sent_to is from then result else not_found)
