-- ===== src/Files/Relay/Steps.antt =====
-- Everything that happens to the `FileRouter` of files.rs, one step at a time.
use geser_desk.Prelude.{ℕ, String, List, [], ◌∷◌, ◌++◌}
use geser_desk.Message.{FileReadResult}
use geser_desk.Hub.{Hub}
use geser_desk.Files.{FilePath, FileManifest}
use geser_desk.Files.Owner as Served
use geser_desk.Files.Owner.{Disk}
use geser_desk.Files.Relay.{
  Owner, Waiting, to_client, to_local, FileRouter, announce, on_disconnected, request_for_client,
  request_local, read_ends, reply_from_client,
}

-- `hub_becomes` is what the sessions do to the registry in between, `copied` the relay filling in the server's own
-- files.
pub data Step : Type 0 where
  announced : Owner → ℕ → FileManifest → Step
  copied : ℕ → FileManifest → List FilePath → Step
  left : String → Step
  asked_by_client : String → ℕ → ℕ → ℕ → ℕ → ℕ → Step
  asked_here : ℕ → ℕ → ℕ → ℕ → ℕ → Step
  read_done : Disk → ℕ → Step
  replied : String → ℕ → FileReadResult → Step
  hub_becomes : Hub → Step

unfoldable pub step : FileRouter → Step → FileRouter
unfolding announce on_disconnected request_for_client request_local read_ends reply_from_client
    Served.set
step r (announced owner seq m) = announce r owner seq m
step r (copied seq m paths) = record r { local_owner = Served.set r.local_owner seq m paths }
step r (left name) = on_disconnected r name
step r (asked_by_client from seq req index offset len) =
    request_for_client r from seq req index offset len
step r (asked_here channel seq index offset len) = request_local r channel seq index offset len
step r (read_done disk n) = read_ends disk r n
step r (replied from req result) = reply_from_client r from req result
step r (hub_becomes hub) = record r { hub = hub }

unfoldable pub steps : FileRouter → List Step → FileRouter
unfolding step
steps r [] = r
steps r (s ∷ ss) = steps (step r s) ss

-- Who asked, in a step.
abbrev pub asks_in : Step → List Waiting
asks_in (announced owner seq m) = []
asks_in (copied seq m paths) = []
asks_in (left name) = []
asks_in (asked_by_client from seq req index offset len) = to_client from req ∷ []
asks_in (asked_here channel seq index offset len) = to_local channel ∷ []
asks_in (read_done disk n) = []
asks_in (replied from req result) = []
asks_in (hub_becomes hub) = []

abbrev pub asks : List Step → List Waiting
asks [] = []
asks (s ∷ ss) = asks_in s ++ asks ss
