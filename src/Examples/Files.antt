-- ===== src/Examples/Files.antt =====
-- A copy of a file in a folder, and its way through the server: files.rs, stage.rs and pull.rs.
use geser_desk.Prelude.{
  ℕ, ◌+◌, ◌≤◌, true, false, not, List, [], ◌∷◌, ◌++◌, some, arith, ◌≡◌, ◌≢◌, refl, ap, subst,
  length-take, ◌⊎◌, All, any, map, keep, length, take, drop, ◌is◌,
}
use geser_desk.Message.{FileReadResult}
use geser_desk.Hub
use geser_desk.Files.{Text, FilePath, FileEntry, FileManifest}
use geser_desk.Files.Owner.{Disk}
use geser_desk.Files.Stage.{split, sanitize_manifest}
use geser_desk.Files.Stage.Safe.{IsSafeName, IsDistinct, place, sanitize_manifest-IsSafeName}
use geser_desk.Files.Pull.{
  Arrival, answer, timed_out, World, PullError, Pulling, Outcome, done, stopped, pull_into,
}
use geser_desk.Files.Pull.Loop.{IsMeasured}
use geser_desk.Files.Pull.Sizes.{pull_into_total}
use geser_desk.Files.Pull.Exact.{calm, OnDisk}
use geser_desk.Files.Pull.Exact.Copies.{asked_of, files_at, folders_at, pull_into-read_exact}
use geser_desk.Files.Relay.{client, new, current_owner, on_disconnected, not_found}
use geser_desk.Files.Relay.Steps.{Step, steps, asks, announced, asked_by_client, asked_here}
use geser_desk.Files.Relay.Waits.{count, answered}
use geser_desk.Files.Relay.Once.{steps_once}
use geser_desk.Files.Relay.Left.{on_disconnected-steps}

-- A folder `a` with a file `a/b` of three bytes.
abbrev folder : FileEntry
folder = record { path = b'a' ∷ []; size = 0; dir = true }

abbrev file : FileEntry
file = record { path = b'a' ∷ b'/' ∷ b'b' ∷ []; size = 3; dir = false }

abbrev pub a_copy : FileManifest
a_copy = record { entries = folder ∷ file ∷ [] }

abbrev dest : FilePath
dest = (b't' ∷ []) ∷ []

abbrev resolved : List FilePath
resolved = ((b't' ∷ []) ∷ (b'a' ∷ []) ∷ []) ∷ ((b't' ∷ []) ∷ (b'a' ∷ []) ∷ (b'b' ∷ []) ∷ []) ∷ []

-- No letter here has another case.
abbrev lower : Text → Text
lower t = t

sanitize_manifest-IsSafeName_example :
    (resolved ≡ map (λ e. place dest e.path) a_copy.entries)
    × All (λ e. All IsSafeName (split b'/' e.path)) a_copy.entries
    × IsDistinct resolved
unfolding sanitize_manifest split any
sanitize_manifest-IsSafeName_example =
    sanitize_manifest-IsSafeName lower a_copy.entries dest resolved refl

abbrev bytes : List ℕ
bytes = 1 ∷ 2 ∷ 3 ∷ []

-- A disk on which every file holds these bytes.
abbrev disk : Disk
disk = record {
  is_symlink = λ p. false;
  len = λ p. some 3;
  read_exact = λ p o n. some (take n (drop o bytes));
}

bytes-OnDisk : OnDisk disk ((b'b' ∷ []) ∷ []) file bytes
bytes-OnDisk = record { size = refl; len = refl; no_link = refl; reads = λ o n le. refl }

abbrev pub abs_paths : List FilePath
abs_paths = ((b'a' ∷ []) ∷ []) ∷ ((b'b' ∷ []) ∷ []) ∷ []

abbrev calm_pull : Outcome Pulling
calm_pull = pull_into (calm (asked_of disk 7 a_copy abs_paths)) 7 a_copy resolved

pull_into-read_exact_example :
    (g : Pulling) × (calm_pull ≡ done g)
    × (g.files ≡ files_at a_copy.entries resolved ([] ∷ bytes ∷ []))
    × (g.folders ≡ folders_at a_copy.entries resolved)
pull_into-read_exact_example =
    pull_into-read_exact disk 7 a_copy abs_paths resolved ([] ∷ bytes ∷ [])
      ((λ no_dir. cc), ((λ no_dir. bytes-OnDisk), refl)) refl

-- Answers of one byte at most.
abbrev slow : World
slow = calm (λ i o n. FileReadResult.bytes (take n (5 ∷ [])))

abbrev bytes_in : Arrival → List ℕ
bytes_in (answer (FileReadResult.bytes bs)) = bs
bytes_in (answer (FileReadResult.err e)) = []
bytes_in timed_out = []
bytes_in Arrival.cancelled = []

slow-IsMeasured : IsMeasured slow
unfolding IsMeasured
slow-IsMeasured i o n bs e =
    let same : take n (5 ∷ []) ≡ bs = ap bytes_in e in
    let short = length-take {A = ℕ} n (5 ∷ []) in
    subst (λ l. length l ≤ n) same (ground (arith, short))

pull_into_total_example :
    ((g : Pulling) × (pull_into slow 7 a_copy resolved ≡ done g)
      × (map (λ f. length (f.1)) g.files ≡ 3 ∷ [])
      × (g.bytes_done ≡ 3)
      × (g.file_index ≡ 1))
    ⊎ ((x : PullError) × (pull_into slow 7 a_copy resolved ≡ stopped x))
unfolding keep
pull_into_total_example = pull_into_total slow 7 a_copy resolved slow-IsMeasured refl

-- A client that has files, and is asked for a part of one.
abbrev with_win : Hub.Hub
with_win = (Hub.register Hub.new "win" []).0

abbrev asking : List Step
asking =
    announced (client "win") 5 a_copy ∷ asked_here 1 5 1 0 3 ∷ asked_by_client "mac" 5 8 1 0 3 ∷ []

steps_once_example :
    let r = steps (new with_win) asking in
    count (λ w. true) (asks asking)
    ≡ count (λ w. true) (answered r)
      + count (λ w. true) (map (λ e. e.1.waiting) r.pending)
      + count (λ w. true) (map (λ x. x.waiting) r.reading)
steps_once_example = steps_once with_win asking (λ w. true) (omega arith)

on_disconnected-steps_example :
    let r = steps (new with_win) asking in
    let r' = on_disconnected r "win" in
    (r'.answers
      ≡ r.answers
        ++ map (λ e. (e.1.waiting, not_found)) (keep (λ e. e.1.sent_to is "win") r.pending))
    × (r'.pending ≡ keep (λ e. not (e.1.sent_to is "win")) r.pending)
    × (current_owner r' ≢ some (client "win"))
on_disconnected-steps_example = on_disconnected-steps with_win asking "win" (omega arith)
