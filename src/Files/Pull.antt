-- ===== src/Files/Pull.antt =====
-- crates/geserdesk-clipboard/src/pull.rs: the bytes of a copy, fetched from its owner and written under a
-- folder. The parameter `w` is what happens on the way: whether an operation on the disk succeeds, and
-- what comes of asking for a chunk. An offset is asked for once, so the place says when.
pub mod Loop
pub mod Sizes
pub mod Exact
use geser_desk.Prelude.{
  ℕ, zero, suc, ◌+◌, ◌-◌, Bool, true, false, not, ◌&&◌, List, [], ◌∷◌, ◌++◌, Option, none, some,
  length, is_empty, min, ltb, keep, map, if◌then◌else◌,
}
use geser_desk.Message.{FileReadError, FileReadResult}
use geser_desk.Files.{Text, FilePath, FileEntry, FileManifest, total_bytes, has_slash}
use geser_desk.Files.Owner.{max_read_len}
use geser_desk.Files.Stage
use geser_desk.Files.Stage.{SanitizeError, sanitize_manifest, split}

-- `io` is an operation on the disk that failed; a timeout stands for itself, without its duration.
pub data PullError : Type 0 where
  sanitize : SanitizeError → PullError
  too_large : ℕ → PullError
  read : FileReadError → PullError
  short_read timeout cancelled io : PullError

-- What the `select!` on a chunk gives.
pub data Arrival : Type 0 where
  answer : FileReadResult → Arrival
  timed_out : Arrival
  cancelled : Arrival

pub record World : Type 0 where
  -- before the pull, and before an entry
  pub cancelled_at_start : Bool
  pub cancelled_before : ℕ → Bool
  pub makes_dest : Bool
  pub creates : ℕ → Bool
  -- of the entry, at the offset
  pub arrives : ℕ → ℕ → ℕ → Arrival
  pub writes : ℕ → ℕ → Bool
  pub flushes : ℕ → Bool

pub record Progress : Type 0 where
  pub seq : ℕ
  pub file : Text
  pub file_index : ℕ
  pub file_count : ℕ
  pub bytes_done : ℕ
  pub bytes_total : ℕ

-- The variables of `pull_into`, what it has written, and what it has reported.
pub record Pulling : Type 0 where
  pub offset : ℕ
  pub written : List ℕ
  pub bytes_done : ℕ
  pub file_index : ℕ
  pub folders : List FilePath
  pub files : List (FilePath × List ℕ)
  pub reports : List Progress

pub data Outcome (A : Type 0) : Type 0 where
  done : A → Outcome A
  stopped : PullError → Outcome A
  out_of_fuel : Outcome A

infixl 5 ◌>>=◌
abbrev pub ◌>>=◌ : {A B : Type 0} → Outcome A → (A → Outcome B) → Outcome B
done a >>= f = f a
stopped e >>= f = stopped e
out_of_fuel >>= f = out_of_fuel

-- What does not change during a pull.
pub record Plan : Type 0 where
  pub seq : ℕ
  pub file_count : ℕ
  pub bytes_total : ℕ

abbrev pub last_part : List Text → Text
last_part [] = []
last_part (p ∷ []) = p
last_part (p ∷ q ∷ ps) = last_part (q ∷ ps)

-- `rsplit('/').next()`
unfoldable pub file_name : FileEntry → Text
file_name e = last_part (split b'/' e.path)

-- The variables after a chunk is written.
abbrev pub with_chunk : Plan → FileEntry → Pulling → List ℕ → Pulling
with_chunk plan e g bs = record g {
  offset = g.offset + length bs;
  written = g.written ++ bs;
  bytes_done = g.bytes_done + length bs;
  reports =
      g.reports
      ++ (record {
        seq = plan.seq;
        file = file_name e;
        file_index = g.file_index;
        file_count = plan.file_count;
        bytes_done = g.bytes_done + length bs;
        bytes_total = plan.bytes_total;
      }
          ∷ []);
}

-- `Data(bytes)`
unfoldable pub on_data : World → Plan → ℕ → FileEntry → Pulling → List ℕ → Outcome Pulling
on_data w plan index e g bs =
    if is_empty bs && ltb g.offset e.size
    then stopped short_read
    else if not (w.writes index g.offset)
    then stopped io
    else done (with_chunk plan e g bs)

unfoldable pub on_arrival : World → Plan → ℕ → FileEntry → Pulling → Arrival → Outcome Pulling
unfolding on_data
on_arrival w plan index e g (answer (FileReadResult.bytes bs)) = on_data w plan index e g bs
on_arrival w plan index e g (answer (FileReadResult.err x)) = stopped (read x)
on_arrival w plan index e g timed_out = stopped timeout
on_arrival w plan index e g Arrival.cancelled = stopped PullError.cancelled

-- How much is asked for next.
abbrev pub want : FileEntry → Pulling → ℕ
want e g = min (e.size - g.offset) max_read_len

-- The `while` loop over the chunks of one file.
unfoldable pub copy : ℕ → World → Plan → ℕ → FileEntry → Pulling → Outcome Pulling
unfolding on_arrival
copy zero w plan index e g = if ltb g.offset e.size then out_of_fuel else done g
copy (suc fuel) w plan index e g = elim (ltb g.offset e.size) [
  | true ↦ on_arrival w plan index e g (w.arrives index g.offset (want e g)) >>= λ g'.
      copy fuel w plan index e g'
  | false ↦ done g
]

-- One file: created, filled and flushed. A chunk that is written is not empty, so its size is fuel enough.
unfoldable pub pull_file : World → Plan → ℕ → FileEntry → FilePath → Pulling → Outcome Pulling
unfolding copy
pull_file w plan index e path g =
    if not (w.creates index)
    then stopped io
    else (copy e.size w plan index e (record g { offset = 0; written = [] }) >>= λ g'.
        if w.flushes index
        then done (record g' {
          file_index = g'.file_index + 1;
          files = g'.files ++ ((path, g'.written) ∷ []);
        })
        else stopped io)

unfoldable pub pull_entry : World → Plan → ℕ → FileEntry → FilePath → Pulling → Outcome Pulling
unfolding pull_file
pull_entry w plan index e path g =
    if w.cancelled_before index
    then stopped PullError.cancelled
    else if e.dir
    then (if w.creates index
        then done (record g { folders = g.folders ++ (path ∷ []) })
        else stopped io)
    else pull_file w plan index e path g

-- `entries.iter().zip(resolved).enumerate()`
unfoldable pub pull_entries :
    World → Plan → ℕ → List FileEntry → List FilePath → Pulling → Outcome Pulling
unfolding pull_entry
pull_entries w plan index [] paths g = done g
pull_entries w plan index (e ∷ es) [] g = done g
pull_entries w plan index (e ∷ es) (p ∷ ps) g =
    pull_entry w plan index e p g >>= λ g'. pull_entries w plan (suc index) es ps g'

abbrev pub nothing_yet : Pulling
nothing_yet = record {
  offset = 0;
  written = [];
  bytes_done = 0;
  file_index = 0;
  folders = [];
  files = [];
  reports = [];
}

unfoldable pub pull_into : World → ℕ → FileManifest → List FilePath → Outcome Pulling
unfolding pull_entries
pull_into w seq m resolved =
    let plan : Plan = record {
      seq = seq;
      file_count = length (keep (λ e. not e.dir) m.entries);
      bytes_total = total_bytes m;
    } in
    pull_entries w plan 0 m.entries resolved nothing_yet

-- The paths of the entries without a `/`.
unfoldable pub top_level : List FileEntry → List FilePath → List FilePath
top_level [] paths = []
top_level (e ∷ es) [] = []
top_level (e ∷ es) (p ∷ ps) =
    let rest = top_level es ps in if has_slash e.path then rest else p ∷ rest

-- What is written, and the paths to paste. A pull that fails removes what it wrote; when that fails too, the code
-- only logs it.
unfoldable pub pull_with_options :
    (Text → Text) → World → ℕ → ℕ → FileManifest → FilePath → Outcome (Pulling × List FilePath)
unfolding pull_into top_level
pull_with_options lower w max_bytes seq m dest =
    if ltb 0 max_bytes && ltb max_bytes (total_bytes m)
    then stopped (too_large max_bytes)
    else elim (sanitize_manifest lower m.entries dest) [
      | Stage.err x ↦ stopped (sanitize x)
      | Stage.ok resolved ↦
          if w.cancelled_at_start
          then stopped PullError.cancelled
          else if not w.makes_dest
          then stopped io
          else (pull_into w seq m resolved >>= λ g. done (g, top_level m.entries resolved))
    ]
