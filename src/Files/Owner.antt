-- ===== src/Files/Owner.antt =====
-- crates/geserdesk-clipboard/src/files.rs, `FileOwner`: what this machine announced, and the reads of it. The
-- file system is the parameter `disk`.
use geser_desk.Prelude.{
  ℕ, ◌-◌, Bool, not, ◌||◌, List, Option, none, some, min, ltb, ◌==◌, if◌then◌else◌, get_elem?,
}
use geser_desk.Message.{FileReadResult, FileReadError}
use geser_desk.Files.{FilePath, FileEntry, FileManifest}

abbrev pub max_read_len : ℕ
max_read_len = 1048576

-- `symlink_metadata`: the length, and whether it is a link. `read_exact` at an offset, after opening the
-- file: that many bytes, or a failure.
pub record Disk : Type 0 where
  pub is_symlink : FilePath → Bool
  pub len : FilePath → Option ℕ
  pub read_exact : FilePath → ℕ → ℕ → Option (List ℕ)

pub record Current : Type 0 where
  pub seq : ℕ
  pub manifest : FileManifest
  pub abs_paths : List FilePath

pub record FileOwner : Type 0 where
  pub current : Option Current

unfoldable pub new : FileOwner
new = record { current = none }

unfoldable pub set : FileOwner → ℕ → FileManifest → List FilePath → FileOwner
set o seq manifest abs_paths = record {
  current = some (record { seq = seq; manifest = manifest; abs_paths = abs_paths });
}

unfoldable pub clear : FileOwner → FileOwner
clear o = record { current = none }

abbrev pub refuse : FileReadError → FileReadResult
refuse e = FileReadResult.err e

abbrev pub answered : Option (List ℕ) → FileReadResult
answered none = refuse FileReadError.changed
answered (some bs) = FileReadResult.bytes bs

unfoldable pub read_at : Disk → FilePath → FileEntry → ℕ → ℕ → FileReadResult
read_at disk path entry offset len = elim (disk.len path) [
  | none ↦ refuse FileReadError.changed
  | some now ↦
      if disk.is_symlink path || not (now == entry.size) || ltb entry.size offset
      then refuse FileReadError.changed
      else answered (disk.read_exact path offset (min (min len max_read_len) (entry.size - offset)))
]

-- The entry and its path on this machine.
unfoldable pub read_entry : Disk → Current → ℕ → ℕ → ℕ → FileReadResult
unfolding read_at
read_entry disk c index offset len = elim (get_elem? c.manifest.entries index) [
  | none ↦ refuse FileReadError.not_found
  | some entry ↦
      if entry.dir then refuse FileReadError.denied else elim (get_elem? c.abs_paths index) [
        | none ↦ refuse FileReadError.not_found
        | some path ↦ read_at disk path entry offset len
      ]
]

unfoldable pub read : Disk → FileOwner → ℕ → ℕ → ℕ → ℕ → FileReadResult
unfolding read_entry
read disk o seq index offset len = elim o.current [
  | none ↦ refuse FileReadError.not_found
  | some c ↦
      if not (c.seq == seq)
      then refuse FileReadError.superseded
      else read_entry disk c index offset len
]
