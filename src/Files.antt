-- ===== src/Files.antt =====
-- Copies of files: crates/geserdesk-proto/src/clipboard.rs says what a copy announces. The modules below
-- serve its bytes, check its names and pull it. A text is the list of its characters' codes, a path the list of
-- its components.
pub mod Stage
pub mod Owner
pub mod Pull
pub mod Relay
use geser_desk.Prelude.{ℕ, ◌+◌, ◌%◌, Bool, not, List, [], ◌∷◌, any, keep, map, if◌then◌else◌, ◌==◌}

abbrev pub Text : Type 0
Text = List ℕ

abbrev pub FilePath : Type 0
FilePath = List Text

pub record FileEntry : Type 0 where
  pub path : Text
  pub size : ℕ
  pub dir : Bool

pub record FileManifest : Type 0 where
  pub entries : List FileEntry

-- A sum of u64 sizes.
abbrev pub bytes_of : List FileEntry → ℕ
bytes_of [] = 0
bytes_of (e ∷ es) =
    let rest = bytes_of es in if e.dir then rest else (e.size + rest) % 18446744073709551616

unfoldable pub total_bytes : FileManifest → ℕ
total_bytes m = bytes_of m.entries

-- `contains('/')`
abbrev pub has_slash : Text → Bool
has_slash t = any (λ c. c == b'/') t

-- The names at the top of a copy (history.rs).
unfoldable pub top_names : FileManifest → List Text
top_names m = map (λ e. e.path) (keep (λ e. not (has_slash e.path)) m.entries)
