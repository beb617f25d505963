-- ===== src/Sync.antt =====
-- crates/geserdesk-clipboard/src/sync.rs and lib.rs: what is new on the clipboard of a machine, and what comes from
-- a peer. The clipboard of the system is the parameter `os` over its states; `fingerprint` and
-- `fingerprint_paths` are the hashes of what it holds. A poll runs under the lock, as one step.
pub mod Echo
pub mod Fit
use geser_desk.Prelude.{
  ℕ, Bool, true, false, not, ◌&&◌, ◌||◌, leb, ◌==◌, if◌then◌else◌, min, List, [], ◌∷◌, Option, none,
  some, is_some, is_empty, find,
}
use geser_desk.Content
use geser_desk.Content.{ClipboardContent, without_html, data_len, holds_nothing, text_only}
use geser_desk.Files.{FilePath, FileManifest}

abbrev pub hard_max_bytes : ℕ
hard_max_bytes = 16777216

abbrev pub hard_files_max_bytes : ℕ
hard_files_max_bytes = 268435456

abbrev limit : ℕ → ℕ → ℕ
limit configured most = if configured == 0 then most else min configured most

unfoldable pub effective_max : ℕ → ℕ
effective_max configured = limit configured hard_max_bytes

unfoldable pub effective_files_max : ℕ → ℕ
effective_files_max configured = limit configured hard_files_max_bytes

-- `Result<Option<A>, ClipboardError>`
pub data Got (A : Type 0) : Type 0 where
  nothing failed : Got A
  got : A → Got A

-- The clipboard of a system. A write tells whether it succeeded.
pub record Clipboard (S : Type 0) : Type 0 where
  pub get : S → Got ClipboardContent
  pub set : S → ClipboardContent → S × Bool
  pub file_list : S → Got (List FilePath)
  pub set_file_list : S → List FilePath → S × Bool
  pub change_count : S → Option ℕ

pub record Inner : Type 0 where
  pub seen : Option ℕ
  pub refused : Option ℕ
  pub count : Option ℕ
  pub files_seen : Option ℕ
  pub files_count : Option ℕ

unfoldable pub new : Inner
new = record { seen = none; refused = none; count = none; files_seen = none; files_count = none }

abbrev pub same : Option ℕ → Option ℕ → Bool
same none none = true
same none (some b) = false
same (some a) none = false
same (some a) (some b) = a == b

-- The count says that nothing has changed.
abbrev pub unchanged : Option ℕ → Option ℕ → Bool
unchanged now before = is_some now && same now before

module _ (is_utf8 : List ℕ → Bool) (reads_files : List ℕ → Option FileManifest) where
  unfoldable pub fit : ClipboardContent → ℕ → Option ClipboardContent
  unfolding find holds_nothing data_len without_html text_only
  fit content max_bytes =
      find (λ c. not (holds_nothing is_utf8 reads_files c) && leb (data_len c) max_bytes)
        (content ∷ without_html content ∷ text_only is_utf8 reads_files content ∷ [])

  module _ (fingerprint : ClipboardContent → ℕ) (fingerprint_paths : List FilePath → ℕ) {S : Type 0}
      (os : Clipboard S) where
    abbrev pub id_of : Got ClipboardContent → Option ℕ
    id_of nothing = none
    id_of failed = none
    id_of (got c) = some (fingerprint c)

    -- An empty list is no copy of files.
    abbrev id_of_files : Got (List FilePath) → Option ℕ
    id_of_files nothing = none
    id_of_files failed = none
    id_of_files (got paths) = if is_empty paths then none else some (fingerprint_paths paths)

    abbrev pub or_else : Option ℕ → ℕ → ℕ
    or_else none id = id
    or_else (some now) id = now

    unfoldable pub prime : Inner → S → Inner
    prime i s = record i { count = os.change_count s; seen = id_of (os.get s) }

    unfoldable pub prime_files : Inner → S → Inner
    prime_files i s = record i {
      files_count = os.change_count s;
      files_seen = id_of_files (os.file_list s);
    }

    -- What is new is offered as far as the limit lets it; what is too large is remembered for one warning.
    abbrev pub offered :
        Inner → ℕ → Bool → Option ClipboardContent → Inner × Option ClipboardContent
    offered i id true fitted = (i, none)
    offered i id false none = (record i { refused = some id }, none)
    offered i id false (some c) = (i, some c)

    unfoldable pub offer : Inner → ClipboardContent → ℕ → Inner × Option ClipboardContent
    unfolding fit holds_nothing
    offer i c max_bytes =
        let id = fingerprint c in
        if same i.seen (some id)
        then (i, none)
        else offered (record i { seen = some id }) id (holds_nothing is_utf8 reads_files c)
            (fit c max_bytes)

    unfoldable pub looked : Inner → Got ClipboardContent → ℕ → Inner × Option ClipboardContent
    unfolding offer
    looked i nothing max_bytes = (i, none)
    looked i failed max_bytes = (i, none)
    looked i (got c) max_bytes = offer i c max_bytes

    unfoldable pub poll : Inner → S → ℕ → Inner × Option ClipboardContent
    unfolding looked
    poll i s max_bytes =
        if unchanged (os.change_count s) i.count
        then (i, none)
        else looked (record i { count = os.change_count s }) (os.get s) max_bytes

    unfoldable pub offer_files : Inner → List FilePath → Inner × Option (List FilePath)
    offer_files i paths =
        let id = fingerprint_paths paths in
        if is_empty paths || same i.files_seen (some id)
        then (i, none)
        else (record i { files_seen = some id }, some paths)

    unfoldable pub poll_files : Inner → S → Inner × Option (List FilePath)
    unfolding offer_files
    poll_files i s =
        let i' : Inner = record i { files_count = os.change_count s } in
        if unchanged (os.change_count s) i.files_count then (i, none) else elim (os.file_list s) [
          | nothing ↦ (i', none)
          | failed ↦ (i', none)
          | got paths ↦ offer_files i' paths
        ]

    -- A write that fails is an error to the caller, and changes nothing here.
    unfoldable pub apply : Inner → S → ClipboardContent → Inner × S × Bool
    apply i s content =
        let wrote = os.set s content in
        if wrote.1
        then (
          record i {
            seen = some (or_else (id_of (os.get (wrote.0))) (fingerprint content));
            count = os.change_count (wrote.0);
          },
          wrote.0,
          true,
        )
        else (i, wrote.0, false)

    unfoldable pub apply_files : Inner → S → List FilePath → Inner × S × Bool
    apply_files i s paths =
        let wrote = os.set_file_list s paths in
        if wrote.1
        then (
          record i {
            files_seen =
                some (or_else (id_of_files (os.file_list (wrote.0))) (fingerprint_paths paths));
            files_count = os.change_count (wrote.0);
          },
          wrote.0,
          true,
        )
        else (i, wrote.0, false)
