-- ===== src/Client/Clip.antt =====
-- crates/geserdesk-client/src/net.rs, `ClientClipboard`: the clipboard of one connection. The parameters are other
-- libraries' readings of bytes, the hashes, the system's clipboard `os`, and `collect`, the list of the files
-- under the paths that were copied. A pull that starts is a result.
pub mod Own
pub mod Events
pub mod Feed
pub mod Echo
pub mod Pushes
pub mod Served
use geser_desk.Prelude.{
  ℕ, ◌+◌, ◌%◌, Bool, true, false, not, ◌&&◌, ◌||◌, ◌==◌, if◌then◌else◌, List, [], ◌∷◌, ◌++◌, Option,
  none, some, is_some, map,
}
use geser_desk.Message.{Options, ClientMsg, FileReadResult}
use geser_desk.Chunks.{ClipboardId, clipboard, Chunk, stream}
use geser_desk.Content.{ClipboardContent, files, with_files}
use geser_desk.Inbound as In
use geser_desk.Inbound.{Inbound, Received, data_in}
use geser_desk.Files.{Text, FilePath, FileEntry, FileManifest}
use geser_desk.Files.Owner as Owner
use geser_desk.Files.Owner.{FileOwner, Disk}
use geser_desk.Files.Stage.{text_eq}
use geser_desk.Sync as Sync
use geser_desk.Sync.{Inner, Clipboard, effective_max, effective_files_max}

-- The derived `==`.
abbrev pub entry_eq : FileEntry → FileEntry → Bool
entry_eq a b = text_eq a.path b.path && a.size == b.size && (if a.dir then b.dir else not b.dir)

abbrev pub entries_eq : List FileEntry → List FileEntry → Bool
entries_eq [] [] = true
entries_eq [] (b ∷ bs) = false
entries_eq (a ∷ as') [] = false
entries_eq (a ∷ as') (b ∷ bs) = let rest = entries_eq as' bs in entry_eq a b && rest

abbrev pub manifest_eq : FileManifest → FileManifest → Bool
manifest_eq a b = entries_eq a.entries b.entries

pub record ClientClipboard : Type 0 where
  pub sync : Option Inner
  pub options : Options
  pub inbound : Inbound
  pub seq : ℕ
  pub files_owner : FileOwner
  pub pending_own_files : Option (FileManifest × List FilePath)
  pub remote_files : Option (ℕ × FileManifest)
  pub last_pulled_seq : Option ℕ

unfoldable pub new : Option Inner → Options → ClientClipboard
unfolding In.new Owner.new
new sync options = record {
  sync = sync;
  options = options;
  inbound = In.new;
  seq = 0;
  files_owner = Owner.new;
  pending_own_files = none;
  remote_files = none;
  last_pulled_seq = none;
}

unfoldable pub active : ClientClipboard → Bool
active c = is_some c.sync && c.options.clipboard_sharing

unfoldable pub files_active : ClientClipboard → Bool
files_active c = is_some c.sync && c.options.clipboard_files

unfoldable pub grab : ClientClipboard → ClipboardId → ℕ → ClientClipboard
unfolding active files_active In.grab effective_max
grab c id seq =
    if active c || files_active c
    then record c {
      inbound = In.grab c.inbound id seq (effective_max c.options.clipboard_max_bytes);
    }
    else c

-- The echo of a push, when one waits for it; an announcement of another machine's files otherwise.
unfoldable pub announced :
    ClientClipboard → ℕ → FileManifest → Option (FileManifest × List FilePath) → ClientClipboard
unfolding Owner.set
announced c seq manifest none = record c { remote_files = some (seq, manifest) }
announced c seq manifest (some (mine, paths)) =
    let cleared : ClientClipboard = record c { pending_own_files = none; remote_files = none } in
    if manifest_eq mine manifest
    then record cleared { files_owner = Owner.set c.files_owner seq mine paths }
    else cleared

unfoldable pub on_files_announced : ClientClipboard → ℕ → FileManifest → ClientClipboard
unfolding announced
on_files_announced c seq manifest =
    if not c.options.clipboard_files then c else announced c seq manifest c.pending_own_files

-- The pull that starts, if one does.
unfoldable pub pull_of :
    ClientClipboard → Option (ℕ × FileManifest) → ClientClipboard × Option (ℕ × FileManifest)
unfolding files_active
pull_of c none = (c, none)
pull_of c (some (seq, manifest)) =
    if not (files_active c) || Sync.same c.last_pulled_seq (some seq)
    then (c, none)
    else (record c { last_pulled_seq = some seq }, some (seq, manifest))

unfoldable pub pull_on_enter : ClientClipboard → ClientClipboard × Option (ℕ × FileManifest)
unfolding pull_of
pull_on_enter c = pull_of c c.remote_files

unfoldable pub serve_file_read : Disk → ClientClipboard → ℕ → ℕ → ℕ → ℕ → FileReadResult
unfolding Owner.read
serve_file_read disk c seq index offset len = Owner.read disk c.files_owner seq index offset len

module _ (encode : ClipboardContent → List ℕ) where
  -- The messages of a push.
  unfoldable pub push_of : ℕ → ClipboardContent → List ClientMsg
  unfolding stream
  push_of seq content =
      ClientMsg.clipboard_grab clipboard seq
      ∷ map (λ chunk. ClientMsg.clipboard_data clipboard seq chunk) (stream (encode content))

  -- How bytes are read, what is copied, and the system's clipboard.
  module _ (is_utf8 : List ℕ → Bool) (reads_files : List ℕ → Option FileManifest)
      (encode_files : FileManifest → List ℕ) (decode : List ℕ → Option ClipboardContent)
      (collect : List FilePath → ℕ → Option (FileManifest × List FilePath)) where
    module _ (fingerprint : ClipboardContent → ℕ) (fingerprint_paths : List FilePath → ℕ)
        {S : Type 0} (os : Clipboard S) where
      abbrev pub polls : Inner → S → ℕ → Inner × Option ClipboardContent
      polls = Sync.poll is_utf8 reads_files fingerprint fingerprint_paths os

      abbrev pub polls_files : Inner → S → Inner × Option (List FilePath)
      polls_files = Sync.poll_files is_utf8 reads_files fingerprint fingerprint_paths os

      abbrev pub primed : Inner → S → Inner
      primed = Sync.prime is_utf8 reads_files fingerprint fingerprint_paths os

      abbrev pub primed_files : Inner → S → Inner
      primed_files = Sync.prime_files is_utf8 reads_files fingerprint fingerprint_paths os

      abbrev pub mapped : (Inner → Inner) → Option Inner → Option Inner
      mapped f none = none
      mapped f (some i) = some (f i)

      abbrev pub on_sync : (Inner → Inner) → ClientClipboard → ClientClipboard
      on_sync f c = record c { sync = mapped f c.sync }

      unfoldable pub prime : ClientClipboard → S → ClientClipboard
      unfolding Sync.prime Sync.prime_files
      prime c s =
          let c' = if c.options.clipboard_sharing then on_sync (λ i. primed i s) c else c in
          if c.options.clipboard_files then on_sync (λ i. primed_files i s) c' else c'

      abbrev pub next : ℕ → ℕ
      next seq = (seq + 1) % 18446744073709551616

      -- What the poll found, pushed.
      unfoldable pub pushed_data :
          ClientClipboard → Inner → Option ClipboardContent → ClientClipboard × List ClientMsg
      unfolding push_of
      pushed_data c i none = (record c { sync = some i }, [])
      pushed_data c i (some content) =
          (record c { sync = some i; seq = next c.seq }, push_of (next c.seq) content)

      unfoldable pub changed_data :
          ClientClipboard → S → Option Inner → ClientClipboard × List ClientMsg
      unfolding Sync.poll pushed_data effective_max
      changed_data c s none = (c, [])
      changed_data c s (some i) =
          let found = polls i s (effective_max c.options.clipboard_max_bytes) in
          if not c.options.clipboard_sharing then (c, []) else pushed_data c (found.0) (found.1)

      -- The files that were collected, pushed; data when they cannot be shared.
      unfoldable pub pushed_files :
          ClientClipboard
          → S
          → Option (FileManifest × List FilePath)
          → ClientClipboard × List ClientMsg
      unfolding changed_data push_of with_files
      pushed_files c s none = changed_data c s c.sync
      pushed_files c s (some (manifest, paths)) = (
        record c { seq = next c.seq; pending_own_files = some (manifest, paths) },
        push_of (next c.seq) (with_files encode_files manifest),
      )

      unfoldable pub changed_files :
          ClientClipboard → S → Option (List FilePath) → ClientClipboard × List ClientMsg
      unfolding changed_data pushed_files effective_files_max
      changed_files c s none = changed_data c s c.sync
      changed_files c s (some roots) =
          pushed_files c s (collect roots (effective_files_max c.options.clipboard_files_max_bytes))

      unfoldable pub changed_on :
          ClientClipboard → S → Option Inner → ClientClipboard × List ClientMsg
      unfolding changed_files changed_data Sync.poll_files
      changed_on c s none = changed_data c s none
      changed_on c s (some i) =
          let found = polls_files i s in
          if not c.options.clipboard_files || is_some c.pending_own_files
          then changed_data c s (some i)
          else changed_files (record c { sync = some (found.0) }) s (found.1)

      -- No push of files while one waits for its echo.
      unfoldable pub changed : ClientClipboard → S → ClientClipboard × List ClientMsg
      unfolding changed_on
      changed c s = changed_on c s c.sync

      unfoldable pub apply_content :
          ClientClipboard → S → ClipboardContent → Option Inner → ClientClipboard × S
      unfolding Sync.apply
      apply_content c s content none = (c, s)
      apply_content c s content (some i) =
          let wrote = Sync.apply is_utf8 reads_files fingerprint fingerprint_paths os i s content in
          if c.options.clipboard_sharing
          then (record c { sync = some (wrote.0) }, wrote.1)
          else (c, s)

      -- Contents that have arrived whole: the announcement of files, or data.
      unfoldable pub on_content :
          ClientClipboard → S → ℕ → ClipboardContent → Option FileManifest → ClientClipboard × S
      unfolding on_files_announced apply_content
      on_content c s seq content none = apply_content c s content c.sync
      on_content c s seq content (some manifest) = (on_files_announced c seq manifest, s)

      -- What is refused is logged and dropped.
      unfoldable pub on_received : ClientClipboard → S → ℕ → Received → ClientClipboard × S
      unfolding on_content files
      on_received c s seq Received.nothing = (c, s)
      on_received c s seq (Received.content content) =
          on_content c s seq content (files is_utf8 reads_files content)
      on_received c s seq (Received.err e) = (c, s)

      unfoldable pub on_data : ClientClipboard → S → ClipboardId → ℕ → Chunk → ClientClipboard × S
      unfolding data_in on_received
      on_data c s id seq chunk =
          let got = data_in decode c.inbound id seq chunk in
          if not (c.options.clipboard_sharing || c.options.clipboard_files)
          then (c, s)
          else on_received (record c { inbound = got.0 }) s seq (got.1)

      unfoldable pub set_options : ClientClipboard → S → Options → ClientClipboard
      unfolding prime Sync.prime_files
      set_options c s options =
          let c' : ClientClipboard = record c { options = options } in
          let c'' =
            if options.clipboard_sharing && not c.options.clipboard_sharing
            then prime c' s
            else c' in
          if options.clipboard_files && not c.options.clipboard_files
          then on_sync (λ i. primed_files i s) c''
          else c''
