-- ===== src/Client/Clip/Events.antt =====
-- What happens to the clipboard of a connection of a client (net.rs, `ClientClipboard`).
use geser_desk.Prelude.{ℕ, Bool, List, [], ◌∷◌, Option, ◌≡◌}
use geser_desk.Message.{Options, ClientMsg}
use geser_desk.Chunks.{ClipboardId, Chunk}
use geser_desk.Content.{ClipboardContent}
use geser_desk.Files.{FilePath, FileManifest}
use geser_desk.Sync.{Got, Clipboard}
use geser_desk.Client.Clip.{ClientClipboard, grab, pull_on_enter, on_data, changed, set_options}

module _ (collect : List FilePath → ℕ → Option (FileManifest × List FilePath)) where
  module _ (encode : ClipboardContent → List ℕ) (is_utf8 : List ℕ → Bool)
      (reads_files : List ℕ → Option FileManifest) (encode_files : FileManifest → List ℕ)
      (decode : List ℕ → Option ClipboardContent) where
    module _ (fingerprint : ClipboardContent → ℕ) (fingerprint_paths : List FilePath → ℕ)
        {S : Type 0} (os : Clipboard S) where
      -- One thing that happens, each time with the state of the system's clipboard.
      pub data Event : Type 0 where
        grabs : ClipboardId → ℕ → Event
        data_comes : S → ClipboardId → ℕ → Chunk → Event
        enters : Event
        ticks : S → Event
        options_come : S → Options → Event

      abbrev changed_here : ClientClipboard → S → ClientClipboard × List ClientMsg
      changed_here =
          changed encode is_utf8 reads_files encode_files decode collect fingerprint
            fingerprint_paths os

      unfoldable pub happens : ClientClipboard → Event → ClientClipboard
      unfolding grab on_data pull_on_enter changed set_options
      happens c (grabs id seq) = grab c id seq
      happens c (data_comes s id seq chunk) =
          (on_data encode is_utf8 reads_files encode_files decode collect fingerprint
            fingerprint_paths os c s id seq chunk).0
      happens c enters = (pull_on_enter c).0
      happens c (ticks s) = (changed_here c s).0
      happens c (options_come s options) =
          set_options encode is_utf8 reads_files encode_files decode collect fingerprint
            fingerprint_paths os c s options

      unfoldable pub happen : ClientClipboard → List Event → ClientClipboard
      unfolding happens
      happen c [] = c
      happen c (ev ∷ evs) = happen (happens c ev) evs

      -- The copied files that the system's clipboard has at a tick of the poll.
      unfoldable pub Lists : Event → List FilePath → Type 0
      Lists (ticks s) roots = os.file_list s ≡ Got.got roots
      Lists (grabs id seq) roots = ⊥
      Lists (data_comes s id seq chunk) roots = ⊥
      Lists enters roots = ⊥
      Lists (options_come s options) roots = ⊥
