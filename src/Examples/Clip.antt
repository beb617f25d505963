-- ===== src/Examples/Clip.antt =====
-- Frames, the injected keys, the polls of a clipboard, and the files of a client, at concrete inputs.
use geser_desk.Prelude.{
  ℕ, ◌≤◌, ◌↔◌, Bool, true, false, List, [], ◌∷◌, Option, none, some, arith, ◌≡◌, refl, sym, length,
  map, pos, negsuc, wrap_i32,
}
use geser_desk.Codec.{got, message, send}
use geser_desk.Codec.Framing.{recv_each, recv_each-send_all}
use geser_desk.Input.{KeyEvent, KeyAction, mask, MouseEvent}
use geser_desk.Input
use geser_desk.Chunks.{Chunk, clipboard, stream}
use geser_desk.Message.{Options}
use geser_desk.Content.{ClipboardContent, data_len, holds_nothing}
use geser_desk.Files.{FilePath, FileManifest}
use geser_desk.Files.Owner.{Current}
use geser_desk.Client.Inject.Keys.{Key, windows}
use geser_desk.Monitors.{abs_i32}
use geser_desk.Client.Inject.{notches, Layout, SystemButton, new, leave}
use geser_desk.Client.Inject.Held.{KeyDown, ButtonDown}
use geser_desk.Client.Inject.Release.{Event, keyed, moused, happen, leave-KeyDown}
use geser_desk.Consumer.{from_name, name, name-from_name}
use geser_desk.Sync as Sync
use geser_desk.Sync.{Got, Clipboard, Inner, fit, effective_max, effective_files_max}
use geser_desk.Sync.Echo.{reports, reports_once, reports-apply}
use geser_desk.Sync.Fit.{fit_bounds}
use geser_desk.Client.Clip as Clip
use geser_desk.Client.Clip.{ClientClipboard, grab, push_of}
use geser_desk.Client.Clip.Echo.{on_data-changed}
use geser_desk.Client.Clip.Feed.{Serves, feed}
use geser_desk.Content
use geser_desk.Client.Clip.Events as Events
use geser_desk.Client.Clip.Served as Served
use geser_desk.Examples.Files.{a_copy, abs_paths}

-- Two messages, cut into three reads that do not fall between them.
recv_each-send_all_example :
    recv_each
      (List ℕ)
      some
      some
      2
      100
      []
      (got (2 ∷ 0 ∷ 0 ∷ []) ∷ got (0 ∷ 7 ∷ 8 ∷ 1 ∷ []) ∷ got (0 ∷ 0 ∷ 0 ∷ 9 ∷ []) ∷ [])
    ≡ message (7 ∷ 8 ∷ []) ∷ message (9 ∷ []) ∷ []
unfolding send
recv_each-send_all_example =
    recv_each-send_all (List ℕ) some some 100 ((7 ∷ 8 ∷ []) ∷ (9 ∷ []) ∷ []) []
      (got (2 ∷ 0 ∷ 0 ∷ []) ∷ got (0 ∷ 7 ∷ 8 ∷ 1 ∷ []) ∷ got (0 ∷ 0 ∷ 0 ∷ 9 ∷ []) ∷ [])
      (2 ∷ 0 ∷ 0 ∷ 0 ∷ 7 ∷ 8 ∷ 1 ∷ 0 ∷ 0 ∷ 0 ∷ 9 ∷ []) (λ msg p e. sym e) (omega arith) refl tt refl

abbrev plain : Layout
plain = record { shifted_vk = λ ch. none; text_only = λ ch. false }

-- Enter and the left button go down, and nothing comes up.
abbrev presses : List Event
presses =
    keyed (record { hid = 0x28; ch = none; mods = mask 0; action = KeyAction.down })
    ∷ moused (MouseEvent.button Input.left true)
    ∷ []

leave-KeyDown_example :
    let s = leave (happen windows plain (λ a. true) new presses) in
    ((k : Key) → ¬ KeyDown k s.acts) × ((b : SystemButton) → ¬ ButtonDown b s.acts)
leave-KeyDown_example = leave-KeyDown windows plain (λ a. true) presses

name-from_name_example : (from_name "mute" ≡ some 0x0CE2) ↔ (name 0x0CE2 ≡ some "mute")
name-from_name_example = name-from_name "mute" 0x0CE2

abbrev words : ClipboardContent
words = record { items = record { mime = "text/plain"; data_bytes = b'a' ∷ b'b' ∷ [] } ∷ [] }

abbrev all_utf8 : List ℕ → Bool
all_utf8 bs = true

abbrev no_files : List ℕ → Option FileManifest
no_files bs = none

-- A clipboard that is its contents, without a count of changes.
abbrev memory : Clipboard ClipboardContent
memory = record {
  get = λ s. Got.got s;
  set = λ s c. (c, true);
  file_list = λ s. Got.nothing;
  set_file_list = λ s paths. (s, false);
  change_count = λ s. none;
}

abbrev by_size : ClipboardContent → ℕ
by_size c = data_len c

abbrev by_number : List FilePath → ℕ
by_number paths = length paths

reports_once_example :
    length (reports all_utf8 no_files by_size by_number memory Sync.new (words ∷ words ∷ []) 100)
    ≤ 1
reports_once_example =
    reports_once all_utf8 no_files by_size by_number memory Sync.new (Got.got words)
      (words ∷ words ∷ []) 100 (refl, (refl, tt))

reports-apply_example :
    reports all_utf8 no_files by_size by_number memory
      ((Sync.apply all_utf8 no_files by_size by_number memory Sync.new
        (record { items = [] })
        words).0)
      (words ∷ words ∷ [])
      100
    ≡ []
unfolding Sync.apply
reports-apply_example =
    reports-apply all_utf8 no_files by_size by_number memory Sync.new (record { items = [] }) words
      (words ∷ words ∷ []) 100 refl (refl, (refl, tt))

fit_bounds_example :
    ((f : ClipboardContent)
      → fit all_utf8 no_files words 10 ≡ some f
      → (data_len f ≤ 10) × (holds_nothing all_utf8 no_files f ≡ false))
    × (data_len words ≤ 10
        → holds_nothing all_utf8 no_files words ≡ false
        → fit all_utf8 no_files words 10 ≡ some words)
fit_bounds_example = fit_bounds all_utf8 no_files words 10

-- A machine on which a copy of files was made.
abbrev with_files : Clipboard ClipboardContent
with_files = record memory { file_list = λ s. Got.got abs_paths }

abbrev collects : List FilePath → ℕ → Option (FileManifest × List FilePath)
collects roots max = some (a_copy, roots)

abbrev reads_copy : List ℕ → Option FileManifest
reads_copy bs = some a_copy

abbrev manifest_words : ClipboardContent
manifest_words = record {
  items = record { mime = "application/x-geserdesk-files"; data_bytes = 1 ∷ [] } ∷ [];
}

abbrev shares_files : Options
shares_files = record {
  clipboard_sharing = true;
  clipboard_max_bytes = 0;
  scroll_lock_locks = false;
  screensaver_sync = false;
  relative_mouse_moves = false;
  clipboard_files = true;
  clipboard_files_max_bytes = 0;
}

-- It pushes them, and the echo comes back.
abbrev echo : List (
    Events.Event collects
      (λ c. 1 ∷ [])
      all_utf8
      reads_copy
      (λ m. 1 ∷ [])
      (λ bs. some manifest_words)
      by_size
      by_number
      with_files)
echo =
    Events.ticks words
    ∷ Events.grabs clipboard 9
    ∷ Events.data_comes words clipboard 9 (Chunk.start 1)
    ∷ Events.data_comes words clipboard 9 (Chunk.bytes (1 ∷ []))
    ∷ Events.data_comes words clipboard 9 Chunk.end
    ∷ []

abbrev served : Current
served = record { seq = 9; manifest = a_copy; abs_paths = abs_paths }

-- A client on which the copy was made, before it has pushed it.
abbrev unpushed : ClientClipboard
unpushed = Clip.new (some Sync.new) shares_files

on_data-changed_example :
    let pushed =
      Clip.changed
        (λ c. 1 ∷ [])
        all_utf8
        reads_copy
        (λ m. 1 ∷ [])
        (λ bs. some manifest_words)
        collects
        by_size
        by_number
        with_files
        unpushed
        words in
    (pushed.1 ≡ push_of (λ c. 1 ∷ []) 1 manifest_words)
    × Serves
        (feed
          (λ c. 1 ∷ [])
          all_utf8
          reads_copy
          (λ m. 1 ∷ [])
          (λ bs. some manifest_words)
          collects
          by_size
          by_number
          with_files
          (grab (pushed.0) clipboard 9, words)
          9
          (stream (1 ∷ [])))
        words
        9
        a_copy
        abs_paths
unfolding Clip.new Sync.new Sync.poll_files effective_files_max Content.with_files effective_max
on_data-changed_example =
    on_data-changed (λ c. 1 ∷ []) all_utf8 reads_copy (λ m. 1 ∷ []) (λ bs. some manifest_words)
      collects by_size by_number with_files unpushed Sync.new words words abs_paths a_copy abs_paths
      9 refl refl refl refl refl refl refl refl (omega arith) (omega arith)

-- The wheel of a client, in notches: away from zero, and the absolute value of the least i32 wraps around.
some_notches :
    map notches (pos 1 ∷ pos 360 ∷ negsuc 239 ∷ negsuc 2147483647 ∷ [])
    ≡ pos 1 ∷ pos 3 ∷ negsuc 1 ∷ negsuc 0 ∷ []
unfolding notches abs_i32 wrap_i32
some_notches = refl
