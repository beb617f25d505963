-- ===== src/Message.antt =====
-- crates/geserdesk-proto/src/message.rs: what a client and the server say to one another; and
-- crates/geserdesk-platform/src/lib.rs: what passes between the server and its capture backend.
use geser_desk.Prelude.{ℕ, ℤ, Bool, String, List}
use geser_desk.Geometry.{Point, ScreenInfo}
use geser_desk.Input.{ModMask, KeyEvent, Button, MouseEvent}
use geser_desk.Version.{Version}
use geser_desk.Chunks.{ClipboardId, Chunk}

pub data FileReadError : Type 0 where
  not_found changed denied superseded : FileReadError

pub data FileReadResult : Type 0 where
  bytes : List ℕ → FileReadResult
  err : FileReadError → FileReadResult

pub data CloseReason : Type 0 where
  server_shutdown timeout protocol_error reconfigured : CloseReason

pub record Options : Type 0 where
  pub clipboard_sharing : Bool
  pub clipboard_max_bytes : ℕ
  pub scroll_lock_locks : Bool
  pub screensaver_sync : Bool
  pub relative_mouse_moves : Bool
  pub clipboard_files : Bool
  pub clipboard_files_max_bytes : ℕ

-- `FileRead { seq, req, index, offset, len }`; `welcome` has its interval in milliseconds.
pub data ClientMsg : Type 0 where
  hello : Version → ScreenInfo → ClientMsg
  screen_changed : ScreenInfo → ClientMsg
  clipboard_grab : ClipboardId → ℕ → ClientMsg
  clipboard_data : ClipboardId → ℕ → Chunk → ClientMsg
  file_read : ℕ → ℕ → ℕ → ℕ → ℕ → ClientMsg
  file_reply : ℕ → FileReadResult → ClientMsg
  keep_alive : ClientMsg

pub data ServerMsg : Type 0 where
  welcome : Version → ℕ → ServerMsg
  incompatible : Version → ServerMsg
  rejected : String → ServerMsg
  enter : ℤ → ℤ → ℕ → ModMask → ServerMsg
  leave : ServerMsg
  key : KeyEvent → ServerMsg
  mouse : MouseEvent → ServerMsg
  clipboard_grab : ClipboardId → ℕ → ServerMsg
  clipboard_data : ClipboardId → ℕ → Chunk → ServerMsg
  file_read : ℕ → ℕ → ℕ → ℕ → ℕ → ServerMsg
  file_reply : ℕ → FileReadResult → ServerMsg
  set_options : Options → ServerMsg
  close : CloseReason → ServerMsg
  keep_alive : ServerMsg

-- What the capture backend observed, and what it is told.
pub data CaptureEvent : Type 0 where
  pointer : Point → CaptureEvent
  motion : ℤ → ℤ → CaptureEvent
  button : Button → Bool → CaptureEvent
  wheel : ℤ → ℤ → CaptureEvent
  key : KeyEvent → CaptureEvent
  hotkey : CaptureEvent
  grab_failed : CaptureEvent

pub data CaptureCmd : Type 0 where
  grab : CaptureCmd
  ungrab : Point → CaptureCmd
