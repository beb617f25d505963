-- ===== src/Client/Inject/Keys.antt =====
-- crates/geserdesk-client/src/inject.rs, which key of the system a key event presses (`key_for`, `named_key`, `resolve`).
-- The arms of the match are tables; they name each code once.
use geser_desk.Prelude.{
  ℕ, ◌+◌, ◌-◌, Bool, true, false, not, ◌&&◌, leb, ◌==◌, if◌then◌else◌, List, [], ◌∷◌, Option, none,
  some, find, any,
}
use Prim.Native.Char.{Char}
use geser_desk.Input.{KeyEvent}
use geser_desk.Keys.{Perform}
use geser_desk.Consumer as c
use geser_desk.Consumer.{is_extra}

-- The keys of the injection library that the code names; `f n` is `F1` and the rest.
pub data Key : Type 0 where
  unicode : Char → Key
  other : ℕ → Key
  f : ℕ → Key
  alt apps backspace caps_lock delete down_arrow end escape home insert l_control l_shift : Key
  left_arrow media_next_track media_play_pause media_prev_track media_stop meta numlock : Key
  page_down page_up pause print_scr r_control r_shift return right_arrow space tab : Key
  up_arrow volume_down volume_mute volume_up : Key

-- The systems that the `cfg` attributes tell apart.
pub data System : Type 0 where
  windows linux macos : System

-- The arms of every system.
abbrev named_keys : List (ℕ × Key)
named_keys =
    (0x28, return)
    ∷ (0x58, return)
    ∷ (0x29, escape)
    ∷ (0x2A, backspace)
    ∷ (0x2B, tab)
    ∷ (0x2C, space)
    ∷ (0x39, caps_lock)
    ∷ (0x46, print_scr)
    ∷ (0x48, pause)
    ∷ (0x49, insert)
    ∷ (0x4A, home)
    ∷ (0x4B, page_up)
    ∷ (0x4C, delete)
    ∷ (0x4D, end)
    ∷ (0x4E, page_down)
    ∷ (0x4F, right_arrow)
    ∷ (0x50, left_arrow)
    ∷ (0x51, down_arrow)
    ∷ (0x52, up_arrow)
    ∷ (0x53, numlock)
    ∷ (0xE0, l_control)
    ∷ (0xE1, l_shift)
    ∷ (0xE2, alt)
    ∷ (0xE6, alt)
    ∷ (0xE3, meta)
    ∷ (0xE7, meta)
    ∷ (0xE4, r_control)
    ∷ (0xE5, r_shift)
    ∷ (c.mute, volume_mute)
    ∷ (c.volume_down, volume_down)
    ∷ (c.volume_up, volume_up)
    ∷ (c.play_pause, media_play_pause)
    ∷ (c.next_track, media_next_track)
    ∷ (c.previous_track, media_prev_track)
    ∷ (c.stop, media_stop)
    ∷ []

-- The arms with `cfg(windows)`.
abbrev windows_keys : List (ℕ × Key)
windows_keys =
    (0x54, other 0x6F)
    ∷ (0x55, other 0x6A)
    ∷ (0x56, other 0x6D)
    ∷ (0x57, other 0x6B)
    ∷ (0x62, other 0x60)
    ∷ (0x63, other 0x6E)
    ∷ (0x47, other 0x91)
    ∷ (0x65, apps)
    ∷ (c.mail, other 0xB4)
    ∷ (c.explorer, other 0xB6)
    ∷ (c.calculator, other 0xB7)
    ∷ (c.browser_back, other 0xA6)
    ∷ (c.browser_forward, other 0xA7)
    ∷ (c.browser_refresh, other 0xA8)
    ∷ (c.browser_stop, other 0xA9)
    ∷ (c.browser_search, other 0xAA)
    ∷ (c.browser_favorites, other 0xAB)
    ∷ (c.browser_home, other 0xAC)
    ∷ []

-- The arms with `cfg(all(unix, not(target_os = "macos")))`.
abbrev linux_keys : List (ℕ × Key)
linux_keys =
    (c.brightness_up, other 0x1008FF02)
    ∷ (c.brightness_down, other 0x1008FF03)
    ∷ (c.mic_mute, other 0x1008FFB2)
    ∷ (c.mail, other 0x1008FF19)
    ∷ (c.calculator, other 0x1008FF1D)
    ∷ (c.explorer, other 0x1008FF5D)
    ∷ (c.browser, other 0x1008FF2E)
    ∷ (c.browser_search, other 0x1008FF1B)
    ∷ (c.browser_home, other 0x1008FF18)
    ∷ (c.browser_back, other 0x1008FF26)
    ∷ (c.browser_forward, other 0x1008FF27)
    ∷ (c.browser_stop, other 0x1008FF28)
    ∷ (c.browser_refresh, other 0x1008FF29)
    ∷ (c.browser_favorites, other 0x1008FF30)
    ∷ []

abbrev found : Option (ℕ × Key) → Option Key
found none = none
found (some e) = some (e.1)

abbrev own_keys : System → List (ℕ × Key)
own_keys windows = windows_keys
own_keys linux = linux_keys
own_keys macos = []

abbrev or_else : Option Key → Option Key → Option Key
or_else none k = k
or_else (some j) k = some j

abbrev numpad : System → ℕ → Option Key
numpad windows hid =
    if leb 0x59 hid && leb hid 0x61 then some (other (0x61 + (hid - 0x59))) else none
numpad linux hid = none
numpad macos hid = none

abbrev function_key : ℕ → Option Key
function_key hid =
    if leb 0x3A hid && leb hid 0x45
    then some (f (1 + (hid - 0x3A)))
    else if leb 0x68 hid && leb hid 0x6F
    then some (f (13 + (hid - 0x68)))
    else none

unfoldable pub named_key : System → ℕ → Option Key
unfolding find
named_key system hid = or_else (found (find (λ e. e.0 == hid) named_keys)) (
    or_else (found (find (λ e. e.0 == hid) (own_keys system)))
      (or_else (numpad system hid) (function_key hid)))

abbrev of_char : Option Char → Option Key
of_char none = none
of_char (some c) = some (unicode c)

unfoldable pub key_for : System → KeyEvent → Option Key
unfolding named_key
key_for system ev = or_else (named_key system ev.hid) (of_char ev.ch)

pub data Resolved : Type 0 where
  key : ℕ → Resolved
  ignored : Resolved
  keysym : ℕ → Resolved
  virtual_key : ℕ → Resolved

-- The set-up of keys.toml: each code once.
abbrev pub SetUp : Type 0
SetUp = List (ℕ × Perform)

abbrev pub done_by : ℕ → Option (ℕ × Perform) → Resolved
done_by hid none = key hid
done_by hid (some (at, Perform.ignore)) = ignored
done_by hid (some (at, Perform.keysym v)) = keysym v
done_by hid (some (at, Perform.virtual_key v)) = virtual_key v
done_by hid (some (at, Perform.act another)) = key another

unfoldable pub resolve : SetUp → ℕ → Resolved
unfolding is_extra find
resolve perform hid =
    if not (is_extra hid) then key hid else done_by hid (find (λ e. e.0 == hid) perform)

unfoldable pub has_built_in : System → ℕ → Bool
unfolding any
has_built_in windows hid =
    not (any (λ h. h == hid) (c.brightness_up ∷ c.brightness_down ∷ c.mic_mute ∷ c.browser ∷ []))
has_built_in linux hid = true
has_built_in macos hid = false
