-- ===== src/Client/Inject.antt =====
-- crates/geserdesk-client/src/inject.rs: what a client presses and releases on its own system. The parameters are
-- what the system's layout says of a character, and which requests the injection library turns down. The requests
-- are listed, the newest first; the pointer's moves stand for what the system makes of them.
pub mod Keys
pub mod Held
pub mod Release
use geser_desk.Prelude.{
  ℕ, suc, ◌+◌, ◌-◌, ◌/◌, ℤ, pos, negsuc, Bool, true, false, not, ◌&&◌, ◌||◌, ltb, min, ◌==◌,
  if◌then◌else◌, List, [], ◌∷◌, ◌++◌, Option, none, some, map, keep, sub_i32, ltb_ℤ,
}
use Prim.Native.Char.{Char}
use geser_desk.Geometry.{Point}
use geser_desk.Monitors.{abs_i32}
use geser_desk.Input.{KeyAction, KeyEvent, Button, MouseEvent}
use geser_desk.Client.Inject.Keys as K
use geser_desk.Client.Inject.Keys.{
  Key, System, windows, linux, macos, SetUp, Resolved, key_for, resolve,
}

-- The buttons of the injection library.
pub data SystemButton : Type 0 where
  left middle right back forward : SystemButton

pub data Axis : Type 0 where
  horizontal vertical : Axis

pub data Act : Type 0 where
  press release click : Key → Act
  button_press button_release : SystemButton → Act
  move_abs move_rel : ℤ → ℤ → Act
  scroll : ℤ → Axis → Act

pub record Layout : Type 0 where
  pub shifted_vk : Char → Option ℕ
  pub text_only : Char → Bool

pub record EnigoSink : Type 0 where
  pub acts : List Act
  pub held_keys : List (ℕ × Key)
  pub held_buttons : List ℕ
  pub perform : SetUp

unfoldable pub new : EnigoSink
new = record { acts = []; held_keys = []; held_buttons = []; perform = [] }

unfoldable pub with_perform : EnigoSink → SetUp → EnigoSink
with_perform s perform = record s { perform = perform }

-- Wheel deltas in notches of 120. `abs` of the least i32 wraps around, to itself.
unfoldable pub notches : ℤ → ℤ
unfolding abs_i32
notches (pos n) = if n == 0 then pos 0 else if ltb n 120 then pos 1 else pos (n / 120)
notches (negsuc n) =
    if ltb_ℤ (abs_i32 (negsuc n)) (pos 120) then negsuc 0 else negsuc (suc n / 120 - 1)

abbrev pub map_button : Button → SystemButton
map_button Button.left = left
map_button Button.middle = middle
map_button Button.right = right
map_button Button.back = back
map_button Button.forward = forward
map_button (Button.extra n) = left

-- A u8, and `saturating_add` on it.
abbrev pub encode_button : Button → ℕ
encode_button Button.left = 0
encode_button Button.middle = 1
encode_button Button.right = 2
encode_button Button.back = 3
encode_button Button.forward = 4
encode_button (Button.extra n) = min (10 + n) 255

unfoldable pub decode_button : ℕ → Button
decode_button code =
    if code == 0
    then Button.left
    else if code == 1
    then Button.middle
    else if code == 2
    then Button.right
    else if code == 3
    then Button.back
    else if code == 4
    then Button.forward
    else Button.extra (code - 10)

abbrev pub inject : EnigoSink → Act → EnigoSink
inject s a = record s { acts = a ∷ s.acts }

unfoldable pub enter : EnigoSink → Point → EnigoSink
enter s at = inject s (move_abs at.x at.y)

-- Every key and button that is held, released.
unfoldable pub leave : EnigoSink → EnigoSink
leave s = record s {
  acts =
      map (λ code. button_release (map_button (decode_button code))) s.held_buttons
      ++ (map (λ h. release (h.1)) s.held_keys ++ s.acts);
  held_keys = [];
  held_buttons = [];
}

unfoldable pub held_at : ℕ → List (ℕ × Key) → Option Key
held_at hid [] = none
held_at hid ((at, k) ∷ rest) = if at == hid then some k else held_at hid rest

-- The first entry of a code, which is its only one.
unfoldable pub let_go : ℕ → List (ℕ × Key) → List (ℕ × Key)
let_go hid [] = []
let_go hid ((at, k) ∷ rest) =
    let later = let_go hid rest in if at == hid then rest else (at, k) ∷ later

-- A set of codes.
unfoldable pub set_put : ℕ → List ℕ → List ℕ
unfolding keep
set_put code codes = code ∷ keep (λ c. not (c == code)) codes

unfoldable pub set_remove : ℕ → List ℕ → List ℕ
unfolding keep
set_remove code codes = keep (λ c. not (c == code)) codes

-- `held_keys.entry(hid).or_insert(key)`, pressed.
unfoldable pub press_key : EnigoSink → ℕ → Key → EnigoSink
unfolding held_at
press_key s hid k = elim (held_at hid s.held_keys) [
  | none ↦ inject (record s { held_keys = (hid, k) ∷ s.held_keys }) (press k)
  | some before ↦ inject s (press before)
]

unfoldable pub release_key : EnigoSink → ℕ → EnigoSink
unfolding held_at let_go
release_key s hid = elim (held_at hid s.held_keys) [
  | none ↦ s
  | some k ↦ inject (record s { held_keys = let_go hid s.held_keys }) (release k)
]

unfoldable pub press_button : EnigoSink → Button → EnigoSink
unfolding set_put
press_button s b =
    inject (record s { held_buttons = set_put (encode_button b) s.held_buttons })
      (button_press (map_button b))

unfoldable pub release_button : EnigoSink → Button → EnigoSink
unfolding set_remove
release_button s b =
    inject (record s { held_buttons = set_remove (encode_button b) s.held_buttons })
      (button_release (map_button b))

module _ (system : System) (layout : Layout) (takes : Act → Bool) where
  abbrev or_char : Char → Option ℕ → Key
  or_char ch none = K.unicode ch
  or_char ch (some vk) = K.other vk

  abbrev is_windows : System → Bool
  is_windows windows = true
  is_windows K.linux = false
  is_windows K.macos = false

  abbrev is_linux : System → Bool
  is_linux windows = false
  is_linux K.linux = true
  is_linux K.macos = false

  unfoldable pub os_key : Key → Key
  os_key (K.unicode ch) =
      if is_windows system then or_char ch (layout.shifted_vk ch) else K.unicode ch
  os_key k = k

  -- A character with no key on the layout, on Windows.
  abbrev pub typed_whole : Key → Bool
  typed_whole (K.unicode ch) = is_windows system && layout.text_only ch
  typed_whole _ = false

  -- `none` where the code warns and returns.
  abbrev pub key_of : KeyEvent → Resolved → Option Key
  key_of ev (Resolved.key hid) = key_for system (record ev { hid = hid })
  key_of ev Resolved.ignored = none
  key_of ev (Resolved.keysym v) = if is_linux system then some (K.other v) else none
  key_of ev (Resolved.virtual_key v) = if is_windows system then some (K.other v) else none

  unfoldable pub key_down : EnigoSink → KeyEvent → EnigoSink
  unfolding resolve key_for os_key press_key
  key_down s ev = elim (key_of ev (resolve s.perform ev.hid)) [
    | none ↦ s
    | some k ↦
        let k' = os_key k in if typed_whole k' then inject s (click k') else press_key s ev.hid k'
  ]

  unfoldable pub key_on : EnigoSink → KeyEvent → KeyAction → EnigoSink
  unfolding key_down release_key
  key_on s ev KeyAction.down = key_down s ev
  key_on s ev (KeyAction.repeats n) = key_down s ev
  key_on s ev KeyAction.up = release_key s ev.hid

  unfoldable pub key : EnigoSink → KeyEvent → EnigoSink
  unfolding key_on
  key s ev = key_on s ev ev.action

  abbrev pub is_zero : ℤ → Bool
  is_zero (pos n) = n == 0
  is_zero (negsuc n) = false

  unfoldable pub wheel : EnigoSink → ℤ → ℤ → EnigoSink
  unfolding notches sub_i32
  wheel s dx dy =
      let across = scroll (notches dx) horizontal in
      let s' = if is_zero dx then s else inject s across in
      if not (is_zero dy) && (is_zero dx || takes across)
      then inject s' (scroll (sub_i32 (pos 0) (notches dy)) vertical)
      else s'

  unfoldable pub mouse : EnigoSink → MouseEvent → EnigoSink
  unfolding press_button release_button wheel
  mouse s (MouseEvent.move_abs x y) = inject s (move_abs x y)
  mouse s (MouseEvent.move_rel dx dy) = inject s (move_rel dx dy)
  mouse s (MouseEvent.button b true) = press_button s b
  mouse s (MouseEvent.button b false) = release_button s b
  mouse s (MouseEvent.wheel dx dy) = wheel s dx dy
