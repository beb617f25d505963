-- ===== src/Router.antt =====
-- crates/geserdesk-server/src/router.rs: the state of the router, and its view of the desk. The
-- handlers are in the modules below. `none` is a panic: a clamp with crossed bounds, or a missing
-- key or index.
pub mod Moves
pub mod Pointer
pub mod Hotkey
pub mod Motion
pub mod KeyInput
pub mod Handlers
pub mod Session
pub mod Protocol
pub mod Safety
pub mod Ready
pub mod Combinations
pub mod Departure
pub mod Returns
pub mod Landing
use geser_desk.Prelude.{
  ℕ, ℤ, pos, String, Bool, true, false, List, [], ◌∷◌, ◌++◌, Option, none, some, not, ◌>>=◌,
  if◌then◌else◌, ◌&&◌, any, find, head?, is_empty, length, ◌is◌, Map, lookup, keys, sort,
}
use geser_desk.Geometry.{Point, Size, Rect, point, rect_eq, center, contains, union_all}
use geser_desk.Layout.{Layout}
use geser_desk.Switch.{SwitchPolicy, SwitchState}
use geser_desk.Desk.{Frame, frame_new, to_local, to_desk, desk_size, nearest_point}
use geser_desk.Desk.Origins.{effective_origins}
use geser_desk.Keys.{Rule}
use geser_desk.Message.{ServerMsg, CaptureCmd}
use geser_desk.Floats.{Floats}

pub data Action : Type 0 where
  send : String → ServerMsg → Action
  capture : CaptureCmd → Action

pub data State : Type 0 where
  local : State
  -- the screen that has the input, and the cursor in that machine's own coordinates
  remote : String → Point → State

pub record Core : Type 0 where
  pub layout : Layout
  pub policy : SwitchPolicy
  pub local : String
  pub local_monitors : List Rect
  pub positions : Map Point
  pub sizes : Map Size
  pub origins : Map Point
  pub connected : Map (List Rect)
  pub state : State
  pub last_local_monitor : Option Rect
  pub switch : SwitchState
  -- u64
  pub seq : ℕ
  pub key_rules : List Rule
  -- the keys whose press fired a rule, and the action each stands for
  pub fired : List (ℕ × ℕ)

abbrev remote_screen : State → Option String
remote_screen State.local = none
remote_screen (State.remote screen at) = some screen

unfoldable pub active_remote : Core → Option String
active_remote c = remote_screen c.state

-- `map_or(&[], Vec::as_slice)`, and `unwrap_or((0, 0))`.
abbrev or_no_monitors : Option (List Rect) → List Rect
or_no_monitors none = []
or_no_monitors (some ms) = ms

abbrev or_zero : Option Point → Point
or_zero none = point (pos 0) (pos 0)
or_zero (some p) = p

unfoldable pub monitors_of : Core → String → List Rect
monitors_of c name =
    if name is c.local then c.local_monitors else or_no_monitors (lookup name c.connected)

unfoldable pub origin : Core → String → Point
origin c name = or_zero (lookup name c.origins)

-- As many rounds as there are screens.
unfoldable pub refresh_origins : Core → Option Core
unfolding monitors_of
refresh_origins c = do
  origins ←
      effective_origins (length c.layout.screens) c.layout.screens c.local c.layout c.positions
        (λ name. desk_size (monitors_of c name) (lookup name c.sizes))
  some (record c { origins = origins })

-- `local_monitors.contains(&m)`
abbrev pub has_monitor : List Rect → Rect → Bool
has_monitor ms m = any (λ x. rect_eq x m) ms

-- The middle of a monitor, or (0, 0).
abbrev pub centre_or_zero : Option Rect → Point
centre_or_zero none = point (pos 0) (pos 0)
centre_or_zero (some m) = center m

abbrev or_else {ℓ} : {A : Type ℓ} → Option A → Option A → Option A
or_else none other = other
or_else (some a) other = some a

-- The filter on `last_local_monitor`.
abbrev still_there : List Rect → Option Rect → Option Rect
still_there ms none = none
still_there ms (some m) = if has_monitor ms m then some m else none

-- The monitor that input returns to when nothing says where.
unfoldable pub home : Core → Option Rect
home c = or_else (still_there c.local_monitors c.last_local_monitor) (
    or_else (find (λ m. contains m (point (pos 0) (pos 0))) c.local_monitors)
      (head? c.local_monitors))

unfoldable pub snap_into : Core → String → Point → Option Point
unfolding monitors_of
snap_into c name p =
    if is_empty (monitors_of c name) then some p else nearest_point p (monitors_of c name)

unfoldable pub local_center : Core → Option Point
unfolding home snap_into
local_center c = snap_into c c.local (centre_or_zero (home c))

module _ (fl : Floats) where
  unfoldable pub frame : Core → String → Frame fl
  unfolding monitors_of origin
  frame c name = frame_new fl (origin c name) (union_all (monitors_of c name)) (lookup name c.sizes)

  -- The search of `locate` over the sorted names.
  unfoldable pub locate_in : Core → Point → String → List String → Option (String × Point)
  unfolding monitors_of frame
  locate_in c v exclude [] = none
  locate_in c v exclude (n ∷ ns) =
      let q = to_local fl (frame c n) v in
      if not (n is exclude) && any (λ m. contains m q) (monitors_of c n)
      then some (n, q)
      else locate_in c v exclude ns

  unfoldable pub locate : Core → Point → String → Option (String × Point)
  unfolding locate_in
  locate c v exclude = locate_in c v exclude (sort (keys c.connected ++ c.local ∷ []))
