-- ===== src/Router/Handlers.antt =====
-- router.rs: `new`, what happens to the desk and to its machines, and `handle`.
use geser_desk.Prelude.{
  ℕ, String, Bool, true, false, List, [], ◌∷◌, Option, none, some, ◌&&◌, ◌||◌, ◌>>=◌, if◌then◌else◌,
  is_empty, ◌is◌, Map, insert, remove,
}
use geser_desk.Geometry.{Point, Size, Rect, rect_eq}
use geser_desk.Layout
use geser_desk.Layout.{Layout}
use geser_desk.Switch
use geser_desk.Switch.{SwitchPolicy, switched}
use geser_desk.Input
use geser_desk.Keys.{Rule}
use geser_desk.Floats.{Floats}
use geser_desk.Message.{ServerMsg, CaptureEvent, CaptureCmd}
use geser_desk.Router.{Core, State, Action, capture, refresh_origins, local_center, still_there}
use geser_desk.Router.Moves.{forward}
use geser_desk.Router.Pointer.{on_pointer}
use geser_desk.Router.Hotkey.{on_hotkey, on_grab_failed}
use geser_desk.Router.Motion.{on_motion}
use geser_desk.Router.KeyInput.{on_key}

unfoldable pub new : Layout → SwitchPolicy → String → List Rect → Map Point → Option Core
new layout policy local local_monitors positions = refresh_origins (record {
  layout = layout;
  policy = policy;
  local = local;
  local_monitors = local_monitors;
  positions = positions;
  sizes = [];
  origins = [];
  connected = [];
  state = State.local;
  last_local_monitor = none;
  switch = Switch.new;
  seq = 0;
  key_rules = [];
  fired = [];
})

unfoldable pub with_key_rules : Core → List Rule → Core
with_key_rules c rules = record c { key_rules = rules }

unfoldable pub with_sizes : Core → Map Size → Option Core
with_sizes c sizes = refresh_origins (record c { sizes = sizes })

unfoldable pub client_connected : Core → String → List Rect → Option Core
client_connected c name monitors =
    refresh_origins (record c { connected = insert name monitors c.connected })

unfoldable pub add_screen : Core → String → Option Core
add_screen c name =
    let (layout, added) = Layout.add_screen c.layout name in
    if added then refresh_origins (record c { layout = layout }) else some c

-- `==` on lists of monitors.
unfoldable pub monitors_eq : List Rect → List Rect → Bool
monitors_eq [] [] = true
monitors_eq [] (n ∷ ns) = false
monitors_eq (m ∷ ms) [] = false
monitors_eq (m ∷ ms) (n ∷ ns) = rect_eq m n && monitors_eq ms ns

unfoldable pub set_local_monitors : Core → List Rect → Option Core
unfolding monitors_eq
set_local_monitors c monitors =
    if is_empty monitors || monitors_eq monitors c.local_monitors
    then some c
    else refresh_origins (record c {
      local_monitors = monitors;
      last_local_monitor = still_there monitors c.last_local_monitor;
    })

unfoldable pub set_positions : Core → Map Point → Option Core
set_positions c positions = refresh_origins (record c { positions = positions })

unfoldable pub set_sizes : Core → Map Size → Option Core
set_sizes c sizes = refresh_origins (record c { sizes = sizes })

-- The screen that went away had the input.
unfoldable pub take_back : Core → Option (Core × List Action)
take_back c = do
  let c' = record c { state = State.local; switch = switched c.switch }
  back ← local_center c'
  some (c', capture (CaptureCmd.ungrab back) ∷ [])

unfoldable pub gone : Core → String → State → Option (Core × List Action)
unfolding take_back
gone c name State.local = some (c, [])
gone c name (State.remote screen at) = if screen is name then take_back c else some (c, [])

unfoldable pub client_disconnected : Core → String → Option (Core × List Action)
unfolding gone
client_disconnected c name = do
  c' ← refresh_origins (record c { connected = remove name c.connected })
  gone c' name c'.state

module _ (fl : Floats) where
  unfoldable pub handle : Core → CaptureEvent → ℕ → Option (Core × List Action)
  handle c (CaptureEvent.pointer p) now = some (on_pointer fl c p now)
  handle c CaptureEvent.hotkey now = on_hotkey fl c
  handle c CaptureEvent.grab_failed now = some (on_grab_failed c)
  handle c (CaptureEvent.motion dx dy) now = on_motion fl c dx dy
  handle c (CaptureEvent.button b down) now =
      some (c, forward c (ServerMsg.mouse (Input.MouseEvent.button b down)))
  handle c (CaptureEvent.wheel dx dy) now =
      some (c, forward c (ServerMsg.mouse (Input.MouseEvent.wheel dx dy)))
  handle c (CaptureEvent.key k) now = some (on_key c k)
