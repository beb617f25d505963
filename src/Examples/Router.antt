-- ===== src/Examples/Router.antt =====
-- router.rs at a concrete desk: this machine, and `win` to the right of it.
use geser_desk.Prelude.{
  pos, negsuc, true, false, List, [], ◌∷◌, some, none, arith, ◌≡◌, refl, ◌>>=◌, find, any, keep,
  has_key, lookup, insert, remove, keys, sort, add_i32, sub_i32, wrap_i32, ◌+ℤ◌, ◌-ℤ◌, ◌*ℤ◌, max_ℤ,
  min_ℤ, clamp_ℤ, half_i32,
}
use geser_desk.Geometry.{Rect, point, rect, contains, clamp, center, union_all}
use geser_desk.Layout.{neighbor}
use geser_desk.Desk.{frame_new, to_desk, to_local, nearest_point}
use geser_desk.Desk.Origins.{effective_origins, follow, listed, visit, place, row}
use geser_desk.Switch
use geser_desk.Switch.{evaluate}
use geser_desk.Input.{empty_mods}
use geser_desk.Message.{ServerMsg, CaptureEvent, CaptureCmd}
use geser_desk.Router.{
  Core, State, Action, send, capture, refresh_origins, frame, locate, local_center,
}
use geser_desk.Router.Moves.{enter}
use geser_desk.Router.Pointer.{
  on_pointer, push_edge, first_hit, across, at_edge, step, near_corner, decide,
}
use geser_desk.Router.Handlers
use geser_desk.Router.Handlers.{handle, client_connected, client_disconnected}
use geser_desk.Router.Session.{replay, session_of}
use geser_desk.Router.Departure.{IsWithout, client_disconnected_lem}
use geser_desk.Router.Protocol.{before, handle-Follows}
use geser_desk.Router.Safety.{IsReady}
use geser_desk.Router.Returns.{handle_returns}
use geser_desk.Examples.Rationals.{rationals}
use geser_desk.Examples.Geometry.{full_hd, two_screens}

abbrev big : Rect
big = rect (pos 0) (pos 0) (pos 2560) (pos 1440)

-- As `new` and `client_connected` make it.
abbrev pub idle : Core
idle = record {
  layout = two_screens;
  policy = record {
    delay_ms = 0;
    double_tap_ms = 0;
    corner_size = pos 0;
    jump_zone = pos 1;
    scroll_lock_locks = true;
  };
  local = "linux-pc";
  local_monitors = full_hd ∷ [];
  positions = ("linux-pc", point (pos 0) (pos 0)) ∷ ("win", point (pos 1920) (pos 0)) ∷ [];
  sizes = [];
  origins = ("linux-pc", point (pos 0) (pos 0)) ∷ ("win", point (pos 1920) (pos 0)) ∷ [];
  connected = ("win", big ∷ []) ∷ [];
  state = State.local;
  last_local_monitor = none;
  switch = record { locked = false; dwell = none; last_tap = none };
  seq = 0;
  key_rules = [];
  fired = [];
}

-- `win` has the input, after a push through the right edge.
abbrev pub away : Core
away = record idle {
  state = State.remote "win" (point (pos 0) (pos 540));
  last_local_monitor = some full_hd;
  seq = 1;
}

-- The constructor and a connection give `idle`.
made :
    (Handlers.new two_screens idle.policy "linux-pc" (full_hd ∷ []) idle.positions >>= λ c.
    client_connected c "win" (big ∷ []))
    ≡ some idle
unfolding Handlers.new client_connected refresh_origins effective_origins follow keep has_key listed
    any visit place neighbor row insert Switch.new
made = refl

-- Pushing the right edge grabs the devices and enters `win` at the same height.
pushed :
    handle rationals idle (CaptureEvent.pointer (point (pos 1919) (pos 540))) 0
    ≡ some (
      away,
      capture CaptureCmd.grab ∷ send "win" (ServerMsg.enter (pos 0) (pos 540) 1 empty_mods) ∷ [],
    )
unfolding handle on_pointer find contains add_i32 sub_i32 wrap_i32 ◌+ℤ◌ ◌-ℤ◌ ◌*ℤ◌ max_ℤ min_ℤ
    push_edge first_hit across at_edge step any locate sort keys frame frame_new union_all to_desk
    to_local near_corner evaluate decide enter Switch.switched has_key lookup insert
pushed = refl

idle-IsReady : IsReady idle
idle-IsReady = omega arith

pub away-IsReady : IsReady away
away-IsReady = omega arith

handle_returns_example :
    (r : Core × List Action) × (handle rationals away (CaptureEvent.motion (negsuc 49) (pos 0)) 7
      ≡ some r)
    × IsReady r.0
handle_returns_example =
    handle_returns rationals away (CaptureEvent.motion (negsuc 49) (pos 0)) 7 away-IsReady

handle-Follows_example :
    replay
      (before idle (CaptureEvent.pointer (point (pos 1919) (pos 540))))
      (capture CaptureCmd.grab ∷ send "win" (ServerMsg.enter (pos 0) (pos 540) 1 empty_mods) ∷ [])
    ≡ some (session_of away)
handle-Follows_example =
    handle-Follows rationals idle (CaptureEvent.pointer (point (pos 1919) (pos 540))) 0 away _
      pushed

-- The machine with the input goes away.
abbrev home_again : Core
home_again = record away { connected = []; state = State.local }

lost :
    client_disconnected away "win"
    ≡ some (home_again, capture (CaptureCmd.ungrab (point (pos 960) (pos 540))) ∷ [])
unfolding client_disconnected refresh_origins effective_origins follow keep has_key listed any visit
    place neighbor row remove local_center center half_i32 nearest_point clamp clamp_ℤ add_i32
    sub_i32 wrap_i32 ◌+ℤ◌ ◌-ℤ◌ Switch.switched
lost = refl

client_disconnected_lem_example :
    (r : Core × List Action) × (client_disconnected away "win" ≡ some r) × IsWithout away "win" r
client_disconnected_lem_example = client_disconnected_lem away "win" away-IsReady
