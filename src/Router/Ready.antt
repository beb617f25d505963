-- ===== src/Router/Ready.antt =====
-- The moves and handlers of router.rs that cannot fail keep the router ready.
use geser_desk.Prelude.{ℕ, String, true, List, Option, none, some, ◌≡◌}
use geser_desk.Geometry.{Point, Rect}
use geser_desk.Edge.{Edge, all_edges}
use geser_desk.Switch.{Decision, evaluate}
use geser_desk.Input.{KeyEvent, KeyAction, down, up, repeats}
use geser_desk.Keys.{Rule}
use geser_desk.Floats.{Floats}
use geser_desk.Router.{Core, State, Action}
use geser_desk.Router.Moves.{enter, enter_from_remote, go_local}
use geser_desk.Router.Pointer.{in_state, on_monitor, push_edge, decide, near_corner, first_hit}
use geser_desk.Router.Hotkey.{grab_failed_in}
use geser_desk.Router.Motion.{stay}
use geser_desk.Router.KeyInput.{key_in, held_key, fresh_key, rule_for}
use geser_desk.Router.Safety.{IsReady}

-- It returns, and the router is still ready.
abbrev pub Returns : Option (Core × List Action) → Type 0
Returns o = (r : Core × List Action) × (o ≡ some r) × IsReady r.0

pub decide-IsReady :
    (fl : Floats) (c : Core) (t : String) (q : Point) (d : Decision)
    → IsReady c
    → IsReady (decide fl c t q d).0
unfolding decide enter
decide-IsReady fl c t q Decision.switch r = record {
  local_sound = r.local_sound;
  clients_sound = r.clients_sound;
  small_jump = r.small_jump;
}
decide-IsReady fl c t q Decision.wait r = r
decide-IsReady fl c t q Decision.blocked r = r

pub push_edge-IsReady :
    (fl : Floats) (c : Core) (m : Rect) (p : Point) (now : ℕ) (hit : Option (Edge × String × Point))
    → IsReady c
    → IsReady (push_edge fl c m p now hit).0
unfolding push_edge
push_edge-IsReady fl c m p now none r = record {
  local_sound = r.local_sound;
  clients_sound = r.clients_sound;
  small_jump = r.small_jump;
}
push_edge-IsReady fl c m p now (some (edge, target, q)) r =
    let (switch, decision) =
      evaluate c.switch c.policy now edge true (near_corner m p edge c.policy.corner_size) in
    decide-IsReady fl (record c { switch = switch }) target q decision
      (record {
        local_sound = r.local_sound;
        clients_sound = r.clients_sound;
        small_jump = r.small_jump;
      })

pub on_monitor-IsReady :
    (fl : Floats) (c : Core) (p : Point) (now : ℕ) (m : Option Rect)
    → IsReady c
    → IsReady (on_monitor fl c p now m).0
unfolding on_monitor
on_monitor-IsReady fl c p now none r = r
on_monitor-IsReady fl c p now (some m) r =
    let c' = record c { last_local_monitor = some m } in
    push_edge-IsReady fl c' m p now (first_hit fl c' m p all_edges) (record {
      local_sound = r.local_sound;
      clients_sound = r.clients_sound;
      small_jump = r.small_jump;
    })

pub in_state-IsReady :
    (fl : Floats) (c : Core) (p : Point) (now : ℕ) (st : State)
    → IsReady c
    → IsReady (in_state fl c p now st).0
unfolding in_state
in_state-IsReady fl c p now State.local r = on_monitor-IsReady fl c p now _ r
in_state-IsReady fl c p now (State.remote screen at) r = r

pub go_local-IsReady :
    (c : Core) (from : String) (q : Point) → IsReady c → IsReady (go_local c from q).0
unfolding go_local
go_local-IsReady c from q r = record {
  local_sound = r.local_sound;
  clients_sound = r.clients_sound;
  small_jump = r.small_jump;
}

pub enter_from_remote-IsReady :
    (c : Core) (t : String) (q : Point) → IsReady c → IsReady (enter_from_remote c t q).0
unfolding enter_from_remote
enter_from_remote-IsReady c t q r = record {
  local_sound = r.local_sound;
  clients_sound = r.clients_sound;
  small_jump = r.small_jump;
}

pub enter-IsReady : (c : Core) (t : String) (q : Point) → IsReady c → IsReady (enter c t q).0
unfolding enter
enter-IsReady c t q r = enter_from_remote-IsReady c t q r

pub stay-IsReady :
    (c : Core) (screen : String) (p : Point) → IsReady c → IsReady (stay c screen p).0
unfolding stay
stay-IsReady c screen p r = record {
  local_sound = r.local_sound;
  clients_sound = r.clients_sound;
  small_jump = r.small_jump;
}

pub grab_failed_in-IsReady : (c : Core) (st : State) → IsReady c → IsReady (grab_failed_in c st).0
unfolding grab_failed_in
grab_failed_in-IsReady c State.local r = record {
  local_sound = r.local_sound;
  clients_sound = r.clients_sound;
  small_jump = r.small_jump;
}
grab_failed_in-IsReady c (State.remote screen at) r = record {
  local_sound = r.local_sound;
  clients_sound = r.clients_sound;
  small_jump = r.small_jump;
}

pub fresh_key-IsReady :
    (c : Core) (k : KeyEvent) (o : Option Rule) → IsReady c → IsReady (fresh_key c k o).0
unfolding fresh_key
fresh_key-IsReady c k none r = r
fresh_key-IsReady c k (some rule) r = record {
  local_sound = r.local_sound;
  clients_sound = r.clients_sound;
  small_jump = r.small_jump;
}

pub key_in-IsReady : (c : Core) (k : KeyEvent) (o : Option ℕ) → IsReady c → IsReady (key_in c k o).0
unfolding key_in held_key
key_in-IsReady c k none r = fresh_key-IsReady c k (rule_for c k k.action) r
key_in-IsReady c k (some action) r = held k.action
  where
    held : (a : KeyAction) → IsReady (held_key c k action a).0
    held down = r
    held up = record {
      local_sound = r.local_sound;
      clients_sound = r.clients_sound;
      small_jump = r.small_jump;
    }
    held (repeats n) = r
