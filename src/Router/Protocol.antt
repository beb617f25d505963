-- ===== src/Router/Protocol.antt =====
-- Every handler of router.rs follows the protocol of Router/Session.antt.
mod Input
use geser_desk.Prelude.{
  ℕ, ℤ, String, Bool, true, false, List, [], ◌∷◌, ◌++◌, Option, none, some, ◌&&◌, not, ◌>>=◌,
  if◌then◌else◌, arith, ◌≡◌, refl, ap, sym, ◌∙◌, inl, inr, is_some, ◌is◌, is_refl, is_iff,
  Bool-cases, Option-cases, any, find, is_empty, subst, lookup, remove, pos, add_i32,
}
use geser_desk.Geometry.{Point, Rect, point, contains, union_all}
use geser_desk.Edge.{Edge, all_edges}
use geser_desk.Input.{ModMask, KeyAction, KeyEvent, down, up, repeats, mods_contains}
use geser_desk.Keys.{Rule}
use geser_desk.Switch.{Decision, evaluate}
use geser_desk.Message.{ServerMsg, CaptureEvent, CaptureCmd}
use geser_desk.Floats.{Floats}
use Input.{to_holder-mouse, on_key-Follows}
use geser_desk.Desk.{nearest_point, inset_clamp, to_desk}
use geser_desk.Router.{
  Core, State, Action, send, capture, active_remote, monitors_of, frame, locate, local_center,
  snap_into, refresh_origins, centre_or_zero,
}
use geser_desk.Router.Moves.{forward, enter, enter_from_remote, go_local}
use geser_desk.Router.Pointer.{
  on_pointer, in_state, on_monitor, push_edge, first_hit, decide, near_corner, jump_of,
}
use geser_desk.Router.Hotkey.{
  Candidate, on_hotkey, hotkey_in, hotkey_to, nearest_machine, on_grab_failed, grab_failed_in,
}
use geser_desk.Router.Motion.{
  on_motion, motion_in, motion_on, moved_to, beyond, cross, stay, move_to, landing_monitor,
}
use geser_desk.Router.KeyInput.{
  on_key, key_in, held_key, fresh_key, release_keys, release_mods, modifier_keys, as_action,
  fired_action, rule_for,
}
use geser_desk.Router.Handlers.{handle, client_disconnected, gone, take_back}
use geser_desk.Router.Session.{
  Session, session, observe, replay, session_of, session_of_state, active_screen, holds, Follows,
  enter-Follows, go_local-Follows, enter_from_remote-Follows,
}

-- What a computation that may panic returns, if it returns.
abbrev Safely : Session → Option (Core × List Action) → Type 0
Safely s r = (c : Core) (acts : List Action) → r ≡ some (c, acts) → Follows s (c, acts)

of_Follows : (s : Session) (r : Core × List Action) → Follows s r → Safely s (some r)
of_Follows s (c, acts) f c' acts' e = ground (arith, f)

decide-Follows :
    (fl : Floats) (c : Core) (t : String) (q : Point) (d : Decision)
    → c.state ≡ State.local
    → Follows (session false none) (decide fl c t q d)
unfolding decide
decide-Follows fl c t q Decision.switch e = enter-Follows c t q
decide-Follows fl c t q Decision.wait e = rw e
decide-Follows fl c t q Decision.blocked e = rw e

push_edge-Follows :
    (fl : Floats) (c : Core) (m : Rect) (p : Point) (now : ℕ) (hit : Option (Edge × String × Point))
    → c.state ≡ State.local
    → Follows (session false none) (push_edge fl c m p now hit)
unfolding push_edge
push_edge-Follows fl c m p now none e = rw e
push_edge-Follows fl c m p now (some (edge, target, q)) e = decide-Follows fl _ target q _ e

on_monitor-Follows :
    (fl : Floats) (c : Core) (p : Point) (now : ℕ) (m : Option Rect)
    → c.state ≡ State.local
    → Follows (session false none) (on_monitor fl c p now m)
unfolding on_monitor
on_monitor-Follows fl c p now none e = rw e
on_monitor-Follows fl c p now (some m) e = push_edge-Follows fl _ m p now _ e

in_state-Follows :
    (fl : Floats) (c : Core) (p : Point) (now : ℕ) (st : State)
    → c.state ≡ st
    → Follows (session_of_state st) (in_state fl c p now st)
unfolding in_state
in_state-Follows fl c p now State.local e = on_monitor-Follows fl c p now _ e
in_state-Follows fl c p now (State.remote screen at) e = rw e

bind-Safely {ℓ} :
    {A : Type ℓ} (s : Session) (o : Option A) (f : A → Option (Core × List Action))
    → ((a : A) → Safely s (f a))
    → Safely s (o >>= f)
bind-Safely s none f h = λ c acts e. cc
bind-Safely s (some a) f h = h a

if-Safely :
    (s : Session) (b : Bool) (x y : Option (Core × List Action))
    → Safely s x
    → Safely s y
    → Safely s (if b then x else y)
if-Safely s true x y f g = f
if-Safely s false x y f g = g

hotkey_to-Safely :
    (c : Core) (t : Option Candidate) (fl : Floats)
    → c.state ≡ State.local
    → Safely (session false none) (hotkey_to fl c t)
unfolding hotkey_to
hotkey_to-Safely c none fl e = of_Follows _ (c, []) (rw e)
hotkey_to-Safely c (some (d, t)) fl e = bind-Safely _ (lookup t c.connected) _ λ mons.
    bind-Safely _ (snap_into c t (centre_or_zero (union_all mons))) _
      λ at. of_Follows _ (enter c t at) (enter-Follows c t at)

hotkey_in-Safely :
    (c : Core) (fl : Floats) (st : State)
    → c.state ≡ st
    → Safely (session_of_state st) (hotkey_in fl c st)
unfolding hotkey_in
hotkey_in-Safely c fl State.local e = hotkey_to-Safely c (nearest_machine fl c) fl e
hotkey_in-Safely c fl (State.remote screen at) e =
    bind-Safely _ (local_center c) _
      λ back. of_Follows _ (go_local c screen back) (go_local-Follows c screen back)

grab_failed_in-Follows :
    (c : Core) (st : State) → Follows (session false (active_screen st)) (grab_failed_in c st)
unfolding grab_failed_in
grab_failed_in-Follows c State.local = refl
grab_failed_in-Follows c (State.remote screen at) = ground (arith, is_refl screen)

stay-Follows :
    (c : Core) (screen : String) (p : Point)
    → Follows (session true (some screen)) (stay c screen p)
unfolding stay
stay-Follows c screen p = ground (arith, is_refl screen)

cross-Safely :
    (c : Core) (screen : String) (edge : Point) (next : String) (q : Point)
    → Safely (session true (some screen)) (cross c screen edge next q)
unfolding cross
cross-Safely c screen edge next q =
    if-Safely _ (next is c.local) _ _
      (bind-Safely _ (landing_monitor c.local_monitors q) _ λ lm.
        bind-Safely _ (inset_clamp q lm (add_i32 (jump_of c) (pos 1))) _ λ back.
          of_Follows _ _ (then_move edge (go_local c screen back) (go_local-Follows c screen back)))
      (of_Follows _ _ (
        then_move edge
          (
            (enter_from_remote c next q).0,
            send screen ServerMsg.leave ∷ (enter_from_remote c next q).1,
          )
          (then_leave (enter_from_remote c next q) (enter_from_remote-Follows c next q))))
  where
    then_move :
        (to : Point) (r : Core × List Action)
        → Follows (session true (some screen)) r
        → Follows (session true (some screen)) (r.0, move_to screen to ∷ r.1)
    then_move to r f = ground (arith, is_refl screen, f)

    then_leave :
        (r : Core × List Action)
        → Follows (session true none) r
        → Follows (session true (some screen)) (r.0, send screen ServerMsg.leave ∷ r.1)
    then_leave r f = ground (arith, is_refl screen, f)

beyond-Safely :
    (c : Core) (screen : String) (mons : List Rect) (moved : Point) (hit : Option (String × Point))
    (fl : Floats)
    → Safely (session true (some screen)) (beyond fl c screen mons moved hit)
unfolding beyond
beyond-Safely c screen mons moved none fl =
    bind-Safely _ (nearest_point moved mons) _
      λ p. of_Follows _ (stay c screen p) (stay-Follows c screen p)
beyond-Safely c screen mons moved (some (next, q)) fl =
    bind-Safely _ (nearest_point moved mons) _ λ edge. cross-Safely c screen edge next q

motion_in-Safely :
    (fl : Floats) (c : Core) (dx dy : ℤ) (st : State)
    → c.state ≡ st
    → Safely (session_of_state st) (motion_in fl c dx dy st)
unfolding motion_in moved_to
motion_in-Safely fl c dx dy State.local e = of_Follows _ (c, []) (rw e)
motion_in-Safely fl c dx dy (State.remote screen at) e =
    if-Safely _ (is_empty (monitors_of c screen)) _ _ (of_Follows _ (c, []) (rw e))
      (bind-Safely _ (nearest_point at (monitors_of c screen)) _ λ p. on p)
  where
    on :
        (p : Point)
        → Safely
            (session true (some screen))
            (moved_to fl c screen (monitors_of c screen) (point (add_i32 p.x dx) (add_i32 p.y dy)))
    on p =
        let moved = point (add_i32 p.x dx) (add_i32 p.y dy) in
        let mons = monitors_of c screen in
        if-Safely _ (any (λ m. contains m moved) mons) _ _
          (of_Follows _ (stay c screen moved) (stay-Follows c screen moved))
          (beyond-Safely c screen mons moved
            (locate fl c (to_desk fl (frame fl c screen) moved) screen) fl)

-- The session that an event starts from: a grab that failed means that the devices are not held.
abbrev pub before : Core → CaptureEvent → Session
before c CaptureEvent.grab_failed = session false (active_screen c.state)
before c ev = session_of c

-- Whatever the capture backend reports, if `handle` returns, its actions follow the protocol: each
-- client is entered only under the grab and once the last one has left, only the client that has the cursor is sent
-- input or a leave, the devices are grabbed before the first entry and let go after the last leave. They end in
-- the session of the new state.
pub handle-Follows :
    (fl : Floats) (c : Core) (ev : CaptureEvent) (now : ℕ) (c' : Core) (acts : List Action)
    → handle fl c ev now ≡ some (c', acts)
    → replay (before c ev) acts ≡ some (session_of c')
unfolding handle forward on_pointer on_hotkey on_grab_failed on_motion
handle-Follows fl c (CaptureEvent.pointer p) now c' acts e =
    of_Follows _ (on_pointer fl c p now) (in_state-Follows fl c p now c.state refl) c' acts e
handle-Follows fl c CaptureEvent.hotkey now c' acts e = hotkey_in-Safely c fl c.state refl c' acts e
handle-Follows fl c CaptureEvent.grab_failed now c' acts e =
    of_Follows _ (on_grab_failed c) (grab_failed_in-Follows c c.state) c' acts e
handle-Follows fl c (CaptureEvent.motion dx dy) now c' acts e =
    motion_in-Safely fl c dx dy c.state refl c' acts e
handle-Follows fl c (CaptureEvent.button b pressed) now c' acts e =
    of_Follows _ (c, _) (to_holder-mouse c.state _) c' acts e
handle-Follows fl c (CaptureEvent.wheel dx dy) now c' acts e =
    of_Follows _ (c, _) (to_holder-mouse c.state _) c' acts e
handle-Follows fl c (CaptureEvent.key k) now c' acts e =
    of_Follows _ (on_key c k) (on_key-Follows c k) c' acts e

-- The session when a client is gone: if it had the cursor, nobody has.
abbrev pub vanish : String → Session → Session
vanish name s = if holds s.holder name then session s.grabbed none else s

gone-Safely :
    (c : Core) (name : String) (st : State)
    → c.state ≡ st
    → Safely (vanish name (session_of_state st)) (gone c name st)
unfolding gone take_back
gone-Safely c name State.local e = of_Follows _ (c, []) (rw e)
gone-Safely c name (State.remote screen at) e = elim (Bool-cases (screen is name)) [
  | inl t ↦ rw t (
      bind-Safely _ (local_center _) _
        λ back. of_Follows _ (_, capture (CaptureCmd.ungrab back) ∷ []) refl)
  | inr f ↦ rw f (of_Follows _ (c, []) (rw e))
]

refresh_origins-state : (c c' : Core) → refresh_origins c ≡ some c' → c'.state ≡ c.state
unfolding refresh_origins
refresh_origins-state c c' e = ground (arith, e)

-- When a client goes away and the handler returns, its actions follow the protocol from the session without that
-- client, and end in the session of the new state.
pub client_disconnected-Follows :
    (c : Core) (name : String) (c' : Core) (acts : List Action)
    → client_disconnected c name ≡ some (c', acts)
    → replay (vanish name (session_of c)) acts ≡ some (session_of c')
unfolding client_disconnected
client_disconnected-Follows c name =
    let o = refresh_origins (record c { connected = remove name c.connected }) in
    bind-refresh o (refresh_origins-state (record c { connected = remove name c.connected }))
  where
    bind-refresh :
        (o : Option Core)
        → ((d : Core) → o ≡ some d → d.state ≡ c.state)
        → Safely (vanish name (session_of c)) (o >>= λ d. gone d name d.state)
    bind-refresh none h = λ d acts e. cc
    bind-refresh (some d) h =
        subst (λ st. Safely (vanish name (session_of_state st)) (gone d name d.state)) (h d refl)
          (gone-Safely d name d.state refl)
