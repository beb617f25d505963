-- ===== src/Router/Session.antt =====
-- What the router of router.rs promises to its clients and to the capture backend: a protocol of
-- grabs, entries and leaves, and the router's actions checked against it.
use geser_desk.Prelude.{
  String, Bool, true, false, List, [], ◌∷◌, Option, none, some, ◌&&◌, not, if◌then◌else◌, arith,
  ◌≡◌, refl, ◌is◌, is_refl,
}
use geser_desk.Geometry.{Point}
use geser_desk.Message.{ServerMsg, CaptureCmd}
use geser_desk.Router.{Core, State, Action, send, capture}
use geser_desk.Router.Moves.{enter, enter_from_remote, go_local}

-- Whether the devices are grabbed, and the client that was told it has the cursor.
pub record Session : Type 0 where
  pub grabbed : Bool
  pub holder : Option String

abbrev pub session : Bool → Option String → Session
session grabbed holder = record { grabbed = grabbed; holder = holder }

abbrev pub holds : Option String → String → Bool
holds none name = false
holds (some h) name = h is name

abbrev pub free : Option String → Bool
free none = true
free (some h) = false

-- One message to a client. `none` is a breach of the protocol: an entry without the grab or while
-- another client has the cursor, a leave or an input event for a client that has not got it, or a
-- message that the router has no business to send.
abbrev pub observe_msg : Session → String → ServerMsg → Option Session
observe_msg s to (ServerMsg.enter x y seq mods) =
    if s.grabbed && free s.holder then some (session true (some to)) else none
observe_msg s to ServerMsg.leave = if holds s.holder to then some (session s.grabbed none) else none
observe_msg s to (ServerMsg.key k) = if holds s.holder to then some s else none
observe_msg s to (ServerMsg.mouse m) = if holds s.holder to then some s else none
observe_msg s to msg = none

-- One action. The devices are grabbed once, before the entry, and let go once, after the leave.
abbrev pub observe : Session → Action → Option Session
observe s (send to msg) = observe_msg s to msg
observe s (capture CaptureCmd.grab) =
    if not s.grabbed && free s.holder then some (session true none) else none
observe s (capture (CaptureCmd.ungrab warp)) =
    if s.grabbed && free s.holder then some (session false none) else none

abbrev pub replay : Session → List Action → Option Session
replay s [] = some s
replay s (a ∷ rest) = elim (observe s a) [ none ↦ none | some t ↦ replay t rest ]

-- The session as the router's state says it is.
abbrev pub session_of_state : State → Session
session_of_state State.local = session false none
session_of_state (State.remote screen at) = session true (some screen)

-- The client that has the cursor, by the router's state.
abbrev pub active_screen : State → Option String
active_screen State.local = none
active_screen (State.remote screen at) = some screen

abbrev pub session_of : Core → Session
session_of c = session_of_state c.state

-- The actions follow the protocol and end in the session of the new state.
abbrev pub Follows : Session → Core × List Action → Type 0
Follows s r = replay s r.1 ≡ some (session_of r.0)

pub enter-Follows : (c : Core) (t : String) (q : Point) → Follows (session false none) (enter c t q)
unfolding enter
enter-Follows c t q = refl

pub go_local-Follows :
    (c : Core) (from : String) (q : Point) → Follows (session true (some from)) (go_local c from q)
unfolding go_local
go_local-Follows c from q = ground (arith, is_refl from)

pub enter_from_remote-Follows :
    (c : Core) (t : String) (q : Point) → Follows (session true none) (enter_from_remote c t q)
unfolding enter_from_remote
enter_from_remote-Follows c t q = refl
