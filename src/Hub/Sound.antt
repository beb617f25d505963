-- ===== src/Hub/Sound.antt =====
-- The monitors in what the hub of hub.rs holds and tells are sound when those it is given are.
use geser_desk.Prelude.{
  insert, has_key, ◌&&◌, not, Bool, true, false, String, List, [], ◌∷◌, ◌++◌, Option, inl, inr, All,
  Bool-cases, Option-cases, if◌then◌else◌, Map, lookup, Values, insert-Values, remove-Values,
  lookup-Values,
}
use geser_desk.Geometry.{Rect}
use geser_desk.Geometry.Bounds.{IsSound}
use geser_desk.Message.{ServerMsg}
use geser_desk.Content.{ClipboardContent}
use geser_desk.Hub
use geser_desk.Hub.{
  HubEvent, Entry, Hub, entry, among, tell, register, send, is_disabled, set_disabled, turned,
  broadcast_except, broadcast_in, queue_to, is_except, set_monitors, unregister, add_screen,
  load_disabled, clipboard_in, disconnect, apply_positions, apply_sizes, apply_local_monitors,
  take_events, take_clipboard,
}
use geser_desk.Hub.Calls.{HubCall, call, calls, started}
use geser_desk.Router.Handlers.{monitors_eq}

-- The monitors that an event tells.
abbrev pub IsSoundEvent : HubEvent → Type 0
IsSoundEvent (HubEvent.connected n ms) = All IsSound ms
IsSoundEvent (HubEvent.disconnected n) = Unit
IsSoundEvent (HubEvent.positions p) = Unit
IsSoundEvent (HubEvent.sizes s) = Unit
IsSoundEvent (HubEvent.local_monitors ms) = All IsSound ms
IsSoundEvent (HubEvent.screen_added n) = Unit

-- The monitors that a call gives to the hub.
abbrev pub IsSoundCall : HubCall → Type 0
IsSoundCall (HubCall.register n ms) = All IsSound ms
IsSoundCall (HubCall.unregister n) = Unit
IsSoundCall (HubCall.set_monitors n ms) = All IsSound ms
IsSoundCall (HubCall.set_disabled n off) = Unit
IsSoundCall (HubCall.send n msg) = Unit
IsSoundCall (HubCall.disconnect n reason) = Unit
IsSoundCall (HubCall.broadcast_except except msgs) = Unit
IsSoundCall (HubCall.clipboard_in from content) = Unit
IsSoundCall (HubCall.add_screen n) = Unit
IsSoundCall (HubCall.apply_positions p) = Unit
IsSoundCall (HubCall.apply_sizes s) = Unit
IsSoundCall (HubCall.apply_local_monitors ms) = All IsSound ms
IsSoundCall HubCall.take_events = Unit
IsSoundCall HubCall.take_clipboard = Unit

abbrev IsSoundEntry : Entry → Type 0
IsSoundEntry e = All IsSound e.monitors

pub record IsSoundHub (h : Hub) : Type 0 where
  pub events_sound : All IsSoundEvent h.events
  pub clients_sound : Values IsSoundEntry h.clients

All-append_one :
    (evs : List HubEvent) (ev : HubEvent)
    → All IsSoundEvent evs
    → IsSoundEvent ev
    → All IsSoundEvent (evs ++ (ev ∷ []))
All-append_one [] ev a p = (p, tt)
All-append_one (e ∷ evs) ev a p = (a.0, All-append_one evs ev a.1 p)

tell-IsSoundHub :
    (h : Hub) (ev : HubEvent) → IsSoundHub h → IsSoundEvent ev → IsSoundHub (tell h ev)
tell-IsSoundHub h ev s p = record {
  events_sound = All-append_one h.events ev s.events_sound p;
  clients_sound = s.clients_sound;
}

-- The hub with an entry written, and the event told or not.
put-IsSoundHub :
    (h : Hub) (n : String) (e : Entry)
    → IsSoundHub h
    → IsSoundEntry e
    → IsSoundHub (record h { clients = insert n e h.clients })
put-IsSoundHub h n e s p = record {
  events_sound = s.events_sound;
  clients_sound = insert-Values IsSoundEntry n e h.clients s.clients_sound p;
}

told_or_not :
    (h : Hub) (ev : HubEvent) (b : Bool)
    → IsSoundHub h
    → IsSoundEvent ev
    → IsSoundHub (if b then h else tell h ev)
told_or_not h ev true s p = s
told_or_not h ev false s p = tell-IsSoundHub h ev s p

register-IsSoundHub :
    (h : Hub) (n : String) (ms : List Rect)
    → IsSoundHub h
    → All IsSound ms
    → IsSoundHub (register h n ms).0
unfolding register
register-IsSoundHub h n ms s p = elim (Bool-cases (has_key n h.clients)) [
  | inl t ↦ rw t s
  | inr f ↦ rw f (
      told_or_not _ (HubEvent.connected n ms) (is_disabled h n) (put-IsSoundHub h n (entry ms) s p)
        p)
]

set_monitors-IsSoundHub :
    (h : Hub) (n : String) (ms : List Rect)
    → IsSoundHub h
    → All IsSound ms
    → IsSoundHub (set_monitors h n ms)
unfolding set_monitors
set_monitors-IsSoundHub h n ms s p = elim (Option-cases (lookup n h.clients)) [
  | inl e ↦ rw (e, set_monitors) s
  | inr (e, k) ↦
      rw (k, set_monitors)
        (elim (Bool-cases (monitors_eq e.monitors ms)) [
          | inl t ↦ rw t s
          | inr f ↦ rw f (
              told_or_not _ (HubEvent.connected n ms) (is_disabled h n)
                (put-IsSoundHub h n (record e { monitors = ms }) s p) p)
        ])
]

told_entry-IsSoundHub :
    (h : Hub) (n : String) (off : Bool) (e : Entry)
    → IsSoundHub h
    → IsSoundEntry e
    → IsSoundHub (tell h (if off then HubEvent.disconnected n else HubEvent.connected n e.monitors))
told_entry-IsSoundHub h n true e s p = tell-IsSoundHub h (HubEvent.disconnected n) s tt
told_entry-IsSoundHub h n false e s p = tell-IsSoundHub h (HubEvent.connected n e.monitors) s p

turned-IsSoundHub : (h : Hub) (n : String) (off : Bool) → IsSoundHub h → IsSoundHub (turned h n off)
turned-IsSoundHub h n off s = elim (Option-cases (lookup n h.clients)) [
  | inl e ↦ rw (e, turned) s
  | inr (e, k) ↦
      rw (k, turned)
        (told_entry-IsSoundHub h n off e s
          (lookup-Values IsSoundEntry n h.clients s.clients_sound k))
]

-- The hub with another set of screens turned off.
off-IsSoundHub :
    (h : Hub) (names : List String) → IsSoundHub h → IsSoundHub (record h { disabled = names })
off-IsSoundHub h names s = record { events_sound = s.events_sound; clients_sound = s.clients_sound }

set_disabled-IsSoundHub :
    (h : Hub) (n : String) (off : Bool) → IsSoundHub h → IsSoundHub (set_disabled h n off)
unfolding set_disabled
set_disabled-IsSoundHub h n true s = elim (Bool-cases (is_disabled h n)) [
  | inl t ↦ rw t s
  | inr f ↦ rw f (turned-IsSoundHub _ n true (off-IsSoundHub h _ s))
]
set_disabled-IsSoundHub h n false s = elim (Bool-cases (is_disabled h n)) [
  | inl t ↦ rw t (turned-IsSoundHub _ n false (off-IsSoundHub h _ s))
  | inr f ↦ rw f s
]

send-IsSoundHub :
    (h : Hub) (n : String) (msg : ServerMsg) → IsSoundHub h → IsSoundHub (send h n msg).0
unfolding send
send-IsSoundHub h n msg s = elim (Option-cases (lookup n h.clients)) [
  | inl e ↦ rw (e, send) s
  | inr (e, k) ↦
      rw (k, send)
        (put-IsSoundHub h n (queue_to e (msg ∷ [])) s
          (lookup-Values IsSoundEntry n h.clients s.clients_sound k))
]

broadcast_in-Values :
    (except : Option String) (off : List String) (msgs : List ServerMsg) (m : Map Entry)
    → Values IsSoundEntry m
    → Values IsSoundEntry (broadcast_in except off msgs m)
unfolding broadcast_in
broadcast_in-Values except off msgs [] a = tt
broadcast_in-Values except off msgs ((n, e) ∷ rest) a =
    let later = broadcast_in-Values except off msgs rest a.1 in
    elim (Bool-cases (not (is_except except n) && not (among off n))) [
      | inl t ↦ rw t (a.0, later)
      | inr f ↦ rw f (a.0, later)
    ]

kept-IsSoundHub :
    (h : Hub) (cs : Map Entry)
    → IsSoundHub h
    → Values IsSoundEntry cs
    → IsSoundHub (record h { clients = cs })
kept-IsSoundHub h cs s a = record { events_sound = s.events_sound; clients_sound = a }

add_screen-IsSoundHub : (h : Hub) (n : String) → IsSoundHub h → IsSoundHub (add_screen h n).0
unfolding add_screen
add_screen-IsSoundHub h n s = elim (Bool-cases (among h.added n)) [
  | inl t ↦ rw t s
  | inr f ↦ rw f record {
    events_sound = All-append_one h.events (HubEvent.screen_added n) s.events_sound tt;
    clients_sound = s.clients_sound;
  }
]

clipboard_in-IsSoundHub :
    (h : Hub) (from : String) (content : ClipboardContent)
    → IsSoundHub h
    → IsSoundHub (clipboard_in h from content)
unfolding clipboard_in
clipboard_in-IsSoundHub h from content s = elim (Bool-cases (is_disabled h from)) [
  | inl t ↦ rw t s
  | inr f ↦ rw f record { events_sound = s.events_sound; clients_sound = s.clients_sound }
]

call-IsSoundHub : (h : Hub) (c : HubCall) → IsSoundHub h → IsSoundCall c → IsSoundHub (call h c)
unfolding disconnect apply_positions apply_sizes apply_local_monitors take_events take_clipboard
    unregister broadcast_except
call-IsSoundHub h (HubCall.register n ms) s p = register-IsSoundHub h n ms s p
call-IsSoundHub h (HubCall.unregister n) s p =
    tell-IsSoundHub _ (HubEvent.disconnected n)
      (kept-IsSoundHub h _ s (remove-Values IsSoundEntry n h.clients s.clients_sound)) tt
call-IsSoundHub h (HubCall.set_monitors n ms) s p = set_monitors-IsSoundHub h n ms s p
call-IsSoundHub h (HubCall.set_disabled n off) s p = set_disabled-IsSoundHub h n off s
call-IsSoundHub h (HubCall.send n msg) s p = send-IsSoundHub h n msg s
call-IsSoundHub h (HubCall.disconnect n reason) s p = send-IsSoundHub h n (ServerMsg.close reason) s
call-IsSoundHub h (HubCall.broadcast_except except msgs) s p =
    kept-IsSoundHub h _ s (broadcast_in-Values except h.disabled msgs h.clients s.clients_sound)
call-IsSoundHub h (HubCall.clipboard_in from content) s p = clipboard_in-IsSoundHub h from content s
call-IsSoundHub h (HubCall.add_screen n) s p = add_screen-IsSoundHub h n s
call-IsSoundHub h (HubCall.apply_positions q) s p = tell-IsSoundHub h (HubEvent.positions q) s p
call-IsSoundHub h (HubCall.apply_sizes q) s p = tell-IsSoundHub h (HubEvent.sizes q) s p
call-IsSoundHub h (HubCall.apply_local_monitors ms) s p =
    tell-IsSoundHub h (HubEvent.local_monitors ms) s p
call-IsSoundHub h HubCall.take_events s p = record {
  events_sound = s.events_sound;
  clients_sound = s.clients_sound;
}
call-IsSoundHub h HubCall.take_clipboard s p = record {
  events_sound = s.events_sound;
  clients_sound = s.clients_sound;
}

pub calls-IsSoundHub :
    (h : Hub) (cs : List HubCall) → IsSoundHub h → All IsSoundCall cs → IsSoundHub (calls h cs)
calls-IsSoundHub h [] s a = s
calls-IsSoundHub h (c ∷ cs) s a = calls-IsSoundHub (call h c) cs (call-IsSoundHub h c s a.0) a.1

pub started-IsSoundHub : (off : List String) → IsSoundHub (started off)
unfolding load_disabled Hub.new
started-IsSoundHub off = record { events_sound = tt; clients_sound = tt }
