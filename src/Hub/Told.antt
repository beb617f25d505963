-- ===== src/Hub/Told.antt =====
-- What the events of hub.rs tell a listener: which clients there are, and with which monitors.
use geser_desk.Prelude.{
  Bool, true, false, String, List, [], ◌∷◌, ◌++◌, ◌&&◌, not, Option, none, some, arith, ◌≡◌, refl,
  inl, inr, Option-cases, any, keep, if◌then◌else◌, ◌is◌, is_iff, Map, lookup, has_key,
  lookup-insert, lookup-remove,
}
use geser_desk.Geometry.{Rect}
use geser_desk.Message.{ServerMsg}
use geser_desk.Hub.{
  HubEvent, Entry, Hub, entry, among, tell, register, send, is_disabled, set_disabled, turned,
  broadcast_except, broadcast_in, queue_to, is_except, set_monitors, unregister, add_screen,
  load_disabled, clipboard_in, disconnect, apply_positions, apply_sizes, apply_local_monitors,
  take_events, take_clipboard,
}
use geser_desk.Hub
use geser_desk.Hub.Calls.{HubCall, call, calls, started}

-- The monitors of the client `name` after one more event.
abbrev pub hears : String → Option (List Rect) → HubEvent → Option (List Rect)
hears name o (HubEvent.connected n monitors) = if n is name then some monitors else o
hears name o (HubEvent.disconnected n) = if n is name then none else o
hears name o (HubEvent.positions p) = o
hears name o (HubEvent.sizes s) = o
hears name o (HubEvent.local_monitors monitors) = o
hears name o (HubEvent.screen_added n) = o

abbrev pub heard : String → Option (List Rect) → List HubEvent → Option (List Rect)
heard name o [] = o
heard name o (ev ∷ evs) = heard name (hears name o ev) evs

pub heard-append :
    (name : String) (o : Option (List Rect)) (evs : List HubEvent) (ev : HubEvent)
    → heard name o (evs ++ (ev ∷ [])) ≡ hears name (heard name o evs) ev
heard-append name o [] ev = refl
heard-append name o (e ∷ evs) ev = heard-append name (hears name o e) evs ev

abbrev pub monitors_of_entry : Option Entry → Option (List Rect)
monitors_of_entry none = none
monitors_of_entry (some e) = some e.monitors

-- The monitors of a client that is connected and not turned off.
abbrev pub known : Hub → String → Option (List Rect)
known h name = if among h.disabled name then none else monitors_of_entry (lookup name h.clients)

-- Who listens knows the clients that are on, with their monitors.
abbrev pub IsTold : Hub → Type 0
IsTold h = (name : String) → heard name none h.events ≡ known h name

register-IsTold : (h : Hub) (n : String) (ms : List Rect) → IsTold h → IsTold (register h n ms).0
unfolding register is_disabled has_key
register-IsTold h n ms t name =
    let put = lookup-insert n name (entry ms) h.clients in
    let one = heard-append name none h.events (HubEvent.connected n ms) in
    let same = is_iff n name in ground (arith, put, one, t name, same)

unregister-IsTold : (h : Hub) (n : String) → IsTold h → IsTold (unregister h n)
unfolding unregister
unregister-IsTold h n t name =
    let cut = lookup-remove n name h.clients in
    let one = heard-append name none h.events (HubEvent.disconnected n) in
    ground (arith, cut, one, t name, is_iff n name)

among-keep :
    (n name : String) (names : List String)
    → among (keep (λ m. not (m is n)) names) name ≡ (among names name && not (n is name))
unfolding keep any
among-keep n name [] = refl
among-keep n name (m ∷ ms) =
    ground (arith, among-keep n name ms, is_iff m n, is_iff m name, is_iff n name)

set_disabled-IsTold : (h : Hub) (n : String) (off : Bool) → IsTold h → IsTold (set_disabled h n off)
unfolding set_disabled is_disabled any
set_disabled-IsTold h n true t name = elim (Option-cases (lookup n h.clients)) [
  | inl p ↦ ground (arith, p, t name, is_iff n name)
  | inr (e, p) ↦
      let one = heard-append name none h.events (HubEvent.disconnected n) in
      ground (arith, p, one, t name, is_iff n name)
]
set_disabled-IsTold h n false t name =
    let kept = among-keep n name h.disabled in
    elim (Option-cases (lookup n h.clients)) [
      | inl p ↦ ground (arith, p, kept, t name, is_iff n name)
      | inr (e, p) ↦
          let one = heard-append name none h.events (HubEvent.connected n e.monitors) in
          ground (arith, p, kept, one, t name, is_iff n name)
    ]

set_monitors-IsTold :
    (h : Hub) (n : String) (ms : List Rect) → IsTold h → IsTold (set_monitors h n ms)
unfolding set_monitors is_disabled
set_monitors-IsTold h n ms t name = elim (Option-cases (lookup n h.clients)) [
  | inl p ↦ ground (arith, p, t name)
  | inr (e, p) ↦
      let put = lookup-insert n name (record e { monitors = ms }) h.clients in
      let one = heard-append name none h.events (HubEvent.connected n ms) in
      ground (arith, p, put, one, t name, is_iff n name)
]

send-IsTold : (h : Hub) (n : String) (msg : ServerMsg) → IsTold h → IsTold (send h n msg).0
unfolding send
send-IsTold h n msg t name = elim (Option-cases (lookup n h.clients)) [
  | inl p ↦ ground (arith, p, t name)
  | inr (e, p) ↦
      let put = lookup-insert n name (queue_to e (msg ∷ [])) h.clients in
      ground (arith, p, put, t name, is_iff n name)
]

monitors-broadcast_in :
    (name : String) (except : Option String) (off : List String) (msgs : List ServerMsg)
    (m : Map Entry)
    → monitors_of_entry (lookup name (broadcast_in except off msgs m))
      ≡ monitors_of_entry (lookup name m)
unfolding broadcast_in lookup
monitors-broadcast_in name except off msgs [] = refl
monitors-broadcast_in name except off msgs ((n, e) ∷ rest) =
    ground (arith, monitors-broadcast_in name except off msgs rest)

broadcast_except-IsTold :
    (h : Hub) (except : Option String) (msgs : List ServerMsg)
    → IsTold h
    → IsTold (broadcast_except h except msgs)
unfolding broadcast_except
broadcast_except-IsTold h except msgs t name =
    let same = monitors-broadcast_in name except h.disabled msgs h.clients in rw same (t name)

-- An event that is not about a client.
other-IsTold :
    (h : Hub) (ev : HubEvent)
    → ((name : String) (o : Option (List Rect)) → hears name o ev ≡ o)
    → IsTold h
    → IsTold (tell h ev)
other-IsTold h ev other t name =
    let one = heard-append name none h.events ev in
    rw (one, other name (heard name none h.events)) (t name)

call-IsTold : (h : Hub) (c : HubCall) → IsTold h → IsTold (call h c)
unfolding disconnect clipboard_in add_screen apply_positions apply_sizes apply_local_monitors
    take_events take_clipboard
call-IsTold h (HubCall.register n ms) t = register-IsTold h n ms t
call-IsTold h (HubCall.unregister n) t = unregister-IsTold h n t
call-IsTold h (HubCall.set_monitors n ms) t = set_monitors-IsTold h n ms t
call-IsTold h (HubCall.set_disabled n off) t = set_disabled-IsTold h n off t
call-IsTold h (HubCall.send n msg) t = send-IsTold h n msg t
call-IsTold h (HubCall.disconnect n reason) t = send-IsTold h n (ServerMsg.close reason) t
call-IsTold h (HubCall.broadcast_except except msgs) t = broadcast_except-IsTold h except msgs t
call-IsTold h (HubCall.clipboard_in from content) t = λ name. ground (arith, t name)
call-IsTold h (HubCall.add_screen n) t =
    let told =
      other-IsTold (record h { added = h.added ++ (n ∷ []) }) (HubEvent.screen_added n)
        (λ name o. refl) t in
    λ name. ground (arith, t name, told name)
call-IsTold h (HubCall.apply_positions p) t =
    other-IsTold h (HubEvent.positions p) (λ name o. refl) t
call-IsTold h (HubCall.apply_sizes s) t = other-IsTold h (HubEvent.sizes s) (λ name o. refl) t
call-IsTold h (HubCall.apply_local_monitors ms) t =
    other-IsTold h (HubEvent.local_monitors ms) (λ name o. refl) t
call-IsTold h HubCall.take_events t = t
call-IsTold h HubCall.take_clipboard t = t

-- Whatever is called on a hub, its events tell which clients are connected and not turned off, and with
-- which monitors.
pub calls-IsTold : (h : Hub) (cs : List HubCall) → IsTold h → IsTold (calls h cs)
calls-IsTold h [] t = t
calls-IsTold h (c ∷ cs) t = calls-IsTold (call h c) cs (call-IsTold h c t)

pub started-IsTold : (off : List String) → IsTold (started off)
unfolding load_disabled Hub.new lookup
started-IsTold off name = ground arith
