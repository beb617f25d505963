-- ===== src/Hub.antt =====
-- crates/geserdesk-server/src/hub.rs: the registry of connected clients. The channels are the lists
-- of what was sent, oldest first; an entry lives as long as its registration, so a send to it succeeds. An
-- operation holds no lock across its parts in the code; here each is one step.
pub mod Calls
pub mod Told
pub mod Sound
use geser_desk.Prelude.{
  Bool, true, false, not, ◌&&◌, ◌||◌, String, List, [], ◌∷◌, ◌++◌, Option, none, some, any, keep,
  if◌then◌else◌, ◌is◌, Map, lookup, insert, remove, has_key,
}
use geser_desk.Geometry.{Point, Size, Rect}
use geser_desk.Message.{ServerMsg, CloseReason}
use geser_desk.Content.{ClipboardContent}
use geser_desk.Router.Handlers.{monitors_eq}

pub data HubEvent : Type 0 where
  connected : String → List Rect → HubEvent
  disconnected : String → HubEvent
  positions : Map Point → HubEvent
  sizes : Map Size → HubEvent
  local_monitors : List Rect → HubEvent
  screen_added : String → HubEvent

pub record SharedClip : Type 0 where
  pub from : String
  pub content : ClipboardContent

pub record Entry : Type 0 where
  pub outbox : List ServerMsg
  pub monitors : List Rect

pub record Hub : Type 0 where
  pub clients : Map Entry
  pub added : List String
  pub disabled : List String
  pub events : List HubEvent
  pub events_taken : Bool
  pub clipboard : List SharedClip
  pub clipboard_taken : Bool

unfoldable pub new : Hub
new = record {
  clients = [];
  added = [];
  disabled = [];
  events = [];
  events_taken = false;
  clipboard = [];
  clipboard_taken = false;
}

abbrev pub among : List String → String → Bool
among names name = any (λ n. n is name) names

abbrev pub tell : Hub → HubEvent → Hub
tell h ev = record h { events = h.events ++ (ev ∷ []) }

-- Whether the receiver is handed out: it is there once.
unfoldable pub take_events : Hub → Hub × Bool
take_events h = (record h { events_taken = true }, not h.events_taken)

unfoldable pub take_clipboard : Hub → Hub × Bool
take_clipboard h = (record h { clipboard_taken = true }, not h.clipboard_taken)

unfoldable pub is_disabled : Hub → String → Bool
is_disabled h name = among h.disabled name

unfoldable pub clipboard_in : Hub → String → ClipboardContent → Hub
unfolding is_disabled
clipboard_in h from content =
    if is_disabled h from
    then h
    else record h { clipboard = h.clipboard ++ (record { from = from; content = content } ∷ []) }

unfoldable pub contains : Hub → String → Bool
contains h name = has_key name h.clients

abbrev pub entry : List Rect → Entry
entry monitors = record { outbox = []; monitors = monitors }

-- `false` when the name is taken: there is no registration.
unfoldable pub register : Hub → String → List Rect → Hub × Bool
unfolding is_disabled
register h name monitors =
    let h' = record h { clients = insert name (entry monitors) h.clients } in
    if has_key name h.clients
    then (h, false)
    else (if is_disabled h name then h' else tell h' (connected name monitors), true)

abbrev pub queue_to : Entry → List ServerMsg → Entry
queue_to e msgs = record e { outbox = e.outbox ++ msgs }

unfoldable pub send : Hub → String → ServerMsg → Hub × Bool
send h name msg = elim (lookup name h.clients) [
  | none ↦ (h, false)
  | some e ↦ (record h { clients = insert name (queue_to e (msg ∷ [])) h.clients }, true)
]

-- What the router is told when a client is turned off or on.
abbrev pub turned : Hub → String → Bool → Hub
turned h name off = elim (lookup name h.clients) [
  | none ↦ h
  | some e ↦ tell h (if off then disconnected name else connected name e.monitors)
]

unfoldable pub set_disabled : Hub → String → Bool → Hub
unfolding is_disabled
set_disabled h name true =
    if is_disabled h name then h else turned (record h { disabled = name ∷ h.disabled }) name true
set_disabled h name false =
    if is_disabled h name
    then turned (record h { disabled = keep (λ n. not (n is name)) h.disabled }) name false
    else h

unfoldable pub load_disabled : Hub → List String → Hub
load_disabled h names = record h { disabled = names }

unfoldable pub disconnect : Hub → String → CloseReason → Hub × Bool
unfolding send
disconnect h name reason = send h name (ServerMsg.close reason)

abbrev pub is_except : Option String → String → Bool
is_except none name = false
is_except (some e) name = e is name

unfoldable pub broadcast_in : Option String → List String → List ServerMsg → Map Entry → Map Entry
broadcast_in except off msgs [] = []
broadcast_in except off msgs ((name, e) ∷ rest) =
    let e' = if not (is_except except name) && not (among off name) then queue_to e msgs else e in
    (name, e') ∷ broadcast_in except off msgs rest

unfoldable pub broadcast_except : Hub → Option String → List ServerMsg → Hub
unfolding broadcast_in
broadcast_except h except msgs = record h {
  clients = broadcast_in except h.disabled msgs h.clients;
}

unfoldable pub set_monitors : Hub → String → List Rect → Hub
unfolding is_disabled
set_monitors h name monitors = elim (lookup name h.clients) [
  | none ↦ h
  | some e ↦
      let h' = record h { clients = insert name (record e { monitors = monitors }) h.clients } in
      if monitors_eq e.monitors monitors
      then h
      else if is_disabled h name
      then h'
      else tell h' (connected name monitors)
]

abbrev pub monitors_in : Map Entry → Map (List Rect)
monitors_in [] = []
monitors_in ((name, e) ∷ rest) = (name, e.monitors) ∷ monitors_in rest

unfoldable pub snapshot : Hub → Map (List Rect)
snapshot h = monitors_in h.clients

unfoldable pub apply_positions : Hub → Map Point → Hub
apply_positions h p = tell h (positions p)

unfoldable pub apply_sizes : Hub → Map Size → Hub
apply_sizes h s = tell h (sizes s)

unfoldable pub add_screen : Hub → String → Hub × Bool
add_screen h name =
    if among h.added name
    then (h, false)
    else (tell (record h { added = h.added ++ (name ∷ []) }) (screen_added name), true)

unfoldable pub added_screens : Hub → List String
added_screens h = h.added

unfoldable pub apply_local_monitors : Hub → List Rect → Hub
apply_local_monitors h monitors = tell h (local_monitors monitors)

unfoldable pub unregister : Hub → String → Hub
unregister h name = tell (record h { clients = remove name h.clients }) (disconnected name)
