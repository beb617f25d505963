-- ===== src/Feed/Known.antt =====
-- The router of router.rs under the events of the hub: it returns for each, and its table of clients is
-- what the events tell.
use geser_desk.Prelude.{
  String, List, [], ◌∷◌, ◌++◌, ◌||◌, Option, none, some, ◌>>=◌, ◌≡◌, refl, inl, inr, All, is_empty,
  if◌then◌else◌, ◌is◌, Bool-cases, Map, any, lookup, insert, remove, lookup-insert, lookup-remove,
  insert-Values, remove-Values,
}
use geser_desk.Geometry.{Rect}
use geser_desk.Geometry.Bounds.{IsSound}
use geser_desk.Layout
use geser_desk.Layout.{Layout}
use geser_desk.Message.{CaptureCmd}
use geser_desk.Switch.{switched}
use geser_desk.Hub.{HubEvent}
use geser_desk.Hub.Calls.{HubCall, calls, started}
use geser_desk.Hub.Told.{hears, heard, known, calls-IsTold, started-IsTold}
use geser_desk.Hub.Sound.{IsSoundEvent, IsSoundCall, calls-IsSoundHub, started-IsSoundHub}
use geser_desk.Router.{Core, State, Action, capture, refresh_origins}
use geser_desk.Router.Handlers.{
  client_connected, client_disconnected, set_positions, set_sizes, set_local_monitors, add_screen,
  gone, take_back, monitors_eq,
}
use geser_desk.Router.Safety.{IsReady, refresh_origins_total, local_center_total}
use geser_desk.Feed.{on_hub_event, on_hub_events}

-- The handler returned, the router is ready, and it has such clients.
abbrev Knows : Option (Core × List Action) → (String → Option (List Rect)) → Type 0
Knows o clients =
    (r : Core × List Action) × (o ≡ some r)
    × IsReady r.0
    × ((n : String) → lookup n r.0.connected ≡ clients n)

-- The same for a handler without actions.
abbrev KnowsQuietly : Option Core → (String → Option (List Rect)) → Type 0
KnowsQuietly o clients =
    (c : Core) × (o ≡ some c) × IsReady c × ((n : String) → lookup n c.connected ≡ clients n)

of_KnowsQuietly :
    (o : Option Core) (clients : String → Option (List Rect))
    → KnowsQuietly o clients
    → Knows (o >>= λ c. some (c, [])) clients
of_KnowsQuietly o clients (c, e, ready, k) = ((c, []), rw e, ready, k)

refresh_origins-KnowsQuietly :
    (c : Core) → IsReady c → KnowsQuietly (refresh_origins c) (λ n. lookup n c.connected)
refresh_origins-KnowsQuietly c r =
    let (origins, e) = refresh_origins_total c in
    (
      record c { origins = origins },
      e,
      record {
        local_sound = r.local_sound;
        clients_sound = r.clients_sound;
        small_jump = r.small_jump;
      },
      λ n. refl,
    )

-- The router with another table of clients.
clients-IsReady :
    (c : Core) (m : Map (List Rect))
    → IsReady c
    → All (λ e. All IsSound e.1) m
    → IsReady (record c { connected = m })
clients-IsReady c m r a = record {
  local_sound = r.local_sound;
  clients_sound = a;
  small_jump = r.small_jump;
}

client_connected-KnowsQuietly :
    (c : Core) (name : String) (ms : List Rect)
    → IsReady c
    → All IsSound ms
    → KnowsQuietly
        (client_connected c name ms)
        (λ n. if name is n then some ms else lookup n c.connected)
unfolding client_connected
client_connected-KnowsQuietly c name ms r a =
    let m = insert name ms c.connected in
    let sound = insert-Values (All IsSound) name ms c.connected r.clients_sound a in
    let (d, e, ready, k) =
      refresh_origins-KnowsQuietly (record c { connected = m }) (clients-IsReady c m r sound) in
    (d, e, ready, λ n. cc (k n, lookup-insert name n ms c.connected))

gone-Knows :
    (c : Core) (name : String) (st : State)
    → IsReady c
    → Knows (gone c name st) (λ n. lookup n c.connected)
unfolding gone take_back
gone-Knows c name State.local r = ((c, []), refl, r, λ n. refl)
gone-Knows c name (State.remote screen at) r =
    let home = record c { state = State.local; switch = switched c.switch } in
    let ready : IsReady home = record {
      local_sound = r.local_sound;
      clients_sound = r.clients_sound;
      small_jump = r.small_jump;
    } in
    let (back, e) = local_center_total home ready in
    elim (Bool-cases (screen is name)) [
      | inl t ↦ ((home, capture (CaptureCmd.ungrab back) ∷ []), rw (t, e), ready, λ n. refl)
      | inr f ↦ ((c, []), rw f, r, λ n. refl)
    ]

client_disconnected-Knows :
    (c : Core) (name : String)
    → IsReady c
    → Knows (client_disconnected c name) (λ n. if name is n then none else lookup n c.connected)
unfolding client_disconnected
client_disconnected-Knows c name r =
    let m = remove name c.connected in
    let sound = remove-Values (All IsSound) name c.connected r.clients_sound in
    let (d, e, ready, k) =
      refresh_origins-KnowsQuietly (record c { connected = m }) (clients-IsReady c m r sound) in
    let (res, g, still, l) = gone-Knows d name d.state ready in
    (res, rw e g, still, λ n. cc (k n, l n, lookup-remove name n c.connected))

-- The clients and the policy are the same, and the monitors sound.
same-KnowsQuietly :
    (c d : Core)
    → d.connected ≡ c.connected
    → IsReady d
    → KnowsQuietly (refresh_origins d) (λ n. lookup n c.connected)
same-KnowsQuietly c d same r =
    let (e, f, ready, k) = refresh_origins-KnowsQuietly d r in (e, f, ready, λ n. cc (k n, same))

add_screen-KnowsQuietly :
    (c : Core) (name : String)
    → IsReady c
    → KnowsQuietly (add_screen c name) (λ n. lookup n c.connected)
unfolding add_screen
add_screen-KnowsQuietly c name r = elim (Bool-cases (Layout.add_screen c.layout name).1) [
  | inl t ↦ rw t (
      same-KnowsQuietly c (record c { layout = (Layout.add_screen c.layout name).0 }) refl
        record {
          local_sound = r.local_sound;
          clients_sound = r.clients_sound;
          small_jump = r.small_jump;
        })
  | inr f ↦ (c, rw f, r, λ n. refl)
]

set_local_monitors-KnowsQuietly :
    (c : Core) (ms : List Rect)
    → IsReady c
    → All IsSound ms
    → KnowsQuietly (set_local_monitors c ms) (λ n. lookup n c.connected)
unfolding set_local_monitors
set_local_monitors-KnowsQuietly c ms r a =
    elim (Bool-cases (is_empty ms || monitors_eq ms c.local_monitors)) [
      | inl t ↦ (c, rw t, r, λ n. refl)
      | inr f ↦ rw f (
          same-KnowsQuietly c _ refl
            record { local_sound = a; clients_sound = r.clients_sound; small_jump = r.small_jump })
    ]

on_hub_event-Knows :
    (c : Core) (ev : HubEvent)
    → IsReady c
    → IsSoundEvent ev
    → Knows (on_hub_event c ev) (λ n. hears n (lookup n c.connected) ev)
unfolding on_hub_event set_positions set_sizes
on_hub_event-Knows c (HubEvent.connected name ms) r a =
    of_KnowsQuietly _ _ (client_connected-KnowsQuietly c name ms r a)
on_hub_event-Knows c (HubEvent.disconnected name) r a = client_disconnected-Knows c name r
on_hub_event-Knows c (HubEvent.positions p) r a = of_KnowsQuietly _ _ (
    same-KnowsQuietly c (record c { positions = p }) refl
      record {
        local_sound = r.local_sound;
        clients_sound = r.clients_sound;
        small_jump = r.small_jump;
      })
on_hub_event-Knows c (HubEvent.sizes s) r a = of_KnowsQuietly _ _ (
    same-KnowsQuietly c (record c { sizes = s }) refl
      record {
        local_sound = r.local_sound;
        clients_sound = r.clients_sound;
        small_jump = r.small_jump;
      })
on_hub_event-Knows c (HubEvent.local_monitors ms) r a =
    of_KnowsQuietly _ _ (set_local_monitors-KnowsQuietly c ms r a)
on_hub_event-Knows c (HubEvent.screen_added name) r a =
    of_KnowsQuietly _ _ (add_screen-KnowsQuietly c name r)

pub on_hub_events-Knows :
    (c : Core) (evs : List HubEvent)
    → IsReady c
    → All IsSoundEvent evs
    → Knows (on_hub_events c evs) (λ n. heard n (lookup n c.connected) evs)
unfolding on_hub_events
on_hub_events-Knows c [] r a = ((c, []), refl, r, λ n. refl)
on_hub_events-Knows c (ev ∷ evs) r a =
    let (first, e, ready, k) = on_hub_event-Knows c ev r a.0 in
    let (rest, g, still, l) = on_hub_events-Knows first.0 evs ready a.1 in
    ((rest.0, first.1 ++ rest.1), rw (e, g), still, λ n. cc (l n, k n))

-- Let a hub start with some screens turned off, and let calls with sound monitors be made on it. A router
-- that is ready and has no clients then returns for each of the hub's events, stays ready, and has as
-- clients exactly those that are connected to the hub and not turned off, with their monitors.
pub on_hub_events-known :
    (c : Core) (off : List String) (cs : List HubCall)
    → IsReady c
    → c.connected ≡ []
    → All IsSoundCall cs
    → (r : Core × List Action) × (on_hub_events c (calls (started off) cs).events ≡ some r)
      × IsReady r.0
      × ((n : String) → lookup n r.0.connected ≡ known (calls (started off) cs) n)
unfolding lookup any
on_hub_events-known c off cs ready empty sound =
    let h = calls (started off) cs in
    let s = calls-IsSoundHub (started off) cs (started-IsSoundHub off) sound in
    let t = calls-IsTold (started off) cs (started-IsTold off) in
    let (r, e, still, k) = on_hub_events-Knows c h.events ready s.events_sound in
    (r, e, still, λ n. cc (k n, t n, empty))
