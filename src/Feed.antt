-- ===== src/Feed.antt =====
-- crates/geserdesk-server/src/router.rs, `run_shared`: what the router does with an event of the hub,
-- and with the events of the hub in order, nothing from the capture backend between them. The delivery of the
-- actions is not here.
pub mod Known
use geser_desk.Prelude.{List, [], ◌∷◌, ◌++◌, Option, some, ◌>>=◌}
use geser_desk.Hub.{HubEvent}
use geser_desk.Router.{Core, Action}
use geser_desk.Router.Handlers.{
  client_connected, client_disconnected, set_positions, set_sizes, set_local_monitors, add_screen,
}

abbrev quietly : Option Core → Option (Core × List Action)
quietly o = do c ← o; some (c, [])

unfoldable pub on_hub_event : Core → HubEvent → Option (Core × List Action)
on_hub_event c (HubEvent.connected name monitors) = quietly (client_connected c name monitors)
on_hub_event c (HubEvent.positions p) = quietly (set_positions c p)
on_hub_event c (HubEvent.sizes s) = quietly (set_sizes c s)
on_hub_event c (HubEvent.screen_added name) = quietly (add_screen c name)
on_hub_event c (HubEvent.local_monitors monitors) = quietly (set_local_monitors c monitors)
on_hub_event c (HubEvent.disconnected name) = client_disconnected c name

-- One event after the other, with the actions of them all in order.
unfoldable pub on_hub_events : Core → List HubEvent → Option (Core × List Action)
unfolding on_hub_event
on_hub_events c [] = some (c, [])
on_hub_events c (ev ∷ evs) = do
  first ← on_hub_event c ev
  rest ← on_hub_events first.0 evs
  some (rest.0, first.1 ++ rest.1)
