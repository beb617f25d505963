-- ===== src/Examples/Hub.antt =====
-- hub.rs, and the router that hears from it; net.rs on the monitors of a client.
use geser_desk.Prelude.{
  ◌≤◌, pos, negsuc, ◌↔◌, true, false, String, List, [], ◌∷◌, some, arith, ◌≡◌, refl, All, is_empty,
  length, lookup,
}
use geser_desk.Geometry.{point, rect, ScreenInfo}
use geser_desk.Geometry.Bounds.{IsSound}
use geser_desk.Monitors.{sane, sanitize_monitors}
use geser_desk.Monitors.Sane.{InLimits, sane_iff, sanitize_monitors-IsSound}
use geser_desk.Hub.Calls.{HubCall, calls, started}
use geser_desk.Hub.Told.{known}
use geser_desk.Feed.{on_hub_events}
use geser_desk.Feed.Known.{on_hub_events-known}
use geser_desk.Router.{Core, Action}
use geser_desk.Router.Safety.{IsReady}
use geser_desk.Examples.Geometry.{full_hd}
use geser_desk.Examples.Router.{idle}

-- A client comes, is turned off, changes its monitors and is turned on again.
abbrev afternoon : List HubCall
afternoon =
    HubCall.register "win" (full_hd ∷ [])
    ∷ HubCall.set_disabled "win" true
    ∷ HubCall.set_monitors "win" (full_hd ∷ full_hd ∷ [])
    ∷ HubCall.set_disabled "win" false
    ∷ []

abbrev alone : Core
alone = record idle { connected = [] }

alone-IsReady : IsReady alone
alone-IsReady = omega arith

on_hub_events-known_example :
    (r : Core × List Action) × (on_hub_events alone (calls (started ("mac" ∷ [])) afternoon).events
      ≡ some r)
    × IsReady r.0
    × ((n : String) → lookup n r.0.connected ≡ known (calls (started ("mac" ∷ [])) afternoon) n)
on_hub_events-known_example =
    on_hub_events-known alone ("mac" ∷ []) afternoon alone-IsReady refl (omega arith)

-- A monitor at the least i32.
sane_iff_example :
    (sane (rect (negsuc 2147483647) (pos 0) (pos 800) (pos 600)) ≡ true)
    ↔ InLimits (rect (negsuc 2147483647) (pos 0) (pos 800) (pos 600))
sane_iff_example =
    sane_iff (rect (negsuc 2147483647) (pos 0) (pos 800) (pos 600)) (omega arith) (omega arith)

abbrev far_off : ScreenInfo
far_off = record {
  name = "win";
  bounds = full_hd;
  monitors = rect (pos 2000000) (pos 0) (pos 800) (pos 600) ∷ [];
  cursor = point (pos 0) (pos 0);
}

sanitize_monitors-IsSound_example :
    (is_empty (sanitize_monitors far_off) ≡ false)
    × (length (sanitize_monitors far_off) ≤ 32)
    × All IsSound (sanitize_monitors far_off)
sanitize_monitors-IsSound_example = sanitize_monitors-IsSound far_off (omega arith) (omega arith)
