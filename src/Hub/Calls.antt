-- ===== src/Hub/Calls.antt =====
-- Runs of the hub of hub.rs: a sequence of calls, made by the sessions and by the editor of the layout.
use geser_desk.Prelude.{Bool, String, List, [], ◌∷◌, Option, Map}
use geser_desk.Geometry.{Point, Size, Rect}
use geser_desk.Message.{ServerMsg, CloseReason}
use geser_desk.Content.{ClipboardContent}
use geser_desk.Hub
use geser_desk.Hub.{Hub}

-- The calls that change the hub.
pub data HubCall : Type 0 where
  register : String → List Rect → HubCall
  unregister : String → HubCall
  set_monitors : String → List Rect → HubCall
  set_disabled : String → Bool → HubCall
  send : String → ServerMsg → HubCall
  disconnect : String → CloseReason → HubCall
  broadcast_except : Option String → List ServerMsg → HubCall
  clipboard_in : String → ClipboardContent → HubCall
  add_screen : String → HubCall
  apply_positions : Map Point → HubCall
  apply_sizes : Map Size → HubCall
  apply_local_monitors : List Rect → HubCall
  take_events take_clipboard : HubCall

abbrev pub call : Hub → HubCall → Hub
call h (HubCall.register name monitors) = (Hub.register h name monitors).0
call h (HubCall.unregister name) = Hub.unregister h name
call h (HubCall.set_monitors name monitors) = Hub.set_monitors h name monitors
call h (HubCall.set_disabled name off) = Hub.set_disabled h name off
call h (HubCall.send name msg) = (Hub.send h name msg).0
call h (HubCall.disconnect name reason) = (Hub.disconnect h name reason).0
call h (HubCall.broadcast_except except msgs) = Hub.broadcast_except h except msgs
call h (HubCall.clipboard_in from content) = Hub.clipboard_in h from content
call h (HubCall.add_screen name) = (Hub.add_screen h name).0
call h (HubCall.apply_positions p) = Hub.apply_positions h p
call h (HubCall.apply_sizes s) = Hub.apply_sizes h s
call h (HubCall.apply_local_monitors monitors) = Hub.apply_local_monitors h monitors
call h HubCall.take_events = (Hub.take_events h).0
call h HubCall.take_clipboard = (Hub.take_clipboard h).0

abbrev pub calls : Hub → List HubCall → Hub
calls h [] = h
calls h (c ∷ cs) = calls (call h c) cs

-- The server starts with the screens that the configuration turns off.
abbrev pub started : List String → Hub
started off = Hub.load_disabled Hub.new off
