-- ===== src/Switch.antt =====
-- crates/geserdesk-server/src/layout.rs, the switch policy: whether a cursor at a live edge
-- crosses it. Times are milliseconds of a monotonic clock, a u64 that does not run out.
pub mod Gates
use geser_desk.Prelude.{
  ℕ, ℤ, pos, ◌-◌, Bool, true, false, Option, none, some, ◌&&◌, ◌||◌, not, if◌then◌else◌, leb, ltb,
}
use geser_desk.Edge.{Edge, edge_eq}

pub record SwitchPolicy : Type 0 where
  pub delay_ms : ℕ
  pub double_tap_ms : ℕ
  pub corner_size : ℤ
  pub jump_zone : ℤ
  pub scroll_lock_locks : Bool

unfoldable pub default_policy : SwitchPolicy
default_policy = record {
  delay_ms = 0;
  double_tap_ms = 0;
  corner_size = pos 0;
  jump_zone = pos 1;
  scroll_lock_locks = true;
}

pub data Decision : Type 0 where
  switch wait blocked : Decision

pub record SwitchState : Type 0 where
  pub locked : Bool
  pub dwell : Option (Edge × ℕ)
  pub last_tap : Option (Edge × ℕ)

unfoldable pub new : SwitchState
new = record { locked = false; dwell = none; last_tap = none }

unfoldable pub is_locked : SwitchState → Bool
is_locked s = s.locked

unfoldable pub toggle_lock : SwitchState → SwitchState
toggle_lock s = record s { locked = not s.locked; dwell = none }

unfoldable pub set_locked : SwitchState → Bool → SwitchState
set_locked s locked = record s { locked = locked; dwell = if locked then none else s.dwell }

unfoldable pub left_edge : SwitchState → SwitchState
left_edge s = record s { dwell = none }

unfoldable pub switched : SwitchState → SwitchState
switched s = record s { dwell = none; last_tap = none }

-- A tap on this edge at most `within` ms ago.
abbrev recent_tap : Option (Edge × ℕ) → Edge → ℕ → ℕ → Bool
recent_tap none edge now within = false
recent_tap (some (e, t)) edge now within = edge_eq e edge && leb (now - t) within

-- The match on `self.dwell`, when a delay is set.
dwell_gate : SwitchState → Option (Edge × ℕ) → ℕ → ℕ → Edge → SwitchState × Decision
unfolding switched
dwell_gate s none delay now edge = (record s { dwell = some (edge, now) }, wait)
dwell_gate s (some (e, started)) delay now edge =
    if edge_eq e edge
    then if leb delay (now - started) then (switched s, switch) else (s, wait)
    else (record s { dwell = some (edge, now) }, wait)

-- Gate 2, and the switch itself.
second_gate : SwitchPolicy → SwitchState → ℕ → Edge → SwitchState × Decision
unfolding dwell_gate switched
second_gate policy s now edge =
    if ltb 0 policy.delay_ms
    then dwell_gate s s.dwell policy.delay_ms now edge
    else (switched s, switch)

-- Gate 1.
first_gate : SwitchPolicy → SwitchState → ℕ → Edge → SwitchState × Decision
unfolding second_gate
first_gate policy s now edge =
    let tapped = record s { last_tap = some (edge, now) } in
    if ltb 0 policy.double_tap_ms
    then if recent_tap s.last_tap edge now policy.double_tap_ms
      then second_gate policy tapped now edge
      else (tapped, wait)
    else second_gate policy s now edge

unfoldable pub evaluate :
    SwitchState → SwitchPolicy → ℕ → Edge → Bool → Bool → SwitchState × Decision
unfolding first_gate
evaluate s policy now edge has_neighbor in_corner =
    if not has_neighbor || not in_corner
    then (record s { dwell = none }, blocked)
    else if s.locked && policy.scroll_lock_locks
    then (record s { dwell = none }, blocked)
    else first_gate policy s now edge
