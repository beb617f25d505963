-- ===== src/Router/Pointer.antt =====
-- router.rs, local mode: `on_pointer` and the tests at the edges of a monitor.
use geser_desk.Prelude.{
  ℕ, ℤ, pos, String, Bool, true, List, [], ◌∷◌, Option, none, some, ◌||◌, not, if◌then◌else◌, any,
  find, add_i32, sub_i32, max_ℤ, ltb_ℤ, leb_ℤ,
}
use geser_desk.Geometry.{Point, Rect, point, contains, left, right, top, bottom}
use geser_desk.Edge.{Edge, all_edges}
use geser_desk.Switch.{Decision, evaluate, left_edge}
use geser_desk.Desk.{to_desk}
use geser_desk.Floats.{Floats}
use geser_desk.Router.{Core, State, Action, frame, locate}
use geser_desk.Router.Moves.{enter}

unfoldable pub at_edge : Rect → Point → Edge → ℤ → Bool
at_edge bounds p Edge.left jump = ltb_ℤ p.x (add_i32 (left bounds) jump)
at_edge bounds p Edge.right jump = leb_ℤ (sub_i32 (right bounds) jump) p.x
at_edge bounds p Edge.top jump = ltb_ℤ p.y (add_i32 (top bounds) jump)
at_edge bounds p Edge.bottom jump = leb_ℤ (sub_i32 (bottom bounds) jump) p.y

unfoldable pub step : Point → Edge → ℤ → Point
step p Edge.left n = point (sub_i32 p.x n) p.y
step p Edge.right n = point (add_i32 p.x n) p.y
step p Edge.top n = point p.x (sub_i32 p.y n)
step p Edge.bottom n = point p.x (add_i32 p.y n)

-- The position along the edge, between its two ends.
within_corner : ℤ → ℤ → ℤ → ℤ → Bool
within_corner at lo hi size =
    ltb_ℤ (sub_i32 at lo) size || ltb_ℤ (sub_i32 (sub_i32 hi (pos 1)) at) size

along : Rect → Point → Edge → ℤ → Bool
unfolding within_corner
along bounds p Edge.left size = within_corner p.y (top bounds) (bottom bounds) size
along bounds p Edge.right size = within_corner p.y (top bounds) (bottom bounds) size
along bounds p Edge.top size = within_corner p.x (left bounds) (right bounds) size
along bounds p Edge.bottom size = within_corner p.x (left bounds) (right bounds) size

unfoldable pub near_corner : Rect → Point → Edge → ℤ → Bool
unfolding along
near_corner bounds p edge corner_size =
    if leb_ℤ corner_size (pos 0) then true else along bounds p edge corner_size

-- `policy.jump_zone.max(1)`
abbrev pub jump_of : Core → ℤ
jump_of c = max_ℤ c.policy.jump_zone (pos 1)

module _ (fl : Floats) where
  -- What lies across one edge, if the pointer is at it and it is no seam of the own monitors.
  unfoldable pub across : Core → Rect → Point → Edge → Option (String × Point)
  unfolding at_edge step
  across c m p edge =
      let probe = step p edge (jump_of c) in
      if not (at_edge m p edge (jump_of c)) || any (λ x. contains x probe) c.local_monitors
      then none
      else locate fl c (to_desk fl (frame fl c c.local) probe) c.local

  -- The loop over the edges: the first hit.
  unfoldable pub first_hit : Core → Rect → Point → List Edge → Option (Edge × String × Point)
  first_hit c m p [] = none
  first_hit c m p (edge ∷ edges) = elim (across c m p edge) [
    | some (name, q) ↦ some (edge, name, q)
    | none ↦ first_hit c m p edges
  ]

  -- The match on the decision.
  unfoldable pub decide : Core → String → Point → Decision → Core × List Action
  decide c target q Decision.switch = enter c target q
  decide c target q Decision.wait = (c, [])
  decide c target q Decision.blocked = (c, [])

  unfoldable pub push_edge :
      Core → Rect → Point → ℕ → Option (Edge × String × Point) → Core × List Action
  unfolding decide
  push_edge c m p now none = (record c { switch = left_edge c.switch }, [])
  push_edge c m p now (some (edge, target, q)) =
      let (switch, decision) =
        evaluate c.switch c.policy now edge true (near_corner m p edge c.policy.corner_size) in
      decide (record c { switch = switch }) target q decision

  -- The pointer on one of the own monitors.
  unfoldable pub on_monitor : Core → Point → ℕ → Option Rect → Core × List Action
  on_monitor c p now none = (c, [])
  on_monitor c p now (some m) =
      let c' = record c { last_local_monitor = some m } in
      push_edge c' m p now (first_hit c' m p all_edges)

  unfoldable pub in_state : Core → Point → ℕ → State → Core × List Action
  unfolding on_monitor
  in_state c p now (State.remote screen at) = (c, [])
  in_state c p now State.local = on_monitor c p now (find (λ m. contains m p) c.local_monitors)

  unfoldable pub on_pointer : Core → Point → ℕ → Core × List Action
  unfolding in_state
  on_pointer c p now = in_state c p now c.state
