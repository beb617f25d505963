-- ===== src/Router/Motion.antt =====
-- router.rs, remote mode: `on_motion`.
use geser_desk.Prelude.{
  ℤ, pos, String, List, [], ◌∷◌, Option, none, some, ◌>>=◌, if◌then◌else◌, any, find, is_empty,
  head?, add_i32, ◌is◌,
}
use geser_desk.Geometry.{Point, Rect, point, contains}
use geser_desk.Input.{move_abs}
use geser_desk.Desk.{to_desk, nearest_point, inset_clamp}
use geser_desk.Floats.{Floats}
use geser_desk.Message.{ServerMsg}
use geser_desk.Router.{Core, State, Action, send, frame, locate, monitors_of}
use geser_desk.Router.Moves.{enter_from_remote, go_local}
use geser_desk.Router.Pointer.{jump_of}

abbrev pub move_to : String → Point → Action
move_to screen p = send screen (ServerMsg.mouse (move_abs p.x p.y))

-- `find(contains q).unwrap_or(local_monitors[0])`
unfoldable pub landing_monitor : List Rect → Point → Option Rect
landing_monitor ms q = elim (find (λ m. contains m q) ms) [ some m ↦ some m | none ↦ head? ms ]

-- The cursor stays on the machine.
unfoldable pub stay : Core → String → Point → Core × List Action
stay c screen p = (record c { state = State.remote screen p }, move_to screen p ∷ [])

-- The cursor leaves at `edge` for the machine `next`, where it is `q`.
unfoldable pub cross : Core → String → Point → String → Point → Option (Core × List Action)
unfolding landing_monitor
cross c screen edge next q =
    if next is c.local
    then (do
      lm ← landing_monitor c.local_monitors q
      back ← inset_clamp q lm (add_i32 (jump_of c) (pos 1))
      let r = go_local c screen back
      some (r.0, move_to screen edge ∷ r.1))
    else (let r = enter_from_remote c next q in
        some (r.0, move_to screen edge ∷ send screen ServerMsg.leave ∷ r.1))

module _ (fl : Floats) where
  -- Off the machine's monitors: is another machine's monitor there on the desk?
  unfoldable pub beyond :
      Core → String → List Rect → Point → Option (String × Point) → Option (Core × List Action)
  beyond c screen mons moved none = do p ← nearest_point moved mons; some (stay c screen p)
  beyond c screen mons moved (some (next, q)) = do
    edge ← nearest_point moved mons
    cross c screen edge next q

  unfoldable pub moved_to : Core → String → List Rect → Point → Option (Core × List Action)
  unfolding beyond
  moved_to c screen mons moved =
      if any (λ m. contains m moved) mons
      then some (stay c screen moved)
      else beyond c screen mons moved (locate fl c (to_desk fl (frame fl c screen) moved) screen)

  -- The client may have re-arranged its monitors under the cursor, so it is snapped first.
  unfoldable pub motion_on : Core → String → Point → ℤ → ℤ → List Rect → Option (Core × List Action)
  motion_on c screen at dx dy mons =
      if is_empty mons
      then some (c, [])
      else (nearest_point at mons >>= λ p.
          moved_to c screen mons (point (add_i32 p.x dx) (add_i32 p.y dy)))

  unfoldable pub motion_in : Core → ℤ → ℤ → State → Option (Core × List Action)
  unfolding motion_on
  motion_in c dx dy State.local = some (c, [])
  motion_in c dx dy (State.remote screen at) = motion_on c screen at dx dy (monitors_of c screen)

  unfoldable pub on_motion : Core → ℤ → ℤ → Option (Core × List Action)
  unfolding motion_in
  on_motion c dx dy = motion_in c dx dy c.state
