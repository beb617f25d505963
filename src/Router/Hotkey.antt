-- ===== src/Router/Hotkey.antt =====
-- router.rs: `on_hotkey` and `on_grab_failed`.
use geser_desk.Prelude.{
  ℤ, String, Bool, List, [], ◌∷◌, Option, none, some, ◌||◌, ◌&&◌, ◌>>=◌, if◌then◌else◌, sub_i32,
  add_i64, mul_i64, ltb_ℤ, eqb_ℤ, Map, lookup, str_ltb,
}
use geser_desk.Geometry.{Point, Rect, center, union_all}
use geser_desk.Switch.{switched}
use geser_desk.Desk.{to_desk}
use geser_desk.Floats.{Floats}
use geser_desk.Message.{ServerMsg}
use geser_desk.Router.{Core, State, Action, send, frame, snap_into, local_center, centre_or_zero}
use geser_desk.Router.Moves.{enter, go_local}

-- The tuples `(distance, name)` and their order.
abbrev pub Candidate : Type 0
Candidate = ℤ × String

abbrev pub nearer : Candidate → Candidate → Bool
nearer (d, n) (e, m) = ltb_ℤ d e || (eqb_ℤ d e && str_ltb n m)

unfoldable pub minimum : List Candidate → Option Candidate
minimum [] = none
minimum (a ∷ rest) = elim (minimum rest) [
  | none ↦ some a
  | some b ↦ some (if nearer b a then b else a)
]

module _ (fl : Floats) where
  -- How far the middle of a machine is from the desk point `lc`, if it has monitors.
  unfoldable pub candidate : Core → Point → String → List Rect → Option Candidate
  candidate c lc n mons = do
    r ← union_all mons
    let at = to_desk fl (frame fl c n) (center r)
    let dx = sub_i32 at.x lc.x
    let dy = sub_i32 at.y lc.y
    some (add_i64 (mul_i64 dx dx) (mul_i64 dy dy), n)

  unfoldable pub candidates : Core → Point → Map (List Rect) → List Candidate
  unfolding candidate
  candidates c lc [] = []
  candidates c lc ((n, mons) ∷ rest) = elim (candidate c lc n mons) [
    | none ↦ candidates c lc rest
    | some a ↦ a ∷ candidates c lc rest
  ]

  -- The nearest connected machine on the desk.
  unfoldable pub nearest_machine : Core → Option Candidate
  unfolding candidates
  nearest_machine c =
      let lc = to_desk fl (frame fl c c.local) (centre_or_zero (union_all c.local_monitors)) in
      minimum (candidates c lc c.connected)

  unfoldable pub hotkey_to : Core → Option Candidate → Option (Core × List Action)
  hotkey_to c none = some (c, [])
  hotkey_to c (some (d, t)) = do
    mons ← lookup t c.connected
    at ← snap_into c t (centre_or_zero (union_all mons))
    some (enter c t at)

  unfoldable pub hotkey_in : Core → State → Option (Core × List Action)
  unfolding hotkey_to
  hotkey_in c (State.remote screen at) = do back ← local_center c; some (go_local c screen back)
  hotkey_in c State.local = hotkey_to c (nearest_machine c)

  unfoldable pub on_hotkey : Core → Option (Core × List Action)
  unfolding hotkey_in
  on_hotkey c = hotkey_in c c.state

unfoldable pub grab_failed_in : Core → State → Core × List Action
grab_failed_in c State.local = (record c { state = State.local }, [])
grab_failed_in c (State.remote screen at) =
    (record c { state = State.local; switch = switched c.switch }, send screen ServerMsg.leave ∷ [])

unfoldable pub on_grab_failed : Core → Core × List Action
unfolding grab_failed_in
on_grab_failed c = grab_failed_in c c.state
