-- ===== src/Examples/Landing.antt =====
-- Where router.rs leaves the cursor, at the desk of two machines.
use geser_desk.Prelude.{pos, negsuc, false, List, some, is_empty, lookup, ◌≡◌, refl}
use geser_desk.Geometry.{point}
use geser_desk.Router.{Core, Action, monitors_of}
use geser_desk.Router.Pointer.{on_pointer}
use geser_desk.Router.Motion.{on_motion}
use geser_desk.Router.Landing.{IsLanded, on_motion-IsLanded, on_pointer-IsLanded}
use geser_desk.Examples.Rationals.{rationals}
use geser_desk.Examples.Router.{idle, away, away-IsReady}

has_monitors : is_empty (monitors_of away "win") ≡ false
unfolding monitors_of lookup
has_monitors = refl

on_motion-IsLanded_example :
    (r : Core × List Action) × (on_motion rationals away (negsuc 49) (pos 0) ≡ some r)
    × IsLanded away r.0.state
on_motion-IsLanded_example =
    on_motion-IsLanded rationals away "win" (point (pos 0) (pos 540)) (negsuc 49) (pos 0)
      away-IsReady refl refl has_monitors

on_pointer-IsLanded_example :
    IsLanded idle (on_pointer rationals idle (point (pos 1919) (pos 540)) 0).0.state
on_pointer-IsLanded_example = on_pointer-IsLanded rationals idle (point (pos 1919) (pos 540)) 0 refl
