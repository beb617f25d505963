-- ===== src/Router/Moves.antt =====
-- router.rs, the transitions and what is forwarded: `forward`, `enter`, `enter_from_remote`,
-- `go_local`.
use geser_desk.Prelude.{◌+◌, ◌%◌, String, List, [], ◌∷◌}
use geser_desk.Geometry.{Point}
use geser_desk.Input.{empty_mods}
use geser_desk.Switch.{switched}
use geser_desk.Message.{ServerMsg, CaptureCmd}
use geser_desk.Router.{Core, State, Action, send, capture}

abbrev pub to_holder : State → ServerMsg → List Action
to_holder State.local msg = []
to_holder (State.remote screen at) msg = send screen msg ∷ []

unfoldable pub forward : Core → ServerMsg → List Action
forward c msg = to_holder c.state msg

-- `seq` is a u64.
unfoldable pub enter_from_remote : Core → String → Point → Core × List Action
enter_from_remote c target at =
    let seq = (c.seq + 1) % 18446744073709551616 in
    (
      record c { seq = seq; switch = switched c.switch; state = State.remote target at },
      send target (ServerMsg.enter at.x at.y seq empty_mods) ∷ [],
    )

unfoldable pub enter : Core → String → Point → Core × List Action
unfolding enter_from_remote
enter c target at =
    let (c', actions) = enter_from_remote c target at in (c', capture CaptureCmd.grab ∷ actions)

unfoldable pub go_local : Core → String → Point → Core × List Action
go_local c from at = (
  record c { state = State.local; switch = switched c.switch },
  send from ServerMsg.leave ∷ capture (CaptureCmd.ungrab at) ∷ [],
)
