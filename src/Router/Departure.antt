-- ===== src/Router/Departure.antt =====
-- `client_disconnected` of router.rs on a ready router: what becomes of the cursor.
use geser_desk.Prelude.{
  String, true, false, List, [], ◌∷◌, none, some, ◌>>=◌, if◌then◌else◌, ◌≡◌, refl, ap, ◌∙◌, inl,
  inr, Bool-cases, ◌is◌, ◌⊎◌, lookup, lookup-remove, remove, remove-Values, All,
}
use geser_desk.Geometry.{Point}
use geser_desk.Geometry.Bounds.{IsSound}
use geser_desk.Switch.{switched}
use geser_desk.Message.{CaptureCmd}
use geser_desk.Router.{Core, State, Action, capture, local_center}
use geser_desk.Router.Handlers.{client_disconnected, gone, take_back}
use geser_desk.Router.Session.{session_of, holds, active_screen, replay}
use geser_desk.Router.Protocol.{vanish, client_disconnected-Follows}
use geser_desk.Router.Safety.{IsReady, refresh_origins_total, local_center_total}

-- Nothing happens to the cursor.
abbrev Stays : Core → Core × List Action → Type 0
Stays c r = (r.1 ≡ []) × (r.0.state ≡ c.state) × (r.0.switch ≡ c.switch)

-- The cursor comes home to the middle of the local monitor, and the devices are let go there.
abbrev ComesHome : Core → Core × List Action → Type 0
ComesHome c r =
    (r.0.state ≡ State.local)
    × (r.0.switch ≡ switched c.switch)
    × (back : Point) × (local_center r.0 ≡ some back)
    × (r.1 ≡ capture (CaptureCmd.ungrab back) ∷ [])

-- The machines that are connected, and what the handler needs, are those of `c`.
abbrev Keeps : Core → Core → Type 0
Keeps c d = (d.connected ≡ c.connected) × IsReady d

abbrev Left : Core → String → State → Core × List Action → Type 0
Left c name st r =
    Keeps c r.0
    × (((holds (active_screen st) name ≡ true) × ComesHome c r)
        ⊎ ((holds (active_screen st) name ≡ false) × Stays c r))

take_back_total :
    (c : Core)
    → IsReady c
    → (r : Core × List Action) × (take_back c ≡ some r) × Keeps c r.0 × ComesHome c r
unfolding take_back
take_back_total c ready =
    let c' : Core = record c { state = State.local; switch = switched c.switch } in
    let ready' : IsReady c' = record {
      local_sound = ready.local_sound;
      clients_sound = ready.clients_sound;
      small_jump = ready.small_jump;
    } in
    let (back, e) = local_center_total c' ready' in
    ((c', capture (CaptureCmd.ungrab back) ∷ []), rw e, (refl, ready'), (refl, refl, back, e, refl))

gone_total :
    (c : Core) (name : String) (st : State)
    → c.state ≡ st
    → IsReady c
    → (r : Core × List Action) × (gone c name st ≡ some r) × Left c name st r
unfolding gone
gone_total c name State.local e ready =
    ((c, []), refl, ((refl, ready), inr (refl, (refl, refl, refl))))
gone_total c name (State.remote screen at) e ready = elim (Bool-cases (screen is name)) [
  | inl t ↦
      let (r, returned, kept, home) = take_back_total c ready in
      (r, rw t returned, (kept, inl (t, home)))
  | inr f ↦ ((c, []), rw f, ((refl, ready), inr (f, (refl, refl, refl))))
]

-- The result, when the client `name` has gone away from the router `c`.
abbrev pub IsWithout : Core → String → Core × List Action → Type 0
IsWithout c name r =
    ((n : String) → lookup n r.0.connected ≡ (if name is n then none else lookup n c.connected))
    × IsReady r.0
    × (((holds (active_screen c.state) name ≡ true) × ComesHome c r)
        ⊎ ((holds (active_screen c.state) name ≡ false) × Stays c r))
    × (replay (vanish name (session_of c)) r.1 ≡ some (session_of r.0))

-- When a client goes away from a ready router, the handler returns, and the router is ready again. That client is
-- no longer connected, and the others are as before. If it had the cursor, the input is back on this machine,
-- the switch state is as after a switch, and the only action is to let the devices go, at `local_center`; if it
-- had not, there is no action, and the input and the switch state stay as they were. The actions follow the
-- protocol from the session without that client, and end in the session of the new state.
pub client_disconnected_lem :
    (c : Core) (name : String)
    → IsReady c
    → (r : Core × List Action) × (client_disconnected c name ≡ some r) × IsWithout c name r
unfolding client_disconnected
client_disconnected_lem c name ready =
    let c' : Core = record c { connected = remove name c.connected } in
    let (origins, fresh) = refresh_origins_total c' in
    let d : Core = record c' { origins = origins } in
    let ready' : IsReady d = record {
      local_sound = ready.local_sound;
      clients_sound = remove-Values (All IsSound) name c.connected ready.clients_sound;
      small_jump = ready.small_jump;
    } in
    let (r, returned, ((kept, sound), went)) = gone_total d name c.state refl ready' in
    let done : client_disconnected c name ≡ some r =
      ap (λ o. o >>= λ x. gone x name x.state) fresh ∙ returned in
    (
      r,
      done,
      (
        λ n. ap (lookup n) kept ∙ lookup-remove name n c.connected,
        sound,
        went,
        client_disconnected-Follows c name (r.0) (r.1) done,
      ),
    )
