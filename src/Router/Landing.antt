-- ===== src/Router/Landing.antt =====
-- Where the handlers of router.rs leave the cursor.
use geser_desk.Prelude.{
  ℕ, ℤ, pos, String, true, false, List, [], ◌∷◌, Option, none, some, ◌≡◌, refl, inl, inr, ◌is◌,
  Bool-cases, Option-cases, any, find, is_empty, add_i32, ◌||◌, not, subst, some_eq,
}
use geser_desk.Geometry.{Point, Rect, point, contains}
use geser_desk.Edge.{Edge, all_edges}
use geser_desk.Floats.{Floats}
use geser_desk.Desk.{to_desk}
use geser_desk.Desk.Inset.{inset_clamp-contains}
use geser_desk.Desk.Nearest.{OnMonitor}
use geser_desk.Switch.{Decision, evaluate}
use geser_desk.Router.{Core, State, Action, send, monitors_of, frame, locate}
use geser_desk.Router.Moves.{enter, enter_from_remote, go_local}
use geser_desk.Router.Pointer.{
  on_pointer, in_state, on_monitor, push_edge, decide, near_corner, first_hit, across, jump_of,
  step, at_edge,
}
use geser_desk.Router.Motion.{
  on_motion, motion_in, motion_on, moved_to, beyond, cross, stay, move_to,
}
use geser_desk.Message.{ServerMsg}
use geser_desk.Router.Safety.{
  IsReady, jump-IsInset, nearest_total, locate-IsPlace, monitors_of-Sound,
}
use geser_desk.Router.Returns.{landing_monitor_total}

-- The input is at this machine, or at a point of a monitor of another one.
abbrev pub IsLanded : Core → State → Type 0
IsLanded c State.local = Unit
IsLanded c (State.remote n q) = (n is c.local ≡ false) × OnMonitor (monitors_of c n) q

abbrev Lands : Core → Option (Core × List Action) → Type 0
Lands c o = (r : Core × List Action) × (o ≡ some r) × IsLanded c r.0.state

stay-IsLanded :
    (c : Core) (screen : String) (p : Point)
    → screen is c.local ≡ false
    → OnMonitor (monitors_of c screen) p
    → IsLanded c (stay c screen p).0.state
unfolding stay
stay-IsLanded c screen p other on = (other, on)

cross-Lands :
    (c : Core) (screen : String) (edge : Point) (next : String) (q : Point)
    → IsReady c
    → OnMonitor (monitors_of c next) q
    → Lands c (cross c screen edge next q)
unfolding cross monitors_of go_local enter_from_remote
cross-Lands c screen edge next q r on = elim (Bool-cases (next is c.local)) [
  | inl t ↦
      let (lm, e, sound) = landing_monitor_total c q r (rw t at on) in
      let (back, b, _, _, _) =
        inset_clamp-contains q lm (add_i32 (jump_of c) (pos 1)) sound (jump-IsInset c r) in
      let home = go_local c screen back in
      ((home.0, move_to screen edge ∷ home.1), rw (t, e, b), tt)
  | inr f ↦
      let there = enter_from_remote c next q in
      ((there.0, move_to screen edge ∷ send screen ServerMsg.leave ∷ there.1), rw f, (f, on))
]

beyond-Lands :
    (fl : Floats) (c : Core) (screen : String) (moved v : Point) (hit : Option (String × Point))
    → locate fl c v screen ≡ hit
    → IsReady c
    → screen is c.local ≡ false
    → is_empty (monitors_of c screen) ≡ false
    → Lands c (beyond fl c screen (monitors_of c screen) moved hit)
unfolding beyond
beyond-Lands fl c screen moved v none h r other e =
    let (p, n, on) = nearest_total moved (monitors_of c screen) (monitors_of-Sound c screen r) e in
    (stay c screen p, rw n, stay-IsLanded c screen p other on)
beyond-Lands fl c screen moved v (some (next, q)) h r other e =
    let (edge, n, _) =
      nearest_total moved (monitors_of c screen) (monitors_of-Sound c screen r) e in
    let (_, on, _) = locate-IsPlace fl c v screen h in
    let (res, k, l) = cross-Lands c screen edge next q r on in (res, rw n k, l)

motion_on-Lands :
    (fl : Floats) (c : Core) (screen : String) (at : Point) (dx dy : ℤ)
    → IsReady c
    → screen is c.local ≡ false
    → is_empty (monitors_of c screen) ≡ false
    → Lands c (motion_on fl c screen at dx dy (monitors_of c screen))
unfolding motion_on moved_to
motion_on-Lands fl c screen at dx dy r other f =
    let mons = monitors_of c screen in
    let (p, n, _) = nearest_total at mons (monitors_of-Sound c screen r) f in
    let moved = point (add_i32 p.x dx) (add_i32 p.y dy) in
    elim (Bool-cases (any (λ m. contains m moved) mons)) [
      | inl t ↦ (stay c screen moved, rw (f, n, t), stay-IsLanded c screen moved other t)
      | inr g ↦
          let v = to_desk fl (frame fl c screen) moved in
          let (res, k, l) =
            beyond-Lands fl c screen moved v (locate fl c v screen) refl r other f in
          (res, rw (f, n, g) k, l)
    ]

-- While a client with monitors has the input and the router is ready, `on_motion` returns, and then the input is
-- at this machine, or at a point on a monitor of a machine that is not this one.
pub on_motion-IsLanded :
    (fl : Floats) (c : Core) (screen : String) (at : Point) (dx dy : ℤ)
    → IsReady c
    → c.state ≡ State.remote screen at
    → screen is c.local ≡ false
    → is_empty (monitors_of c screen) ≡ false
    → (r : Core × List Action) × (on_motion fl c dx dy ≡ some r) × IsLanded c r.0.state
unfolding on_motion motion_in
on_motion-IsLanded fl c screen at dx dy r s other some_monitor =
    let (res, k, l) = motion_on-Lands fl c screen at dx dy r other some_monitor in
    (res, rw (s, motion_in) k, l)

-- A machine beyond an edge.
abbrev IsBeyond : Core → String × Point → Type 0
IsBeyond c (n, q) = (n is c.local ≡ false) × OnMonitor (monitors_of c n) q

across-IsBeyond :
    (fl : Floats) (c : Core) (m : Rect) (p : Point) (edge : Edge) {hit : String × Point}
    → across fl c m p edge ≡ some hit
    → IsBeyond c hit
unfolding across
across-IsBeyond fl c m p edge e =
    let probe = step p edge (jump_of c) in
    elim (Bool-cases
      (not (at_edge m p edge (jump_of c)) || any (λ x. contains x probe) c.local_monitors)) [
        | inl t ↦ cc (rw t at e)
        | inr f ↦
            let (other, on, _) =
              locate-IsPlace fl c (to_desk fl (frame fl c c.local) probe) c.local (rw f at e) in
            (other, on)
      ]

first_hit-IsBeyond :
    (fl : Floats) (c : Core) (m : Rect) (p : Point) (edges : List Edge)
    {hit : Edge × String × Point}
    → first_hit fl c m p edges ≡ some hit
    → IsBeyond c (hit.1, hit.2)
unfolding first_hit
first_hit-IsBeyond fl c m p [] e = cc
first_hit-IsBeyond fl c m p (edge ∷ edges) e = elim (Option-cases (across fl c m p edge)) [
  | inl n ↦ first_hit-IsBeyond fl c m p edges (rw (n, first_hit) at e)
  | inr (at, s) ↦
      subst (λ h. IsBeyond c (h.1, h.2)) (some_eq (rw (s, first_hit) at e))
        (across-IsBeyond fl c m p edge s)
]

decide-IsLanded :
    (fl : Floats) (c : Core) (t : String) (q : Point) (d : Decision)
    → c.state ≡ State.local
    → IsBeyond c (t, q)
    → IsLanded c (decide fl c t q d).0.state
unfolding decide enter enter_from_remote
decide-IsLanded fl c t q Decision.switch s b = b
decide-IsLanded fl c t q Decision.wait s b = rw s tt
decide-IsLanded fl c t q Decision.blocked s b = rw s tt

push_edge-IsLanded :
    (fl : Floats) (c : Core) (m : Rect) (p : Point) (now : ℕ) (hit : Option (Edge × String × Point))
    → first_hit fl c m p all_edges ≡ hit
    → c.state ≡ State.local
    → IsLanded c (push_edge fl c m p now hit).0.state
unfolding push_edge monitors_of
push_edge-IsLanded fl c m p now none e s = rw s tt
push_edge-IsLanded fl c m p now (some (edge, target, q)) e s =
    let (switch, decision) =
      evaluate c.switch c.policy now edge true (near_corner m p edge c.policy.corner_size) in
    decide-IsLanded fl (record c { switch = switch }) target q decision s
      (first_hit-IsBeyond fl c m p all_edges e)

-- While this machine has the input, `on_pointer` leaves it here, or gives it to another machine at a point
-- on one of that machine's monitors.
pub on_pointer-IsLanded :
    (fl : Floats) (c : Core) (p : Point) (now : ℕ)
    → c.state ≡ State.local
    → IsLanded c (on_pointer fl c p now).0.state
unfolding on_pointer in_state on_monitor monitors_of
on_pointer-IsLanded fl c p now s = elim (Option-cases (find (λ m. contains m p) c.local_monitors)) [
  | inl n ↦ rw (s, in_state, n, on_monitor, s) tt
  | inr (m, e) ↦
      rw (s, in_state, e, on_monitor)
        (push_edge-IsLanded fl (record c { last_local_monitor = some m }) m p now _ refl s)
]
