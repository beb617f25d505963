-- ===== src/Router/Returns.antt =====
-- Every handler of router.rs returns, and keeps the router ready.
use geser_desk.Prelude.{
  ℕ, ℤ, pos, String, true, false, List, [], ◌∷◌, ◌++◌, Option, none, some, ◌||◌, arith, ◌≡◌, refl,
  ap, inl, inr, ◌is◌, is_iff, Bool-cases, Option-cases, any, find-any, find-All, is_empty, All,
  All-map, lookup, has_key, Map, add_i32, subst, some_eq,
}
use geser_desk.Geometry.{Point, Rect, point, contains, union_all}
use geser_desk.Geometry.Bounds.{IsSound}
use geser_desk.Message.{CaptureEvent, ServerMsg}
use geser_desk.Floats.{Floats}
use geser_desk.Desk.{to_desk}
use geser_desk.Desk.Inset.{inset_clamp-contains}
use geser_desk.Desk.Nearest.{OnMonitor}
use geser_desk.Router.{Core, State, Action, send, monitors_of, frame, locate, centre_or_zero}
use geser_desk.Router.Moves.{enter, enter_from_remote, go_local}
use geser_desk.Router.Pointer.{on_pointer, jump_of}
use geser_desk.Router.Hotkey.{
  Candidate, on_hotkey, hotkey_in, hotkey_to, nearest_machine, candidates, candidate, minimum,
  nearer, on_grab_failed,
}
use geser_desk.Router.Motion.{
  on_motion, motion_in, moved_to, beyond, cross, stay, move_to, landing_monitor,
}
use geser_desk.Router.KeyInput.{on_key, fired_action}
use geser_desk.Router.Handlers.{handle}
use geser_desk.Router.Safety.{
  IsReady, snap_into_total, local_center_total, jump-IsInset, nearest_total, locate-IsPlace,
  monitors_of-Sound,
}
use geser_desk.Router.Ready.{
  Returns, in_state-IsReady, go_local-IsReady, enter_from_remote-IsReady, enter-IsReady,
  stay-IsReady, grab_failed_in-IsReady, key_in-IsReady,
}

minimum-All {ℓ} :
    (P : Candidate → Type ℓ) (l : List Candidate) {a : Candidate}
    → All P l
    → minimum l ≡ some a
    → P a
unfolding minimum
minimum-All P [] h e = cc
minimum-All P (x ∷ xs) h e = elim (Option-cases (minimum xs)) [
  | inl p ↦ subst P (some_eq (rw (p, minimum) at e)) h.0
  | inr (b, p) ↦ elim (Bool-cases (nearer b x)) [
    | inl t ↦ subst P (some_eq (rw (p, t) at e)) (minimum-All P xs h.1 p)
    | inr f ↦ subst P (some_eq (rw (p, f) at e)) h.0
  ]
]

-- The candidates of the hotkey are connected machines.
candidate-name :
    (fl : Floats) (c : Core) (lc : Point) (n : String) (mons : List Rect) {a : Candidate}
    → candidate fl c lc n mons ≡ some a
    → n ≡ a.1
unfolding candidate
candidate-name fl c lc n mons e = elim (Option-cases (union_all mons)) [
  | inl p ↦ cc (rw (p, candidate) at e)
  | inr (r, p) ↦ ap (λ (a : Candidate). a.1) (some_eq (rw (p, candidate) at e))
]

abbrev HasKey : Map (List Rect) → Candidate → Type 0
HasKey m a = has_key a.1 m ≡ true

has_key-cons :
    (n j : String) (ms : List Rect) (m : Map (List Rect))
    → (j is n) || has_key n m ≡ true
    → has_key n ((j, ms) ∷ m) ≡ true
unfolding has_key lookup
has_key-cons n j ms m h = ground (arith, h)

candidates-HasKey :
    (fl : Floats) (c : Core) (lc : Point) (m : Map (List Rect))
    → All (HasKey m) (candidates fl c lc m)
unfolding candidates
candidates-HasKey fl c lc [] = tt
candidates-HasKey fl c lc ((n, mons) ∷ m) =
    let rest =
      All-map {Q = HasKey ((n, mons) ∷ m)} (λ a h. has_key-cons a.1 n mons m (ground (arith, h)))
        (candidates fl c lc m) (candidates-HasKey fl c lc m) in
    elim (Option-cases (candidate fl c lc n mons)) [
      | inl p ↦ rw (p, candidates) rest
      | inr (a, p) ↦
          rw (p, candidates)
            (
              has_key-cons a.1 n mons m
                  (ground (arith, is_iff n a.1, candidate-name fl c lc n mons p)),
              rest,
            )
    ]

connected_of_key :
    (n : String) (m : Map (List Rect))
    → has_key n m ≡ true
    → (mons : List Rect) × (lookup n m ≡ some mons)
unfolding has_key
connected_of_key n m h = elim (Option-cases (lookup n m)) [
  | inl p ↦ cc (rw (p, has_key) at h)
  | inr q ↦ q
]

hotkey_to-Returns :
    (fl : Floats) (c : Core) (t : Option Candidate)
    → nearest_machine fl c ≡ t
    → IsReady c
    → Returns (hotkey_to fl c t)
unfolding hotkey_to nearest_machine
hotkey_to-Returns fl c none e r = ((c, []), refl, r)
hotkey_to-Returns fl c (some (d, t)) e r =
    let (mons, found) =
      connected_of_key t c.connected
        (minimum-All (HasKey c.connected) _ (candidates-HasKey fl c _ c.connected) e) in
    let (at, snapped) = snap_into_total c t (centre_or_zero (union_all mons)) r in
    (enter c t at, rw (found, snapped), enter-IsReady c t at r)

hotkey_in-Returns : (fl : Floats) (c : Core) (st : State) → IsReady c → Returns (hotkey_in fl c st)
unfolding hotkey_in
hotkey_in-Returns fl c State.local r = hotkey_to-Returns fl c (nearest_machine fl c) refl r
hotkey_in-Returns fl c (State.remote screen at) r =
    let (back, e) = local_center_total c r in
    (go_local c screen back, rw e, go_local-IsReady c screen back r)

pub landing_monitor_total :
    (c : Core) (q : Point)
    → IsReady c
    → OnMonitor c.local_monitors q
    → (m : Rect) × (landing_monitor c.local_monitors q ≡ some m) × IsSound m
unfolding landing_monitor
landing_monitor_total c q r on =
    let (m, e, h) = find-any (λ m. contains m q) c.local_monitors on in
    (
      m,
      rw (e, landing_monitor),
      find-All IsSound (λ m. contains m q) c.local_monitors r.local_sound e,
    )

-- A result with actions put in front of its own.
abbrev after : List Action → Core × List Action → Core × List Action
after acts r = (r.0, acts ++ r.1)

cross-Returns :
    (c : Core) (screen : String) (edge : Point) (next : String) (q : Point)
    → IsReady c
    → OnMonitor (monitors_of c next) q
    → Returns (cross c screen edge next q)
unfolding cross monitors_of
cross-Returns c screen edge next q r on = elim (Bool-cases (next is c.local)) [
  | inl t ↦
      let (lm, e, sound) = landing_monitor_total c q r (rw t at on) in
      let (back, b, _, _, _) =
        inset_clamp-contains q lm (add_i32 (jump_of c) (pos 1)) sound (jump-IsInset c r) in
      (
        after (move_to screen edge ∷ []) (go_local c screen back),
        rw (t, e, b),
        go_local-IsReady c screen back r,
      )
  | inr f ↦ (
    after (move_to screen edge ∷ send screen ServerMsg.leave ∷ []) (enter_from_remote c next q),
    rw f,
    enter_from_remote-IsReady c next q r,
  )
]

beyond-Returns :
    (fl : Floats) (c : Core) (screen : String) (mons : List Rect) (moved v : Point)
    (hit : Option (String × Point))
    → locate fl c v screen ≡ hit
    → IsReady c
    → All IsSound mons
    → is_empty mons ≡ false
    → Returns (beyond fl c screen mons moved hit)
unfolding beyond
beyond-Returns fl c screen mons moved v none h r a e =
    let (p, n, _) = nearest_total moved mons a e in
    (stay c screen p, rw n, stay-IsReady c screen p r)
beyond-Returns fl c screen mons moved v (some (next, q)) h r a e =
    let (edge, n, _) = nearest_total moved mons a e in
    let (_, on, _) = locate-IsPlace fl c v screen h in
    let (res, k, ready) = cross-Returns c screen edge next q r on in (res, rw n k, ready)

motion_in-Returns :
    (fl : Floats) (c : Core) (dx dy : ℤ) (st : State)
    → IsReady c
    → Returns (motion_in fl c dx dy st)
unfolding motion_in moved_to
motion_in-Returns fl c dx dy State.local r = ((c, []), refl, r)
motion_in-Returns fl c dx dy (State.remote screen at) r =
    let mons = monitors_of c screen in
    let sound = monitors_of-Sound c screen r in
    elim (Bool-cases (is_empty mons)) [
      | inl t ↦ ((c, []), rw t, r)
      | inr f ↦
          let (p, n, _) = nearest_total at mons sound f in
          let moved = point (add_i32 p.x dx) (add_i32 p.y dy) in
          elim (Bool-cases (any (λ m. contains m moved) mons)) [
            | inl t ↦ (stay c screen moved, rw (f, n, t), stay-IsReady c screen moved r)
            | inr g ↦
                let v = to_desk fl (frame fl c screen) moved in
                let (res, k, ready) =
                  beyond-Returns fl c screen mons moved v (locate fl c v screen) refl r sound f in
                (res, rw (f, n, g) k, ready)
          ]
    ]

-- While the monitors of every machine are sound and the jump zone is small, `handle` returns for every event: it meets no
-- clamp with crossed bounds, no missing key and no index out of range. The router it leaves is as sound.
pub handle_returns :
    (fl : Floats) (c : Core) (ev : CaptureEvent) (now : ℕ)
    → IsReady c
    → (r : Core × List Action) × (handle fl c ev now ≡ some r) × IsReady r.0
unfolding handle on_pointer on_hotkey on_grab_failed on_motion on_key
handle_returns fl c (CaptureEvent.pointer p) now r =
    (_, refl, in_state-IsReady fl c p now c.state r)
handle_returns fl c CaptureEvent.hotkey now r = hotkey_in-Returns fl c c.state r
handle_returns fl c CaptureEvent.grab_failed now r = (_, refl, grab_failed_in-IsReady c c.state r)
handle_returns fl c (CaptureEvent.motion dx dy) now r = motion_in-Returns fl c dx dy c.state r
handle_returns fl c (CaptureEvent.button b pressed) now r = (_, refl, r)
handle_returns fl c (CaptureEvent.wheel dx dy) now r = (_, refl, r)
handle_returns fl c (CaptureEvent.key k) now r =
    (_, refl, key_in-IsReady c k (fired_action k.hid c.fired) r)
