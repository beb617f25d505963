-- ===== src/Router/Safety.antt =====
-- The handlers of router.rs return, and keep the router ready, when its monitors are sound.
use geser_desk.Prelude.{
  ◌≤◌, ℤ, pos, negsuc, pos_part, neg_part, String, false, List, [], ◌∷◌, some, ◌&&◌, not, arith,
  ◌≡◌, refl, inl, inr, ◌is◌, Bool-cases, any, is_empty, All, lookup, Map, length, max_ℤ, add_i32,
  add_i32_parts, one_part, subst, some_eq,
}
use geser_desk.Geometry.{Point, Rect, contains}
use geser_desk.Geometry.Bounds.{IsSound}
use geser_desk.Floats.{Floats}
use geser_desk.Desk.{nearest_point, to_local, desk_size}
use geser_desk.Desk.Inset.{IsInset}
use geser_desk.Desk.Nearest.{nearest_point-OnMonitor, OnMonitor}
use geser_desk.Desk.Origins.Total.{effective_origins_total}
use geser_desk.Router.{
  Core, monitors_of, or_no_monitors, frame, locate, locate_in, local_center, snap_into,
  refresh_origins, home, centre_or_zero,
}
use geser_desk.Router.Pointer.{jump_of}

-- The monitors of every entry are sound.
abbrev pub AllSound : Map (List Rect) → Type 0
AllSound m = All (λ e. All IsSound e.1) m

-- What the handlers need of the router's configuration.
pub record IsReady (c : Core) : Type 0 where
  pub local_sound : All IsSound c.local_monitors
  pub clients_sound : AllSound c.connected
  pub small_jump : pos_part c.policy.jump_zone ≤ 1073741821

lookup-Sound :
    (n : String) (m : Map (List Rect)) → AllSound m → All IsSound (or_no_monitors (lookup n m))
unfolding lookup
lookup-Sound n [] a = tt
lookup-Sound n ((j, ms) ∷ m) a = elim (Bool-cases (j is n)) [
  | inl t ↦ rw (t, lookup) a.0
  | inr f ↦ rw (f, lookup) (lookup-Sound n m a.1)
]

pub monitors_of-Sound : (c : Core) (n : String) → IsReady c → All IsSound (monitors_of c n)
unfolding monitors_of
monitors_of-Sound c n r = elim (Bool-cases (n is c.local)) [
  | inl t ↦ rw t r.local_sound
  | inr f ↦ rw f (lookup-Sound n c.connected r.clients_sound)
]

-- Some monitor is there to snap to.
pub nearest_total :
    (p : Point) (ms : List Rect)
    → All IsSound ms
    → is_empty ms ≡ false
    → (q : Point) × (nearest_point p ms ≡ some q) × OnMonitor ms q
nearest_total p [] a e = cc
nearest_total p (m ∷ ms) a e = nearest_point-OnMonitor p m ms a

pub snap_into_total :
    (c : Core) (n : String) (p : Point) → IsReady c → (q : Point) × (snap_into c n p ≡ some q)
unfolding snap_into
snap_into_total c n p r = elim (Bool-cases (is_empty (monitors_of c n))) [
  | inl t ↦ (p, rw t)
  | inr f ↦
      let (q, e, o) = nearest_total p (monitors_of c n) (monitors_of-Sound c n r) f in (q, rw f e)
]

pub local_center_total : (c : Core) → IsReady c → (q : Point) × (local_center c ≡ some q)
unfolding local_center
local_center_total c r = snap_into_total c c.local (centre_or_zero (home c)) r

-- The origins are always found; nothing else changes.
pub refresh_origins_total :
    (c : Core) → (origins : Map Point) × (refresh_origins c ≡ some (record c { origins = origins }))
unfolding refresh_origins
refresh_origins_total c =
    let (m, e, _, _, _, _) =
      effective_origins_total (length c.layout.screens) c.layout.screens c.local c.layout
        c.positions (λ name. desk_size (monitors_of c name) (lookup name c.sizes)) (omega arith) in
    (m, rw e)

-- `max(jump_zone, 1) + 1` is an inset whose double fits.
jump_range :
    (z : ℤ)
    → pos_part z ≤ 1073741821
    → (neg_part (max_ℤ z (pos 1)) ≡ 0) × (pos_part (max_ℤ z (pos 1)) ≤ 1073741821)
unfolding max_ℤ
jump_range (pos n) h = ground arith
jump_range (negsuc n) h = ground arith

pub jump-IsInset : (c : Core) → IsReady c → IsInset (add_i32 (jump_of c) (pos 1))
jump-IsInset c r =
    let (n, p) = jump_range c.policy.jump_zone r.small_jump in
    let parts = add_i32_parts (jump_of c) (pos 1) (omega (arith, p)) (omega (arith, n)) in
    omega (arith, parts, n, p, one_part (add_i32 (jump_of c) (pos 1)))

-- A place on a monitor of a machine, under the desk point `v`.
abbrev pub IsPlace : Floats → Core → Point → String → String × Point → Type 0
IsPlace fl c v exclude (n, q) =
    (n is exclude ≡ false) × OnMonitor (monitors_of c n) q × (q ≡ to_local fl (frame fl c n) v)

-- What `locate` finds lies on a monitor of the machine that it names, which is not the one left out.
pub locate_in-IsPlace :
    (fl : Floats) (c : Core) (v : Point) (exclude : String) (ns : List String)
    {hit : String × Point}
    → locate_in fl c v exclude ns ≡ some hit
    → IsPlace fl c v exclude hit
unfolding locate_in
locate_in-IsPlace fl c v exclude [] e = cc
locate_in-IsPlace fl c v exclude (m ∷ ms) e =
    let q = to_local fl (frame fl c m) v in
    elim (Bool-cases (not (m is exclude) && any (λ r. contains r q) (monitors_of c m))) [
      | inl t ↦
          subst (IsPlace fl c v exclude) (some_eq (rw t at e))
            (ground (arith, t), ground (arith, t), refl)
      | inr f ↦ locate_in-IsPlace fl c v exclude ms (rw f at e)
    ]

pub locate-IsPlace :
    (fl : Floats) (c : Core) (v : Point) (exclude : String) {hit : String × Point}
    → locate fl c v exclude ≡ some hit
    → IsPlace fl c v exclude hit
unfolding locate
locate-IsPlace fl c v exclude e = locate_in-IsPlace fl c v exclude _ e
