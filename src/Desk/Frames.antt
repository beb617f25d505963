-- ===== src/Desk/Frames.antt =====
-- The maps of a `Frame` of desk.rs when no desk size stretches the machine.
use geser_desk.Prelude.{
  ℤ, Option, none, arith, ◌≡◌, ap₂, InI32, add_i32, sub_i32, add_i32_residue, sub_i32_residue,
  eq_of_residue, add_i32-InI32, sub_i32-InI32,
}
use geser_desk.Geometry.{Point, Rect, point}
use geser_desk.Floats.{Floats}
use geser_desk.Desk.{frame_new, to_desk, to_local, axis_to_desk, axis_to_local}

-- The sums of the two maps cancel, whatever wraps on the way.
unshift :
    (v base origin : ℤ)
    → InI32 v
    → add_i32 base (sub_i32 (sub_i32 (add_i32 (add_i32 origin base) (sub_i32 v base)) origin) base)
      ≡ v
unshift v base origin h =
    let a = add_i32 origin base in
    let b = sub_i32 v base in
    let c = add_i32 a b in
    let d = sub_i32 c origin in
    let e = sub_i32 d base in
    eq_of_residue (add_i32 base e) v (add_i32-InI32 base e) h (
      omega (
        arith,
        add_i32_residue origin base,
        sub_i32_residue v base,
        add_i32_residue a b,
        sub_i32_residue c origin,
        sub_i32_residue d base,
        add_i32_residue base e,
      ))

shift : (v base origin : ℤ) → add_i32 (add_i32 origin base) (sub_i32 v base) ≡ add_i32 origin v
shift v base origin =
    let a = add_i32 origin base in
    let b = sub_i32 v base in
    eq_of_residue (add_i32 a b) (add_i32 origin v) (add_i32-InI32 a b) (add_i32-InI32 origin v) (
      omega (
        arith,
        add_i32_residue origin base,
        sub_i32_residue v base,
        add_i32_residue a b,
        add_i32_residue origin v,
      ))

module _ (fl : Floats) where
  axis_round_trip :
      (v base origin : ℤ)
      → InI32 v
      → axis_to_local fl (axis_to_desk fl v base origin fl.one) base origin fl.one ≡ v
  unfolding axis_to_local axis_to_desk
  axis_round_trip v base origin h = rw (fl.round-mul_one (sub_i32 v base) (sub_i32-InI32 v base)) (
      let d = sub_i32 (sub_i32 (add_i32 (add_i32 origin base) (sub_i32 v base)) origin) base in
      rw (fl.floor-div_one d (sub_i32-InI32 _ base)) (unshift v base origin h))

  axis_shift : (v base origin : ℤ) → axis_to_desk fl v base origin fl.one ≡ add_i32 origin v
  unfolding axis_to_desk
  axis_shift v base origin =
      rw (fl.round-mul_one (sub_i32 v base) (sub_i32-InI32 v base)) (shift v base origin)

  -- A machine with no desk size of its own lies on the desk shifted by its origin, and a point of the machine
  -- is found again under its place on the desk. That holds of all i32 coordinates: what wraps one way
  -- wraps back the other.
  pub to_local-to_desk :
      (origin : Point) (bounds : Option Rect) (p : Point)
      → InI32 p.x
      → InI32 p.y
      → let f = frame_new fl origin bounds none in
        (to_desk fl f p ≡ point (add_i32 origin.x p.x) (add_i32 origin.y p.y))
        × (to_local fl f (to_desk fl f p) ≡ p)
  unfolding frame_new to_desk to_local
  to_local-to_desk origin bounds p hx hy = (
    ap₂ point (axis_shift p.x _ origin.x) (axis_shift p.y _ origin.y),
    ap₂ point (axis_round_trip p.x _ origin.x hx) (axis_round_trip p.y _ origin.y hy),
  )
