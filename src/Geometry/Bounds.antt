-- ===== src/Geometry/Bounds.antt =====
-- Rectangles of geometry.rs whose sides do not overflow: `contains` and `clamp`.
use geser_desk.Prelude.{
  ◌+◌, ◌≤◌, ◌<◌, ℤ, pos, pos_part, neg_part, true, some, arith, ◌≡◌, ◌≤ℤ◌, ◌<ℤ◌, clamp_ℤ_lem,
  clamped, add_i32_parts, sub_i32_parts, InI32, one_part, add_i32, sub_i32, clamped_bounds,
  clamped_inside, leb_ℤ, ltb_ℤ, ◌↔◌, ap₂, ℕ, ◌-◌,
}
use geser_desk.Geometry.{Point, Rect, point, contains, clamp}

-- A side `[at, at + len)` with room for a pixel, whose far end is an i32 value.
pub record IsSide (at len : ℤ) : Type 0 where
  pub start_range : InI32 at
  pub wide : pos 0 <ℤ len
  pub end_fits : pos_part at + pos_part len < 2147483648 + neg_part at

-- A rectangle with an area whose far sides are i32 values.
pub record IsSound (r : Rect) : Type 0 where
  pub across : IsSide r.x r.w
  pub down : IsSide r.y r.h

-- `v` lies on the side, in exact arithmetic.
abbrev pub OnSide : ℤ → ℤ → ℤ → Type 0
OnSide at len v = (at ≤ℤ v) × (pos_part v + neg_part at < pos_part at + pos_part len + neg_part v)

-- The point lies in the rectangle, in exact arithmetic.
abbrev pub Within : Rect → Point → Type 0
Within r p = OnSide r.x r.w p.x × OnSide r.y r.h p.y

-- The far end of such a side, and the last pixel before it, are the exact values.
pub far_end :
    (at len : ℤ)
    → IsSide at len
    → (pos_part (add_i32 at len) + neg_part at
        ≡ neg_part (add_i32 at len) + pos_part at + pos_part len)
      × (pos_part (sub_i32 (add_i32 at len) (pos 1)) + neg_part at + 1
          ≡ neg_part (sub_i32 (add_i32 at len) (pos 1)) + pos_part at + pos_part len)
far_end at len s = (over, last)
  where
    over :
        pos_part (add_i32 at len) + neg_part at
        ≡ neg_part (add_i32 at len) + pos_part at + pos_part len
    over = omega (arith, add_i32_parts at len, one_part len, s)

    last :
        pos_part (sub_i32 (add_i32 at len) (pos 1)) + neg_part at + 1
        ≡ neg_part (sub_i32 (add_i32 at len) (pos 1)) + pos_part at + pos_part len
    last = omega (
      arith,
      sub_i32_parts (add_i32 at len) (pos 1),
      over,
      one_part len,
      s,
      one_part (add_i32 at len),
    )

OnSide-test :
    (at len v : ℤ)
    → IsSide at len
    → ((leb_ℤ at v ≡ true) × (ltb_ℤ v (add_i32 at len) ≡ true)) ↔ OnSide at len v
OnSide-test at len v s =
    (λ h. ground (arith, far_end at len s), λ h. ground (arith, far_end at len s))

-- `contains` decides the exact half-open rectangle.
pub contains-Within : (r : Rect) (p : Point) → IsSound r → (contains r p ≡ true) ↔ Within r p
unfolding contains
contains-Within r p s = (
  λ h. (
    (OnSide-test r.x r.w p.x s.across).0 (ground arith, ground arith),
    (OnSide-test r.y r.h p.y s.down).0 (ground arith, ground arith),
  ),
  λ h.
      let xs = (OnSide-test r.x r.w p.x s.across).1 h.0 in
      let ys = (OnSide-test r.y r.h p.y s.down).1 h.1 in ground arith,
)

-- How far apart two coordinates are.
abbrev pub gap : ℤ → ℤ → ℕ
gap a b =
    (pos_part a + neg_part b - (pos_part b + neg_part a))
    + (pos_part b + neg_part a - (pos_part a + neg_part b))

-- The last pixel of the side.
abbrev pub last_of : ℤ → ℤ → ℤ
last_of at len = sub_i32 (add_i32 at len) (pos 1)

-- Where `clamp` puts the point when it does not panic.
abbrev pub clamp_to : Rect → Point → Point
clamp_to r p = point (clamped p.x r.x (last_of r.x r.w)) (clamped p.y r.y (last_of r.y r.h))

side_order : (at len : ℤ) → IsSide at len → at ≤ℤ last_of at len
side_order at len s = omega (arith, (far_end at len s).1, s, one_part len)

clamped-OnSide : (at len v : ℤ) → IsSide at len → OnSide at len (clamped v at (last_of at len))
clamped-OnSide at len v s =
    let b = clamped_bounds v at (last_of at len) (side_order at len s) in
    (b.0, omega (arith, b.1, (far_end at len s).1))

clamped_stays : (at len v : ℤ) → IsSide at len → OnSide at len v → clamped v at (last_of at len) ≡ v
clamped_stays at len v s h =
    clamped_inside v at (last_of at len) h.0 (omega (arith, h.1, (far_end at len s).1))

pub gap-clamped :
    (at len v u : ℤ)
    → IsSide at len
    → OnSide at len u
    → gap (clamped v at (last_of at len)) v ≤ gap u v
gap-clamped at len v u s h = ground (arith, (far_end at len s).1, side_order at len s)

pub clamp_lem : (r : Rect) (p : Point) → IsSound r → clamp r p ≡ some (clamp_to r p)
unfolding clamp
clamp_lem r p s = rw (
  clamp_ℤ_lem p.x r.x _ (side_order r.x r.w s.across),
  clamp_ℤ_lem p.y r.y _ (side_order r.y r.h s.down),
)

pub clamp_to-Within : (r : Rect) (p : Point) → IsSound r → Within r (clamp_to r p)
clamp_to-Within r p s = (clamped-OnSide r.x r.w p.x s.across, clamped-OnSide r.y r.h p.y s.down)

-- On a rectangle with an area whose far sides are i32 values, `clamp` does not panic: it returns a
-- point of the rectangle, the given point if the rectangle contains it, and on each axis no point
-- of the rectangle is nearer to the given one.
pub clamp-contains :
    (r : Rect) (p : Point)
    → IsSound r
    → (q : Point) × (clamp r p ≡ some q)
      × (contains r q ≡ true)
      × (contains r p ≡ true → q ≡ p)
      × ((u : Point)
          → contains r u ≡ true
          → (gap q.x p.x ≤ gap u.x p.x) × (gap q.y p.y ≤ gap u.y p.y))
clamp-contains r p s = (
  clamp_to r p,
  clamp_lem r p s,
  (contains-Within r _ s).1 (clamp_to-Within r p s),
  λ h.
      let w = (contains-Within r p s).0 h in
      ap₂ point (clamped_stays r.x r.w p.x s.across w.0) (clamped_stays r.y r.h p.y s.down w.1),
  λ u h.
      let w = (contains-Within r u s).0 h in
      (gap-clamped r.x r.w p.x u.x s.across w.0, gap-clamped r.y r.h p.y u.y s.down w.1),
)
