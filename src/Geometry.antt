-- ===== src/Geometry.antt =====
-- crates/geserdesk-proto/src/geometry.rs: points, rectangles and what a client says of its screen.
-- Coordinates are i32; a sum or difference wraps, as in a release build. `clamp` panics when its
-- bounds are crossed, which is `none` here.
pub mod Bounds
pub mod Union
use geser_desk.Prelude.{
  ℤ, pos, Bool, String, List, [], ◌∷◌, Option, none, some, ◌&&◌, ◌>>=◌, add_i32, sub_i32, half_i32,
  min_ℤ, max_ℤ, clamp_ℤ, ltb_ℤ, leb_ℤ, eqb_ℤ,
}

pub record Point : Type 0 where
  pub x : ℤ
  pub y : ℤ

pub record Size : Type 0 where
  pub w : ℤ
  pub h : ℤ

-- `[x, x + w)` by `[y, y + h)`.
pub record Rect : Type 0 where
  pub x : ℤ
  pub y : ℤ
  pub w : ℤ
  pub h : ℤ

abbrev pub point : ℤ → ℤ → Point
point x y = record { x = x; y = y }

abbrev pub rect : ℤ → ℤ → ℤ → ℤ → Rect
rect x y w h = record { x = x; y = y; w = w; h = h }

-- `==`, derived.
abbrev pub point_eq : Point → Point → Bool
point_eq p q = eqb_ℤ p.x q.x && eqb_ℤ p.y q.y

abbrev pub rect_eq : Rect → Rect → Bool
rect_eq a b = eqb_ℤ a.x b.x && (eqb_ℤ a.y b.y && (eqb_ℤ a.w b.w && eqb_ℤ a.h b.h))

abbrev pub left : Rect → ℤ
left r = r.x

abbrev pub top : Rect → ℤ
top r = r.y

abbrev pub right : Rect → ℤ
right r = add_i32 r.x r.w

abbrev pub bottom : Rect → ℤ
bottom r = add_i32 r.y r.h

unfoldable pub center : Rect → Point
center r = point (add_i32 r.x (half_i32 r.w)) (add_i32 r.y (half_i32 r.h))

-- The loop of `union_all`: the extent so far, then the rectangles left.
unfoldable pub union_from : ℤ → ℤ → ℤ → ℤ → List Rect → Rect
union_from l t r b [] = rect l t (sub_i32 r l) (sub_i32 b t)
union_from l t r b (rc ∷ rest) =
    union_from (min_ℤ l (left rc)) (min_ℤ t (top rc)) (max_ℤ r (right rc)) (max_ℤ b (bottom rc))
      rest

unfoldable pub union_all : List Rect → Option Rect
unfolding union_from
union_all [] = none
union_all (first ∷ rest) =
    some (union_from (left first) (top first) (right first) (bottom first) rest)

unfoldable pub contains : Rect → Point → Bool
contains r p =
    leb_ℤ (left r) p.x && (ltb_ℤ p.x (right r) && (leb_ℤ (top r) p.y && ltb_ℤ p.y (bottom r)))

unfoldable pub clamp : Rect → Point → Option Point
clamp r p = do
  x ← clamp_ℤ p.x (left r) (sub_i32 (right r) (pos 1))
  y ← clamp_ℤ p.y (top r) (sub_i32 (bottom r) (pos 1))
  some (point x y)

-- What a client says of its screen.
pub record ScreenInfo : Type 0 where
  pub name : String
  pub bounds : Rect
  pub monitors : List Rect
  pub cursor : Point

unfoldable pub from_monitors : String → List Rect → Point → Option ScreenInfo
unfolding union_all
from_monitors name [] cursor = do
  bounds ← union_all (rect (pos 0) (pos 0) (pos 1920) (pos 1080) ∷ [])
  some (record {
    name = name;
    bounds = bounds;
    monitors = rect (pos 0) (pos 0) (pos 1920) (pos 1080) ∷ [];
    cursor = cursor;
  })
from_monitors name (m ∷ ms) cursor = do
  bounds ← union_all (m ∷ ms)
  some (record { name = name; bounds = bounds; monitors = m ∷ ms; cursor = cursor })
