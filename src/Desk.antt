-- ===== src/Desk.antt =====
-- crates/geserdesk-server/src/desk.rs: the shared virtual desk. `effective_origins` is in
-- Desk/Origins.antt.
pub mod Nearest
pub mod Inset
pub mod Frames
pub mod Origins
use geser_desk.Prelude.{
  ℤ, pos, Bool, List, [], ◌∷◌, Option, none, some, ◌&&◌, ◌>>=◌, if◌then◌else◌, add_i32, sub_i32,
  mul_i32, clamp_ℤ, ltb_ℤ, add_i64, mul_i64,
}
use geser_desk.Geometry.{
  Point, Size, Rect, point, rect, center, clamp, union_all, left, top, right, bottom,
}
use geser_desk.Floats.{Floats}

-- DEFAULT_SIZE.
abbrev pub default_w : ℤ
default_w = pos 1920

abbrev pub default_h : ℤ
default_h = pos 1080

-- `unwrap_or` on the bounds.
abbrev bounds_or_default : Option Rect → Rect
bounds_or_default none = rect (pos 0) (pos 0) default_w default_h
bounds_or_default (some b) = b

module _ (fl : Floats) where
  open fl use {F64, one, from_i32, mul, div, round_i32, floor_i32}

  pub record Frame : Type 0 where
    pub origin : Point
    pub base : Point
    pub sx : F64
    pub sy : F64

  ratio : ℤ → ℤ → F64
  ratio want have =
      if ltb_ℤ (pos 0) want && ltb_ℤ (pos 0) have then div (from_i32 want) (from_i32 have) else one

  -- The stretch on one axis: none without a size.
  stretch : Option ℤ → ℤ → F64
  unfolding ratio
  stretch none have = one
  stretch (some want) have = ratio want have

  unfoldable pub frame_new : Point → Option Rect → Option Size → Frame
  unfolding stretch
  frame_new origin bounds size =
      let b = bounds_or_default bounds in
      record {
        origin = origin;
        base = point b.x b.y;
        sx = stretch (size >>= λ s. some s.w) b.w;
        sy = stretch (size >>= λ s. some s.h) b.h;
      }

  -- The closures `at` of `to_desk` and of `to_local`, on one axis.
  unfoldable pub axis_to_desk : ℤ → ℤ → ℤ → F64 → ℤ
  axis_to_desk v base origin s =
      add_i32 (add_i32 origin base) (round_i32 (mul (from_i32 (sub_i32 v base)) s))

  unfoldable pub axis_to_local : ℤ → ℤ → ℤ → F64 → ℤ
  axis_to_local d base origin s =
      add_i32 base (floor_i32 (div (from_i32 (sub_i32 (sub_i32 d origin) base)) s))

  unfoldable pub to_desk : Frame → Point → Point
  unfolding axis_to_desk
  to_desk f p =
      point (axis_to_desk p.x f.base.x f.origin.x f.sx) (axis_to_desk p.y f.base.y f.origin.y f.sy)

  unfoldable pub to_local : Frame → Point → Point
  unfolding axis_to_local
  to_local f v =
      point (axis_to_local v.x f.base.x f.origin.x f.sx)
        (axis_to_local v.y f.base.y f.origin.y f.sy)

  unfoldable pub desk_rect : Frame → Rect → Rect
  unfolding to_desk
  desk_rect f m =
      let a = to_desk f (point (left m) (top m)) in
      let b = to_desk f (point (right m) (bottom m)) in
      rect a.x a.y (sub_i32 b.x a.x) (sub_i32 b.y a.y)

-- The desk size of a machine: the one set, else the extent of its monitors, else the default.
size_or_default : Option Rect → Size
size_or_default none = record { w = default_w; h = default_h }
size_or_default (some r) = record { w = r.w; h = r.h }

unfoldable pub desk_size : List Rect → Option Size → Size
unfolding size_or_default
desk_size monitors none = size_or_default (union_all monitors)
desk_size monitors (some s) = record { w = s.w; h = s.h }

-- The key of `nearest_point`: a squared distance, i64 of i32 differences.
unfoldable pub distance2 : Point → Point → ℤ
distance2 c p =
    let dx = sub_i32 c.x p.x in let dy = sub_i32 c.y p.y in add_i64 (mul_i64 dx dx) (mul_i64 dy dy)

-- `map(clamp)` over the monitors; a panic in one is a panic of all.
unfoldable pub clamp_all : Point → List Rect → Option (List Point)
clamp_all p [] = some []
clamp_all p (m ∷ ms) = do c ← clamp m p; cs ← clamp_all p ms; some (c ∷ cs)

-- `min_by_key`: the first of the least.
unfoldable pub least_from : Point → Point → List Point → Point
least_from p best [] = best
least_from p best (c ∷ cs) =
    least_from p (if ltb_ℤ (distance2 c p) (distance2 best p) then c else best) cs

least : Point → List Point → Point
unfolding least_from
least p [] = p
least p (c ∷ cs) = least_from p c cs

unfoldable pub nearest_point : Point → List Rect → Option Point
unfolding clamp_all least
nearest_point p monitors = do cs ← clamp_all p monitors; some (least p cs)

-- The closure `axis` of `inset_clamp`.
unfoldable pub inset_axis : ℤ → ℤ → ℤ → ℤ → ℤ → Option ℤ
inset_axis v lo len centre inset =
    if ltb_ℤ (add_i32 (mul_i32 (pos 2) inset) (pos 1)) len
    then clamp_ℤ v (add_i32 lo inset) (sub_i32 (sub_i32 (add_i32 lo len) (pos 1)) inset)
    else some centre

unfoldable pub inset_clamp : Point → Rect → ℤ → Option Point
unfolding inset_axis
inset_clamp p r inset = do
  x ← inset_axis p.x r.x r.w (center r).x inset
  y ← inset_axis p.y r.y r.h (center r).y inset
  some (point x y)
