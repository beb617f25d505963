-- ===== src/Geometry/Union.antt =====
-- `Rect::union_all` of geometry.rs over rectangles of a desk of ordinary size.
use geser_desk.Prelude.{
  ◌+◌, ◌≤◌, ℤ, pos_part, neg_part, some, List, [], ◌∷◌, arith, ◌≡◌, refl, ◌≤ℤ◌, ◌⊎◌, sub_i32_parts,
  one_part, add_i32, sub_i32, min_ℤ, max_ℤ, All,
}
use geser_desk.Geometry.{Rect, union_from, union_all, right, bottom}
use geser_desk.Geometry.Bounds.{IsSide, far_end}

-- Both ends of a side within 2^30 of the origin.
pub record IsNear (at len : ℤ) : Type 0 where
  pub side : IsSide at len
  pub low : neg_part at ≤ 1073741823
  pub high : pos_part at + pos_part len ≤ 1073741823 + neg_part at

pub record IsOrdinary (r : Rect) : Type 0 where
  pub across : IsNear r.x r.w
  pub down : IsNear r.y r.h

-- The side of the first rectangle lies within that of the second, in exact arithmetic.
abbrev pub SideIn : ℤ → ℤ → ℤ → ℤ → Type 0
SideIn at len at' len' =
    (at' ≤ℤ at)
    × (pos_part at + pos_part len + neg_part at' + neg_part len'
        ≤ pos_part at' + pos_part len' + neg_part at + neg_part len)

abbrev pub Inside : Rect → Rect → Type 0
Inside u r = SideIn r.x r.w u.x u.w × SideIn r.y r.h u.y u.h

min_ℤ_le : (a b : ℤ) → (min_ℤ a b ≤ℤ a) × (min_ℤ a b ≤ℤ b) × ((min_ℤ a b ≡ a) ⊎ (min_ℤ a b ≡ b))
unfolding min_ℤ
min_ℤ_le a b = ground arith

max_ℤ_le : (a b : ℤ) → (a ≤ℤ max_ℤ a b) × (b ≤ℤ max_ℤ a b) × ((max_ℤ a b ≡ a) ⊎ (max_ℤ a b ≡ b))
unfolding max_ℤ
max_ℤ_le a b = ground arith

-- The two ends of an extent in the making.
record IsExtent (l r : ℤ) : Type 0 where
  pub low : neg_part l ≤ 1073741823
  pub high : pos_part r ≤ 1073741823
  pub order : l ≤ℤ r

widen :
    (l r at len : ℤ)
    → IsExtent l r
    → IsNear at len
    → IsExtent (min_ℤ l at) (max_ℤ r (add_i32 at len))
widen l r at len e n = record {
  low = ground (arith, (min_ℤ_le l at).2);
  high = ground (
    arith,
    (max_ℤ_le r (add_i32 at len)).2,
    (far_end at len n.side).0,
    one_part (add_i32 at len),
  );
  order = omega (arith, (min_ℤ_le l at).0, (max_ℤ_le r (add_i32 at len)).0, e.order);
}

-- What the extent `[l, r)` covers of a side.
abbrev Covers : ℤ → ℤ → ℤ → ℤ → Type 0
Covers l r at len =
    (l ≤ℤ at) × (pos_part at + pos_part len + neg_part r ≤ pos_part r + neg_part at + neg_part len)

-- The side that `union_all` makes of an extent.
extent_side :
    (l r : ℤ)
    → IsExtent l r
    → pos_part (sub_i32 r l) + pos_part l + neg_part r
      ≡ neg_part (sub_i32 r l) + neg_part l + pos_part r
extent_side l r e = omega (arith, sub_i32_parts r l, e, one_part l, one_part r)

record Covered (l t r b : ℤ) (u : Rect) : Type 0 where
  pub across :
      (u.x ≤ℤ l)
      × (pos_part r + neg_part u.x + neg_part u.w ≤ pos_part u.x + pos_part u.w + neg_part r)
  pub down :
      (u.y ≤ℤ t)
      × (pos_part b + neg_part u.y + neg_part u.h ≤ pos_part u.y + pos_part u.h + neg_part b)

union_from-Covered :
    (l t r b : ℤ) (rs : List Rect)
    → IsExtent l r
    → IsExtent t b
    → All IsOrdinary rs
    → Covered l t r b (union_from l t r b rs) × All (Inside (union_from l t r b rs)) rs
unfolding union_from
union_from-Covered l t r b [] e f a = (
  record { across = omega (arith, extent_side l r e); down = omega (arith, extent_side t b f) },
  tt,
)
union_from-Covered l t r b (rc ∷ rs) e f a =
    let (c, rest) =
      union_from-Covered (min_ℤ l rc.x) (min_ℤ t rc.y) (max_ℤ r (right rc)) (max_ℤ b (bottom rc)) rs
        (widen l r rc.x rc.w e a.0.across) (widen t b rc.y rc.h f a.0.down) a.1 in
    let lx = min_ℤ_le l rc.x in
    let ly = min_ℤ_le t rc.y in
    let rx = max_ℤ_le r (right rc) in
    let ry = max_ℤ_le b (bottom rc) in
    let fx = (far_end rc.x rc.w a.0.across.side).0 in
    let fy = (far_end rc.y rc.h a.0.down.side).0 in
    (
      record {
        across = (omega (arith, c.across.0, lx.0), omega (arith, c.across.1, rx.0));
        down = (omega (arith, c.down.0, ly.0), omega (arith, c.down.1, ry.0));
      },
      (
        (
          (omega (arith, c.across.0, lx.1), omega (arith, c.across.1, rx.1, fx)),
          (omega (arith, c.down.0, ly.1), omega (arith, c.down.1, ry.1, fy)),
        ),
        rest,
      ),
    )

-- The extent lies in the side of `v`.
abbrev WithinSide : ℤ → ℤ → ℤ → ℤ → Type 0
WithinSide l r at len =
    (at ≤ℤ l) × (pos_part r + neg_part at + neg_part len ≤ pos_part at + pos_part len + neg_part r)

narrow :
    (l r at len v w : ℤ)
    → IsNear at len
    → WithinSide l r v w
    → SideIn at len v w
    → WithinSide (min_ℤ l at) (max_ℤ r (add_i32 at len)) v w
narrow l r at len v w n h k = (
  ground (arith, (min_ℤ_le l at).2),
  ground (arith, (max_ℤ_le r (add_i32 at len)).2, (far_end at len n.side).0),
)

union_from-least :
    (l t r b : ℤ) (rs : List Rect) (v : Rect)
    → IsExtent l r
    → IsExtent t b
    → All IsOrdinary rs
    → All (Inside v) rs
    → WithinSide l r v.x v.w
    → WithinSide t b v.y v.h
    → Inside v (union_from l t r b rs)
unfolding union_from
union_from-least l t r b [] v e f a c h k =
    ((h.0, omega (arith, h.1, extent_side l r e)), (k.0, omega (arith, k.1, extent_side t b f)))
union_from-least l t r b (rc ∷ rs) v e f a c h k =
    union_from-least (min_ℤ l rc.x) (min_ℤ t rc.y) (max_ℤ r (right rc)) (max_ℤ b (bottom rc)) rs v
      (widen l r rc.x rc.w e a.0.across) (widen t b rc.y rc.h f a.0.down) a.1 c.1
      (narrow l r rc.x rc.w v.x v.w a.0.across h c.0.0)
      (narrow t b rc.y rc.h v.y v.h a.0.down k c.0.1)

first-IsExtent : (at len : ℤ) → IsNear at len → IsExtent at (add_i32 at len)
first-IsExtent at len n = record {
  low = n.low;
  high = omega (arith, (far_end at len n.side).0, n.high, one_part (add_i32 at len));
  order = omega (arith, (far_end at len n.side).0, n.side, one_part len);
}

first_side :
    (at len v w : ℤ) → IsNear at len → SideIn at len v w → WithinSide at (add_i32 at len) v w
first_side at len v w n s = (s.0, omega (arith, s.1, (far_end at len n.side).0, one_part len))

first_covered :
    (at len v w : ℤ)
    → IsNear at len
    → (v ≤ℤ at)
      × (pos_part (add_i32 at len) + neg_part v + neg_part w
          ≤ pos_part v + pos_part w + neg_part (add_i32 at len))
    → SideIn at len v w
first_covered at len v w n s = (s.0, omega (arith, s.1, (far_end at len n.side).0, one_part len))

-- Of a list that is not empty, of rectangles with an area that lie within 2^30 of the origin,
-- `union_all` returns a rectangle around all of them, and that rectangle lies in every
-- rectangle around all of them.
pub union_all-Inside :
    (first : Rect) (rest : List Rect)
    → All IsOrdinary (first ∷ rest)
    → (u : Rect) × (union_all (first ∷ rest) ≡ some u)
      × All (Inside u) (first ∷ rest)
      × ((v : Rect) → All (Inside v) (first ∷ rest) → Inside v u)
unfolding union_all
union_all-Inside m rest a =
    let e = first-IsExtent m.x m.w a.0.across in
    let f = first-IsExtent m.y m.h a.0.down in
    let (c, all) = union_from-Covered m.x m.y (right m) (bottom m) rest e f a.1 in
    (
      union_from m.x m.y (right m) (bottom m) rest,
      refl,
      (
        (first_covered m.x m.w _ _ a.0.across c.across, first_covered m.y m.h _ _ a.0.down c.down),
        all,
      ),
      λ v h.
          union_from-least m.x m.y (right m) (bottom m) rest v e f a.1 h.1
            (first_side m.x m.w v.x v.w a.0.across h.0.0)
            (first_side m.y m.h v.y v.h a.0.down h.0.1),
    )
