-- ===== src/Desk/Inset.antt =====
-- `inset_clamp` of desk.rs: where the cursor comes back, away from the sides it could leave by.
use geser_desk.Prelude.{
  ℕ, ◌+◌, ◌*◌, ◌≤◌, ◌<◌, ℤ, pos, negsuc, pos_part, neg_part, some, true, arith, ◌≡◌, ◌≤ℤ◌, ◌<ℤ◌,
  add_i32, sub_i32, mul_i32, add_i32_parts, sub_i32_parts, half_i32, wrap_i32_id, ◌*ℤ◌, ltb_ℤ,
  clamped, clamp_ℤ_lem, clamped_bounds, one_part, Bool-cases, inl, inr,
}
use geser_desk.Geometry.{Point, Rect, point, center, contains}
use geser_desk.Geometry.Bounds.{IsSide, IsSound, OnSide, far_end, contains-Within}
use geser_desk.Desk.{inset_axis, inset_clamp}

-- An inset whose double still fits.
abbrev pub IsInset : ℤ → Type 0
IsInset inset = (neg_part inset ≡ 0) × (pos_part inset ≤ 1073741822)

twice_plus_one :
    (i : ℤ)
    → IsInset i
    → (pos_part (add_i32 (mul_i32 (pos 2) i) (pos 1)) ≡ 2 * pos_part i + 1)
      × (neg_part (add_i32 (mul_i32 (pos 2) i) (pos 1)) ≡ 0)
unfolding mul_i32 ◌*ℤ◌
twice_plus_one (negsuc n) h = absurd (omega arith)
twice_plus_one (pos n) h = rw (double n) (
    rw (wrap_i32_id (pos (2 * n)) (record { below = omega arith; above = omega arith })) (
      omega (arith, add_i32_parts (pos (2 * n)) (pos 1), one_part (add_i32 (pos (2 * n)) (pos 1)))))
  where
    double : (n : ℕ) → (pos 2 *ℤ pos n) ≡ pos (2 * n)
    double n = ground arith

half_lem :
    (len : ℤ)
    → pos 0 <ℤ len
    → (neg_part (half_i32 len) ≡ 0) × (pos_part (half_i32 len) < pos_part len)
unfolding half_i32
half_lem (pos n) h = omega arith
half_lem (negsuc n) h = absurd (omega arith)

centre-OnSide : (at len : ℤ) → IsSide at len → OnSide at len (add_i32 at (half_i32 len))
centre-OnSide at len s =
    let h = half_lem len s.wide in
    (
      omega (arith, add_i32_parts at (half_i32 len), h, s, one_part len),
      omega (arith, add_i32_parts at (half_i32 len), h, s, one_part len),
    )

-- The coordinate keeps `inset` pixels on either side of it.
abbrev pub KeepsOff : ℤ → ℤ → ℤ → ℤ → Type 0
KeepsOff at len inset u =
    (pos_part at + pos_part inset + neg_part u ≤ pos_part u + neg_part at)
    × (pos_part u + pos_part inset + neg_part at < pos_part at + pos_part len + neg_part u)

-- The two bounds of the inset, where the side is long enough for them.
abbrev low : ℤ → ℤ → ℤ
low at inset = add_i32 at inset

abbrev high : ℤ → ℤ → ℤ → ℤ
high at len inset = sub_i32 (sub_i32 (add_i32 at len) (pos 1)) inset

inset_bounds :
    (at len inset : ℤ)
    → IsSide at len
    → IsInset inset
    → 2 * pos_part inset + 1 < pos_part len
    → (pos_part (low at inset) + neg_part at
        ≡ neg_part (low at inset) + pos_part at + pos_part inset)
      × (pos_part (high at len inset) + neg_part at + 1 + pos_part inset
          ≡ neg_part (high at len inset) + pos_part at + pos_part len)
inset_bounds at len inset s i h =
    let last = (far_end at len s).1 in
    (
      omega (arith, add_i32_parts at inset, s, i, h),
      omega (
        arith,
        sub_i32_parts (sub_i32 (add_i32 at len) (pos 1)) inset,
        last,
        s,
        i,
        h,
        one_part len,
      ),
    )

inset_axis_lem :
    (v at len inset : ℤ)
    → IsSide at len
    → IsInset inset
    → (u : ℤ) × (inset_axis v at len (add_i32 at (half_i32 len)) inset ≡ some u)
      × OnSide at len u
      × (2 * pos_part inset + 1 < pos_part len → KeepsOff at len inset u)
unfolding inset_axis
inset_axis_lem v at len inset s i =
    let twice = twice_plus_one inset i in
    elim (Bool-cases (ltb_ℤ (add_i32 (mul_i32 (pos 2) inset) (pos 1)) len)) [
      | inr f ↦ (
        add_i32 at (half_i32 len),
        rw f,
        centre-OnSide at len s,
        λ h. absurd (ground (arith, twice, h, f, s, one_part len)),
      )
      | inl t ↦
          let room : 2 * pos_part inset + 1 < pos_part len =
            ground (arith, twice, t, one_part len) in
          let (lo, hi) = inset_bounds at len inset s i room in
          let order : low at inset ≤ℤ high at len inset = omega (arith, lo, hi, room) in
          let (above, below) = clamped_bounds v (low at inset) (high at len inset) order in
          (
            clamped v (low at inset) (high at len inset),
            rw t (clamp_ℤ_lem v (low at inset) (high at len inset) order),
            (omega (arith, above, lo), omega (arith, below, hi)),
            λ h. (omega (arith, above, lo), omega (arith, below, hi)),
          )
    ]

-- On a rectangle with an area whose far sides are i32 values, and for an inset whose double fits, `inset_clamp` does
-- not panic and stays in the rectangle; on an axis that is long enough for it, it keeps `inset` pixels off both sides.
pub inset_clamp-contains :
    (p : Point) (r : Rect) (inset : ℤ)
    → IsSound r
    → IsInset inset
    → (q : Point) × (inset_clamp p r inset ≡ some q)
      × (contains r q ≡ true)
      × (2 * pos_part inset + 1 < pos_part r.w → KeepsOff r.x r.w inset q.x)
      × (2 * pos_part inset + 1 < pos_part r.h → KeepsOff r.y r.h inset q.y)
unfolding inset_clamp center
inset_clamp-contains p r inset s i =
    let (x, ex, wx, kx) = inset_axis_lem p.x r.x r.w inset s.across i in
    let (y, ey, wy, ky) = inset_axis_lem p.y r.y r.h inset s.down i in
    (point x y, rw (ex, ey), (contains-Within r (point x y) s).1 (wx, wy), kx, ky)
