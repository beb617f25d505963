-- ===== src/Desk/Nearest.antt =====
-- `nearest_point` of desk.rs: it lands on a monitor, and on no farther point than it must.
use geser_desk.Prelude.{
  ℕ, ◌+◌, ◌*◌, ◌≤◌, ℤ, pos, negsuc, pos_part, neg_part, some, List, [], ◌∷◌, true, false, arith,
  ◌≡◌, refl, add_i64, mul_i64, sub_i32, sub_i32_parts, wrap_i64_id, ◌*ℤ◌, ◌+ℤ◌, ltb_ℤ, any, All,
  inl, inr, All-map, subst, sym, Bool-cases, one_part,
}
use geser_desk.Geometry.{Point, Rect, contains}
use geser_desk.Geometry.Bounds.{
  IsSound, clamp_to, clamp_lem, clamp_to-Within, contains-Within, gap, gap-clamped,
}
use geser_desk.Geometry.Union.{IsOrdinary}
use geser_desk.Desk.{distance2, clamp_all, least_from, nearest_point}

-- `clamp` to each of the monitors.
abbrev clamps : Point → List Rect → List Point
clamps p [] = []
clamps p (m ∷ ms) = clamp_to m p ∷ clamps p ms

clamp_all_lem : (p : Point) (ms : List Rect) → All IsSound ms → clamp_all p ms ≡ some (clamps p ms)
unfolding clamp_all
clamp_all_lem p [] a = refl
clamp_all_lem p (m ∷ ms) a = rw (clamp_lem m p a.0, clamp_all_lem p ms a.1)

least_from-All {ℓ} :
    (P : Point → Type ℓ) (p best : Point) (cs : List Point)
    → P best
    → All P cs
    → P (least_from p best cs)
unfolding least_from
least_from-All P p best [] b a = b
least_from-All P p best (c ∷ cs) b a =
    elim (Bool-cases (ltb_ℤ (distance2 c p) (distance2 best p))) [
      | inl t ↦ rw t (least_from-All P p c cs a.0 a.1)
      | inr f ↦ rw f (least_from-All P p best cs b a.1)
    ]

-- Some monitor contains the point.
abbrev pub OnMonitor : List Rect → Point → Type 0
OnMonitor ms q = any (λ m. contains m q) ms ≡ true

clamps-OnMonitor : (p : Point) (ms : List Rect) → All IsSound ms → All (OnMonitor ms) (clamps p ms)
unfolding any
clamps-OnMonitor p [] a = tt
clamps-OnMonitor p (m ∷ ms) a = (
  rw ((contains-Within m (clamp_to m p) a.0).1 (clamp_to-Within m p a.0)),
  All-map (λ q h. ground (arith, h)) (clamps p ms) (clamps-OnMonitor p ms a.1),
)

pub nearest_point-OnMonitor :
    (p : Point) (m : Rect) (ms : List Rect)
    → All IsSound (m ∷ ms)
    → (q : Point) × (nearest_point p (m ∷ ms) ≡ some q) × OnMonitor (m ∷ ms) q
unfolding nearest_point
nearest_point-OnMonitor p m ms a =
    let o = clamps-OnMonitor p (m ∷ ms) a in
    (
      least_from p (clamp_to m p) (clamps p ms),
      rw (clamp_all_lem p (m ∷ ms) a),
      least_from-All (OnMonitor (m ∷ ms)) p (clamp_to m p) (clamps p ms) o.0 o.1,
    )

-- Near enough to the origin for a difference of coordinates not to overflow.
pub record IsClose (p : Point) : Type 0 where
  pub x_low : neg_part p.x ≤ 1073741823
  pub x_high : pos_part p.x ≤ 1073741823
  pub y_low : neg_part p.y ≤ 1073741823
  pub y_high : pos_part p.y ≤ 1073741823

-- The squared distance, in exact arithmetic.
abbrev pub distance_squared : Point → Point → ℕ
distance_squared q p = gap q.x p.x * gap q.x p.x + gap q.y p.y * gap q.y p.y

square_le : (a : ℕ) → a ≤ 2147483646 → a * a ≤ 4611686009837453316
square_le a h = grind arith

-- The square of an integer, before it is wrapped.
square_exact : (a : ℤ) → (a *ℤ a) ≡ pos ((pos_part a + neg_part a) * (pos_part a + neg_part a))
unfolding ◌*ℤ◌
square_exact (pos m) = ground arith
square_exact (negsuc m) = ground arith

square_ℤ :
    (a : ℤ) (n : ℕ) → pos_part a + neg_part a ≡ n → n ≤ 2147483646 → mul_i64 a a ≡ pos (n * n)
unfolding mul_i64
square_ℤ a n e h =
    rw (square_exact a, e)
      (wrap_i64_id (pos (n * n))
        (record { below = omega (arith, square_le n h); above = omega arith }))

sum_ℤ :
    (a b : ℕ)
    → a ≤ 4611686009837453316
    → b ≤ 4611686009837453316
    → add_i64 (pos a) (pos b) ≡ pos (a + b)
unfolding add_i64 ◌+ℤ◌
sum_ℤ a b h k =
    rw (sum a b) (wrap_i64_id (pos (a + b)) (record { below = omega arith; above = omega arith }))
  where
    sum : (a b : ℕ) → (pos a +ℤ pos b) ≡ pos (a + b)
    sum a b = ground arith

-- The difference of near coordinates is exact, and its size is their gap.
difference_gap :
    (a b : ℤ)
    → neg_part a ≤ 1073741823
    → pos_part a ≤ 1073741823
    → neg_part b ≤ 1073741823
    → pos_part b ≤ 1073741823
    → (pos_part (sub_i32 a b) + neg_part (sub_i32 a b) ≡ gap a b) × (gap a b ≤ 2147483646)
difference_gap a b h k l m = (
  omega (arith, sub_i32_parts a b, one_part (sub_i32 a b), one_part a, one_part b),
  omega (arith, one_part a, one_part b),
)

distance2_exact : (q p : Point) → IsClose q → IsClose p → distance2 q p ≡ pos (distance_squared q p)
unfolding distance2
distance2_exact q p c d =
    let (ex, hx) = difference_gap q.x p.x c.x_low c.x_high d.x_low d.x_high in
    let (ey, hy) = difference_gap q.y p.y c.y_low c.y_high d.y_low d.y_high in
    rw (square_ℤ (sub_i32 q.x p.x) _ ex hx, square_ℤ (sub_i32 q.y p.y) _ ey hy)
      (sum_ℤ _ _ (square_le _ hx) (square_le _ hy))

test_pos :
    (x y : ℤ) (a b : ℕ)
    → x ≡ pos a
    → y ≡ pos b
    → (ltb_ℤ x y ≡ true → a ≤ b) × (ltb_ℤ x y ≡ false → b ≤ a)
test_pos (pos m) (pos n) a b e g = (λ h. ground arith, λ h. ground arith)
test_pos (pos m) (negsuc n) a b e g = cc
test_pos (negsuc m) n a b e g = cc

-- None of the points is nearer to `p` than `q`.
abbrev IsLeast : Point → List Point → Point → Type 0
IsLeast p cs q = All (λ c. distance_squared q p ≤ distance_squared c p) cs

least_from-IsLeast :
    (p best : Point) (cs : List Point)
    → IsClose p
    → IsClose best
    → All IsClose cs
    → IsLeast p (best ∷ cs) (least_from p best cs)
unfolding least_from
least_from-IsLeast p best [] near_p near_b near = (omega arith, tt)
least_from-IsLeast p best (c ∷ cs) near_p near_b near =
    let dc = distance2_exact c p near.0 near_p in
    let db = distance2_exact best p near_b near_p in
    elim (Bool-cases (ltb_ℤ (distance2 c p) (distance2 best p))) [
      | inl t ↦
          let closer : distance_squared c p ≤ distance_squared best p =
            (test_pos _ _ _ _ dc db).0 t in
          let ih = least_from-IsLeast p c cs near_p near.0 near.1 in
          let e : least_from p best (c ∷ cs) ≡ least_from p c cs = rw t in
          subst (IsLeast p (best ∷ c ∷ cs)) (sym e) (omega (arith, ih.0, closer), (ih.0, ih.1))
      | inr f ↦
          let closer : distance_squared best p ≤ distance_squared c p =
            (test_pos _ _ _ _ dc db).1 f in
          let ih = least_from-IsLeast p best cs near_p near_b near.1 in
          let e : least_from p best (c ∷ cs) ≡ least_from p best cs = rw f in
          subst (IsLeast p (best ∷ c ∷ cs)) (sym e) (ih.0, (omega (arith, ih.0, closer), ih.1))
    ]

clamp_to-IsClose : (m : Rect) (p : Point) → IsOrdinary m → IsClose (clamp_to m p)
clamp_to-IsClose m p o =
    let (wx, wy) = clamp_to-Within m p (record { across = o.across.side; down = o.down.side }) in
    record {
      x_low = omega (arith, wx.0, o.across.low, one_part (clamp_to m p).x);
      x_high = omega (arith, wx.1, o.across.high, one_part (clamp_to m p).x);
      y_low = omega (arith, wy.0, o.down.low, one_part (clamp_to m p).y);
      y_high = omega (arith, wy.1, o.down.high, one_part (clamp_to m p).y);
    }

clamps-IsClose : (p : Point) (ms : List Rect) → All IsOrdinary ms → All IsClose (clamps p ms)
clamps-IsClose p [] o = tt
clamps-IsClose p (m ∷ ms) o = (clamp_to-IsClose m p o.0, clamps-IsClose p ms o.1)

least-le :
    (d : ℕ) (p u : Point) (ms : List Rect)
    → All IsOrdinary ms
    → All (λ c. d ≤ distance_squared c p) (clamps p ms)
    → OnMonitor ms u
    → d ≤ distance_squared u p
unfolding any
least-le d p u [] o a h = cc
least-le d p u (m ∷ ms) o a h = elim (Bool-cases (contains m u)) [
  | inr f ↦ least-le d p u ms o.1 a.1 (ground arith)
  | inl t ↦
      let sound : IsSound m = record { across = o.0.across.side; down = o.0.down.side } in
      let (wx, wy) = (contains-Within m u sound).0 t in
      let gx = gap-clamped m.x m.w p.x u.x sound.across wx in
      let gy = gap-clamped m.y m.h p.y u.y sound.down wy in
      let least = a.0 in farther _ _ _ _ d gx gy least
]
  where
    farther : (a b a' b' d : ℕ) → a ≤ a' → b ≤ b' → d ≤ a * a + b * b → d ≤ a' * a' + b' * b'
    farther a b a' b' d h k l = grind arith

-- The monitors not being empty, and everything within 2^30 of the origin, `nearest_point` returns a point of some
-- monitor; no point of any monitor is nearer to the given point.
pub nearest_point-least :
    (p : Point) (m : Rect) (ms : List Rect)
    → IsClose p
    → All IsOrdinary (m ∷ ms)
    → (q : Point) × (nearest_point p (m ∷ ms) ≡ some q)
      × OnMonitor (m ∷ ms) q
      × ((u : Point) → OnMonitor (m ∷ ms) u → distance_squared q p ≤ distance_squared u p)
unfolding nearest_point
nearest_point-least p m ms near o =
    let sound =
      All-map {Q = IsSound} (λ r k. record { across = k.across.side; down = k.down.side }) (m ∷ ms)
        o in
    let on = clamps-OnMonitor p (m ∷ ms) sound in
    let l =
      least_from-IsLeast p (clamp_to m p) (clamps p ms) near (clamp_to-IsClose m p o.0)
        (clamps-IsClose p ms o.1) in
    (
      least_from p (clamp_to m p) (clamps p ms),
      rw (clamp_all_lem p (m ∷ ms) sound),
      least_from-All (OnMonitor (m ∷ ms)) p (clamp_to m p) (clamps p ms) on.0 on.1,
      λ u h. least-le _ p u (m ∷ ms) o l h,
    )
