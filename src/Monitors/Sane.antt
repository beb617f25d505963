-- ===== src/Monitors/Sane.antt =====
-- What `sanitize_monitors` of net.rs lets through.
use geser_desk.Prelude.{
  ℕ, suc, ◌+◌, ◌≤◌, ◌<◌, ℤ, pos, negsuc, pos_part, neg_part, ◌<ℤ◌, InI32, wrap_i32, wrap_i32_id,
  ltb, ltb→lt, ap, leb_ℤ, true, false, List, [], ◌∷◌, arith, ◌≡◌, refl, ◌↔◌, ◌⊎◌, inl, inr, All,
  Bool-cases, take, keep, length, length-take, take-All, is_empty,
}
use geser_desk.Geometry.{Rect, ScreenInfo}
use geser_desk.Geometry.Bounds.{IsSide, IsSound}
use geser_desk.Monitors.{abs_i32, sane, sane_or_full_hd, sanitize_monitors, limit}

-- The size of a number, with its sign taken off.
abbrev size_of : ℤ → ℕ
size_of a = pos_part a + neg_part a

-- The size is within the limit, or the number is the least i32.
abbrev pub IsModest : ℤ → Type 0
IsModest a = (size_of a ≤ 1000000) ⊎ (a ≡ negsuc 2147483647)

abbrev pub InLimits : Rect → Type 0
InLimits r =
    (pos 0 <ℤ r.w)
    × (pos 0 <ℤ r.h)
    × (pos_part r.w ≤ 1000000)
    × (pos_part r.h ≤ 1000000)
    × IsModest r.x
    × IsModest r.y

abs_small : (n : ℕ) → n < 2147483647 → abs_i32 (negsuc n) ≡ pos (suc n)
unfolding abs_i32
abs_small n h = wrap_i32_id (pos (suc n)) record { below = omega arith; above = omega arith }

abs_least : abs_i32 (negsuc 2147483647) ≡ negsuc 2147483647
unfolding abs_i32 wrap_i32
abs_least = refl

abs_i32_iff : (a : ℤ) → InI32 a → (leb_ℤ (abs_i32 a) limit ≡ true) ↔ IsModest a
unfolding abs_i32
abs_i32_iff (pos n) i =
    (λ h. inl (ground arith), λ k. elim k [ inl l ↦ ground arith | inr e ↦ cc e ])
abs_i32_iff (negsuc n) i = elim (Bool-cases (ltb n 2147483647)) [
  | inl t ↦
      let small = abs_small n (ltb→lt n _ t) in
      (
        λ h. inl (ground (arith, rw small at h)),
        λ k. elim k [
          | inl l ↦ rw small (ground arith)
          | inr e ↦ absurd (omega (arith, ltb→lt n _ t, ap neg_part e))
        ],
      )
  | inr f ↦
      let least : n ≡ 2147483647 = ground (arith, f, i.above) in
      (λ h. inr (ap negsuc least), λ k. rw (least, abs_least) refl)
]

-- The test on an i32 rectangle: it has an area, its sides are at most the limit, and so is the size of either
-- coordinate, unless that is the least i32.
pub sane_iff : (r : Rect) → InI32 r.x → InI32 r.y → (sane r ≡ true) ↔ InLimits r
unfolding sane
sane_iff r i j =
    let across = abs_i32_iff r.x i in
    let down = abs_i32_iff r.y j in
    (
      λ h. (
        ground arith,
        ground arith,
        ground arith,
        ground arith,
        across.0 (ground arith),
        down.0 (ground arith),
      ),
      λ (a, b, c, d, e, f). let g = across.1 e in let k = down.1 f in ground arith,
    )

-- The coordinates of a rectangle as it was received.
abbrev pub IsI32Rect : Rect → Type 0
IsI32Rect r = InI32 r.x × InI32 r.y

modest-IsSide :
    (at len : ℤ) → InI32 at → IsModest at → pos 0 <ℤ len → pos_part len ≤ 1000000 → IsSide at len
modest-IsSide at len i m w l = record {
  start_range = i;
  wide = w;
  end_fits = elim m [ inl s ↦ omega arith | inr e ↦ omega (arith, ap pos_part e) ];
}

sane-IsSound : (r : Rect) → IsI32Rect r → sane r ≡ true → IsSound r
sane-IsSound r (i, j) h =
    let (w, v, a, b, x, y) = (sane_iff r i j).0 h in
    record { across = modest-IsSide r.x r.w i x w a; down = modest-IsSide r.y r.h j y v b }

keep-IsSound : (rs : List Rect) → All IsI32Rect rs → All IsSound (keep sane rs)
unfolding keep
keep-IsSound [] a = tt
keep-IsSound (r ∷ rs) a = elim (Bool-cases (sane r)) [
  | inl t ↦ rw t (sane-IsSound r a.0 t, keep-IsSound rs a.1)
  | inr f ↦ rw f (keep-IsSound rs a.1)
]

sane_or_full_hd-IsSound : (r : Rect) → IsI32Rect r → IsSound (sane_or_full_hd r)
sane_or_full_hd-IsSound r i = elim (Bool-cases (sane r)) [
  | inl t ↦ rw t (sane-IsSound r i t)
  | inr f ↦ rw f record {
    across = record { start_range = omega arith; wide = omega arith; end_fits = omega arith };
    down = record { start_range = omega arith; wide = omega arith; end_fits = omega arith };
  }
]

-- Of a screen with i32 coordinates, the monitors kept are at least one and at most 32, and each has an area
-- and far sides that are i32 values.
pub sanitize_monitors-IsSound :
    (screen : ScreenInfo)
    → All IsI32Rect screen.monitors
    → IsI32Rect screen.bounds
    → (is_empty (sanitize_monitors screen) ≡ false)
      × (length (sanitize_monitors screen) ≤ 32)
      × All IsSound (sanitize_monitors screen)
unfolding sanitize_monitors
sanitize_monitors-IsSound screen a b =
    let list = take 32 (keep sane screen.monitors) in
    let sound = take-All IsSound 32 _ (keep-IsSound screen.monitors a) in
    elim (Bool-cases (is_empty list)) [
      | inl t ↦ rw t (refl, omega arith, (sane_or_full_hd-IsSound screen.bounds b, tt))
      | inr f ↦ rw f (f, omega (arith, length-take 32 (keep sane screen.monitors)), sound)
    ]
