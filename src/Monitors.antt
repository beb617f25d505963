-- ===== src/Monitors.antt =====
-- crates/geserdesk-server/src/net.rs, `sanitize_monitors`: the monitors that a client reported, made
-- safe for the router.
pub mod Sane
use geser_desk.Prelude.{
  ℕ, ℤ, pos, negsuc, Bool, List, [], ◌∷◌, ◌&&◌, if◌then◌else◌, take, keep, is_empty, ltb_ℤ, leb_ℤ,
  wrap_i32,
}
use geser_desk.Geometry.{Rect, rect, ScreenInfo}

abbrev pub max_monitors : ℕ
max_monitors = 32

abbrev pub limit : ℤ
limit = pos 1000000

-- `i32::abs`, which is the least i32 at the least i32.
unfoldable pub abs_i32 : ℤ → ℤ
abs_i32 (pos n) = pos n
abs_i32 (negsuc n) = wrap_i32 (pos (ℕ.suc n))

unfoldable pub sane : Rect → Bool
unfolding abs_i32
sane r =
    ltb_ℤ (pos 0) r.w
    && ltb_ℤ (pos 0) r.h
    && leb_ℤ r.w limit
    && leb_ℤ r.h limit
    && leb_ℤ (abs_i32 r.x) limit
    && leb_ℤ (abs_i32 r.y) limit

abbrev pub sane_or_full_hd : Rect → Rect
sane_or_full_hd r = if sane r then r else rect (pos 0) (pos 0) (pos 1920) (pos 1080)

unfoldable pub sanitize_monitors : ScreenInfo → List Rect
sanitize_monitors screen =
    let list = take max_monitors (keep sane screen.monitors) in
    if is_empty list then sane_or_full_hd screen.bounds ∷ [] else list
