-- ===== src/Examples/Desk.antt =====
-- desk.rs at concrete desks.
use geser_desk.Prelude.{
  ◌+◌, ◌*◌, ◌≤◌, ◌<◌, pos, negsuc, String, true, [], ◌∷◌, some, none, arith, ◌≡◌, Map, lookup,
  has_key, add_i32,
}
use geser_desk.Geometry.{Point, Size, point, contains}
use geser_desk.Desk.{frame_new, to_desk, to_local, nearest_point, inset_clamp}
use geser_desk.Desk.Frames.{to_local-to_desk}
use geser_desk.Desk.Nearest.{OnMonitor, distance_squared, nearest_point-least}
use geser_desk.Desk.Inset.{KeepsOff, inset_clamp-contains}
use geser_desk.Desk.Origins.{effective_origins, listed}
use geser_desk.Desk.Origins.Total.{effective_origins_total}
use geser_desk.Examples.Rationals.{rationals}
use geser_desk.Examples.Geometry.{full_hd, lower, two_screens, full_hd-IsSound, stacked-IsOrdinary}

to_local-to_desk_example :
    let f = frame_new rationals (point (pos 1920) (negsuc 299)) (some full_hd) none in
    (to_desk rationals f (point (pos 7) (pos 8))
      ≡ point (add_i32 (pos 1920) (pos 7)) (add_i32 (negsuc 299) (pos 8)))
    × (to_local rationals f (to_desk rationals f (point (pos 7) (pos 8))) ≡ point (pos 7) (pos 8))
to_local-to_desk_example =
    to_local-to_desk rationals (point (pos 1920) (negsuc 299)) (some full_hd)
      (point (pos 7) (pos 8)) (omega arith) (omega arith)

nearest_point-least_example :
    (q : Point) × (nearest_point (point (pos 1900) (pos 5000)) (full_hd ∷ lower ∷ []) ≡ some q)
    × OnMonitor (full_hd ∷ lower ∷ []) q
    × ((u : Point)
        → OnMonitor (full_hd ∷ lower ∷ []) u
        → distance_squared q (point (pos 1900) (pos 5000))
          ≤ distance_squared u (point (pos 1900) (pos 5000)))
nearest_point-least_example =
    nearest_point-least (point (pos 1900) (pos 5000)) full_hd (lower ∷ []) (omega arith)
      stacked-IsOrdinary

inset_clamp-contains_example :
    (q : Point) × (inset_clamp (point (pos 1919) (pos 3)) full_hd (pos 2) ≡ some q)
    × (contains full_hd q ≡ true)
    × (2 * 2 + 1 < 1920 → KeepsOff (pos 0) (pos 1920) (pos 2) q.x)
    × (2 * 2 + 1 < 1080 → KeepsOff (pos 0) (pos 1080) (pos 2) q.y)
inset_clamp-contains_example =
    inset_clamp-contains (point (pos 1919) (pos 3)) full_hd (pos 2) full_hd-IsSound (omega arith)

abbrev hd_size : String → Size
hd_size name = record { w = pos 1920; h = pos 1080 }

abbrev at_left : Map Point
at_left = ("win", point (negsuc 1919) (pos 0)) ∷ []

effective_origins_total_example :
    (m : Map Point) × (effective_origins 2 two_screens.screens "linux-pc" two_screens at_left
        hd_size
      ≡ some m)
    × ((n : String) → listed two_screens.screens n ≡ true → has_key n m ≡ true)
    × (has_key "linux-pc" m ≡ true)
    × ((n : String) (p : Point)
        → listed two_screens.screens n ≡ true
        → lookup n at_left ≡ some p
        → lookup n m ≡ some p)
    × (lookup "linux-pc" at_left ≡ none → lookup "linux-pc" m ≡ some (point (pos 0) (pos 0)))
effective_origins_total_example =
    effective_origins_total 2 two_screens.screens "linux-pc" two_screens at_left hd_size
      (omega arith)
