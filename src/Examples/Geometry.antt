-- ===== src/Examples/Geometry.antt =====
-- geometry.rs and layout.rs at concrete rectangles, edges and policies.
use geser_desk.Prelude.{
  pos, negsuc, true, false, [], ◌∷◌, some, none, arith, ◌≡◌, refl, any, All, ◌≤◌, clamp_ℤ, add_i32,
  sub_i32, wrap_i32, ◌+ℤ◌, ◌-ℤ◌, ◌&&◌, ◌⊎◌, ◌↔◌, ◌is◌, if◌then◌else◌, is_some,
}
use geser_desk.Geometry.{Rect, Point, point, rect, contains, clamp, union_all}
use geser_desk.Geometry.Bounds.{IsSound, gap, clamp-contains}
use geser_desk.Geometry.Union.{IsOrdinary, Inside, union_all-Inside}
use geser_desk.Edge.{left, right, top, edge_eq, edge_set_from, empty_set, contains_edge}
use geser_desk.Edge.Sets.{edge_set_from-contains}
use geser_desk.Layout.{Layout, LinkError, link, neighbor, has_screen, active_edges}
use geser_desk.Layout.Links.{neighbor-link, link-undefined, active_edges-neighbor}
use geser_desk.Switch.{SwitchPolicy, SwitchState, evaluate, switch}
use geser_desk.Switch.Gates.{IsOpen, Tapped, Rested, evaluate_switch}

abbrev pub full_hd : Rect
full_hd = rect (pos 0) (pos 0) (pos 1920) (pos 1080)

abbrev pub lower : Rect
lower = rect (negsuc 99) (pos 1080) (pos 1920) (pos 1080)

pub full_hd-IsSound : IsSound full_hd
full_hd-IsSound = omega arith

pub stacked-IsOrdinary : All IsOrdinary (full_hd ∷ lower ∷ [])
stacked-IsOrdinary = omega arith

clamp_test : clamp full_hd (point (pos 5000) (negsuc 0)) ≡ some (point (pos 1919) (pos 0))
unfolding clamp clamp_ℤ add_i32 sub_i32 wrap_i32 ◌+ℤ◌ ◌-ℤ◌
clamp_test = refl

clamp-contains_example :
    (q : Point) × (clamp full_hd (point (pos 5000) (negsuc 0)) ≡ some q)
    × (contains full_hd q ≡ true)
    × (contains full_hd (point (pos 5000) (negsuc 0)) ≡ true → q ≡ point (pos 5000) (negsuc 0))
    × ((u : Point)
        → contains full_hd u ≡ true
        → (gap q.x (pos 5000) ≤ gap u.x (pos 5000)) × (gap q.y (negsuc 0) ≤ gap u.y (negsuc 0)))
clamp-contains_example = clamp-contains full_hd (point (pos 5000) (negsuc 0)) full_hd-IsSound

union_all-Inside_example :
    (u : Rect) × (union_all (full_hd ∷ lower ∷ []) ≡ some u)
    × All (Inside u) (full_hd ∷ lower ∷ [])
    × ((v : Rect) → All (Inside v) (full_hd ∷ lower ∷ []) → Inside v u)
union_all-Inside_example = union_all-Inside full_hd (lower ∷ []) stacked-IsOrdinary

edge_set_from-contains_example :
    contains_edge (edge_set_from empty_set (left ∷ top ∷ [])) top
    ≡ any (λ e. edge_eq e top) (left ∷ top ∷ [])
edge_set_from-contains_example = edge_set_from-contains (left ∷ top ∷ []) top

abbrev pub two_screens : Layout
two_screens = record { screens = "linux-pc" ∷ "win" ∷ []; links = [] }

neighbor-link_example :
    ((link two_screens "linux-pc" right "win").1 ≡ none)
    × ((link two_screens "linux-pc" right "win").0.screens ≡ two_screens.screens)
    × (neighbor (link two_screens "linux-pc" right "win").0 "linux-pc" right ≡ (
        if "linux-pc" is "linux-pc" && edge_eq right right
        then some "win"
        else neighbor two_screens "linux-pc" right))
unfolding has_screen any
neighbor-link_example = neighbor-link two_screens "linux-pc" "win" "linux-pc" right right refl refl

link-undefined_example :
    ((link two_screens "linux-pc" right "mac").0 ≡ two_screens)
    × ((e : LinkError) × ((link two_screens "linux-pc" right "mac").1 ≡ some e)
        × (has_screen two_screens e.undefined ≡ false)
        × ((e.undefined ≡ "linux-pc") ⊎ (e.undefined ≡ "mac")))
unfolding has_screen any
link-undefined_example = link-undefined two_screens "linux-pc" "mac" right refl

active_edges-neighbor_example :
    contains_edge (active_edges two_screens "win") left ≡ is_some (neighbor two_screens "win" left)
active_edges-neighbor_example = active_edges-neighbor two_screens "win" left

abbrev patient : SwitchPolicy
patient = record {
  delay_ms = 300;
  double_tap_ms = 500;
  corner_size = pos 0;
  jump_zone = pos 1;
  scroll_lock_locks = true;
}

abbrev resting : SwitchState
resting = record { locked = false; dwell = some (right, 100); last_tap = some (right, 200) }

evaluate_switch_example :
    ((evaluate resting patient 450 right true true).1 ≡ switch)
    ↔ IsOpen resting patient true true
      × Tapped resting patient 450 right
      × Rested resting patient 450 right
evaluate_switch_example = evaluate_switch resting patient 450 right true true

rested_long_enough : (evaluate resting patient 450 right true true).1 ≡ switch
unfolding evaluate
rested_long_enough = refl
