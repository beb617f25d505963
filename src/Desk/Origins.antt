-- ===== src/Desk/Origins.antt =====
-- crates/geserdesk-server/src/desk.rs, `effective_origins`: an origin on the desk for every
-- screen. `none` is a panic (a map indexed by a name it lacks) or fuel that ran out.
pub mod Keeps
pub mod Total
use geser_desk.Prelude.{
  ℕ, zero, suc, ℤ, pos, String, Bool, true, List, [], ◌∷◌, ◌++◌, Option, none, some, not, ◌||◌,
  ◌>>=◌, if◌then◌else◌, add_i32, sub_i32, max_ℤ, any, keep, length, ◌is◌, Map, lookup, insert,
  has_key,
}
use geser_desk.Geometry.{Point, Size, point}
use geser_desk.Edge.{Edge, left, right, top, bottom, all_edges}
use geser_desk.Layout.{Layout, neighbor}

-- `order.contains(name)`, and `order.iter().any(|n| n == b)`.
unfoldable pub listed : List String → String → Bool
listed order name = any (λ n. n is name) order

-- The configured origins of listed screens.
unfoldable pub configured_only : List String → Map Point → Map Point
configured_only order [] = []
configured_only order ((n, p) ∷ m) =
    if listed order n then (n, p) ∷ configured_only order m else configured_only order m

-- `entry(local).or_insert((0, 0))`.
unfoldable pub or_insert : String → Point → Map Point → Map Point
or_insert k p m = elim (lookup k m) [ none ↦ insert k p m | some q ↦ m ]

-- Where a neighbour of size `sb` across `edge` of the screen at `oa`, of size `sa`, goes.
unfoldable pub beside : Edge → Point → Size → Size → Point
beside right oa sa sb = point (add_i32 oa.x sa.w) oa.y
beside left oa sa sb = point (sub_i32 oa.x sb.w) oa.y
beside bottom oa sa sb = point oa.x (add_i32 oa.y sa.h)
beside top oa sa sb = point oa.x (sub_i32 oa.y sb.h)

module _ (order : List String) (layout : Layout) (size_of : String → Size) where
  -- One neighbour, if there is one: placed and queued unless it has a place or is not listed.
  unfoldable pub place :
      String → Point → Edge → Option String → Map Point × List String → Map Point × List String
  place a oa edge none (placed, queue) = (placed, queue)
  place a oa edge (some b) (placed, queue) =
      if has_key b placed || not (listed order b)
      then (placed, queue)
      else (insert b (beside edge oa (size_of a) (size_of b)) placed, queue ++ b ∷ [])

  -- The loop over the edges of one screen.
  unfoldable pub visit :
      String → Point → List Edge → Map Point × List String → Map Point × List String
  visit a oa [] s = s
  visit a oa (e ∷ es) s = visit a oa es (place a oa e (neighbor layout a e) s)

  -- The queue, one screen for each unit of fuel.
  unfoldable pub follow : ℕ → Map Point → List String → Option (Map Point)
  follow fuel placed [] = some placed
  follow zero placed (a ∷ queue) = none
  follow (suc fuel) placed (a ∷ queue) = do
    oa ← lookup a placed
    let s = visit a oa all_edges (placed, queue)
    follow fuel s.0 s.1

-- `filter_map` of the far sides, and their maximum.
unfoldable pub far_sides : (String → Size) → List String → Map Point → List ℤ
far_sides size_of [] placed = []
far_sides size_of (n ∷ ns) placed = elim (lookup n placed) [
  | none ↦ far_sides size_of ns placed
  | some o ↦ add_i32 o.x (size_of n).w ∷ far_sides size_of ns placed
]

unfoldable pub maximum_or : ℤ → List ℤ → ℤ
maximum_or d [] = d
maximum_or d (x ∷ []) = x
maximum_or d (x ∷ y ∷ rest) = maximum_or d (max_ℤ x y ∷ rest)

-- The row to the right of everything, for the screens that are left.
unfoldable pub row : (String → Size) → List String → ℤ → Map Point → Map Point
row size_of [] right_end placed = placed
row size_of (n ∷ ns) right_end placed =
    let placed' = insert n (point right_end (pos 0)) placed in
    let next_end = add_i32 right_end (size_of n).w in
    row size_of ns (if has_key n placed then right_end else next_end)
      (if has_key n placed then placed else placed')

-- What the queue starts from.
unfoldable pub first_placed : List String → String → Map Point → Map Point
unfolding or_insert configured_only
first_placed order local configured =
    or_insert local (point (pos 0) (pos 0)) (configured_only order configured)

unfoldable pub effective_origins :
    ℕ → List String → String → Layout → Map Point → (String → Size) → Option (Map Point)
unfolding first_placed
effective_origins fuel order local layout configured size_of = do
  let start = first_placed order local configured
  placed ← follow order layout size_of fuel start (keep (λ n. has_key n start) order)
  some (row size_of order (maximum_or (pos 0) (far_sides size_of order placed)) placed)
