-- ===== src/Layout/Links.antt =====
-- Links of a `Layout`: what is read after a link was recorded.
use geser_desk.Prelude.{
  true, false, String, [], ◌∷◌, none, some, arith, ◌≡◌, refl, ◌⊎◌, inl, inr, ◌&&◌, if◌then◌else◌,
  any, ◌is◌, lookup, lookup-insert, is_iff, Bool-cases, Option-cases, is_some, ◌∙◌,
}
use geser_desk.Edge.{Edge, edge_eq, contains_edge, edge_set_from}
use geser_desk.Edge.Sets.{edge_set_from-contains}
use geser_desk.Layout.{
  Layout, LinkError, EdgeMap, get_edge, put_edge, edges_of, has_screen, or_default, link, neighbor,
  active_edges,
}

edge_eq_iff : (a b : Edge) → ((edge_eq a b ≡ true) → a ≡ b) × (a ≡ b → edge_eq a b ≡ true)
edge_eq_iff a b = (λ h. ground arith, λ h. ground arith)

get-put_edge :
    (e d : Edge) (s : String) (m : EdgeMap)
    → get_edge d (put_edge e s m) ≡ (if edge_eq e d then some s else get_edge d m)
unfolding get_edge put_edge
get-put_edge e d s [] = refl
get-put_edge e d s ((c, t) ∷ m) = ground (arith, get-put_edge e d s m)

edges-get : (d : Edge) (m : EdgeMap) → any (λ e. edge_eq e d) (edges_of m) ≡ is_some (get_edge d m)
unfolding any get_edge
edges-get d [] = refl
edges-get d ((c, t) ∷ m) = ground (arith, edges-get d m)

-- The neighbour across an edge after two screens of the layout were linked: the new one across that edge of
-- that screen, and what it was everywhere else. The list of screens is unchanged and there is no error.
pub neighbor-link :
    (l : Layout) (from to a : String) (edge e : Edge)
    → has_screen l from ≡ true
    → has_screen l to ≡ true
    → ((link l from edge to).1 ≡ none)
      × ((link l from edge to).0.screens ≡ l.screens)
      × (neighbor (link l from edge to).0 a e
          ≡ (if from is a && edge_eq edge e then some to else neighbor l a e))
unfolding link neighbor
neighbor-link l from to a edge e h k = (
  ground arith,
  ground arith,
  ground (
    arith,
    lookup-insert from a (put_edge edge to (or_default (lookup from l.links))) l.links,
    get-put_edge edge e to (or_default (lookup from l.links)),
    is_iff from a,
  ),
)

-- A link that names a screen which is not in the layout changes nothing, and the error names that screen.
pub link-undefined :
    (l : Layout) (from to : String) (edge : Edge)
    → has_screen l from && has_screen l to ≡ false
    → ((link l from edge to).0 ≡ l)
      × ((e : LinkError) × ((link l from edge to).1 ≡ some e)
          × (has_screen l e.undefined ≡ false)
          × ((e.undefined ≡ from) ⊎ (e.undefined ≡ to)))
unfolding link
link-undefined l from to edge h = elim (Bool-cases (has_screen l from)) [
  | inr f ↦
      (ground arith, (record { from = from; to = to; undefined = from }, ground arith, f, inl refl))
  | inl t ↦ (
    ground arith,
    (record { from = from; to = to; undefined = to }, ground arith, ground arith, inr refl),
  )
]

-- The edges that the capture backend watches are exactly those with a neighbour.
pub active_edges-neighbor :
    (l : Layout) (from : String) (e : Edge)
    → contains_edge (active_edges l from) e ≡ is_some (neighbor l from e)
unfolding active_edges neighbor edge_set_from any
active_edges-neighbor l from e = elim (Option-cases (lookup from l.links)) [
  | inl p ↦ rw (p, active_edges, neighbor) (edge_set_from-contains [] e)
  | inr (m, p) ↦
      rw (p, active_edges, neighbor) (edge_set_from-contains (edges_of m) e ∙ edges-get e m)
]
