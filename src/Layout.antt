-- ===== src/Layout.antt =====
-- crates/geserdesk-server/src/layout.rs, the `Layout`: the configured screens and the links
-- between them.
pub mod Links
use geser_desk.Prelude.{
  Bool, true, false, String, List, [], ◌∷◌, ◌++◌, Option, none, some, ◌>>=◌, if◌then◌else◌, any,
  ◌is◌, Map, lookup, insert,
}
use geser_desk.Edge.{Edge, edge_eq, EdgeSet, empty_set, edge_set_from}

-- `BTreeMap<Edge, String>`: the first entry of an edge counts.
abbrev pub EdgeMap : Type 0
EdgeMap = List (Edge × String)

unfoldable pub get_edge : Edge → EdgeMap → Option String
get_edge e [] = none
get_edge e ((d, s) ∷ m) = if edge_eq d e then some s else get_edge e m

unfoldable pub put_edge : Edge → String → EdgeMap → EdgeMap
put_edge e s [] = (e, s) ∷ []
put_edge e s ((d, t) ∷ m) = if edge_eq d e then (e, s) ∷ m else (d, t) ∷ put_edge e s m

abbrev pub edges_of : EdgeMap → List Edge
edges_of [] = []
edges_of ((d, t) ∷ m) = d ∷ edges_of m

pub record Layout : Type 0 where
  pub screens : List String
  -- `links[from][edge] = to`
  pub links : Map EdgeMap

pub record LinkError : Type 0 where
  pub from : String
  pub to : String
  pub undefined : String

unfoldable pub new : List String → Layout
new screens = record { screens = screens; links = [] }

unfoldable pub has_screen : Layout → String → Bool
has_screen l name = any (λ s. s is name) l.screens

-- The layout, and whether the name was new.
unfoldable pub add_screen : Layout → String → Layout × Bool
unfolding has_screen
add_screen l name =
    if has_screen l name then (l, false) else (record l { screens = l.screens ++ name ∷ [] }, true)

-- `entry(from).or_default()`.
abbrev pub or_default : Option EdgeMap → EdgeMap
or_default none = []
or_default (some m) = m

-- The first of the two names that is not a screen.
undefined_name : Layout → String → String → Option String
unfolding has_screen
undefined_name l from to =
    if has_screen l from then if has_screen l to then none else some to else some from

-- The layout after the call, and the error if it failed.
unfoldable pub link : Layout → String → Edge → String → Layout × Option LinkError
unfolding undefined_name
link l from edge to = elim (undefined_name l from to) [
  | some name ↦ (l, some (record { from = from; to = to; undefined = name }))
  | none ↦ (
    record l { links = insert from (put_edge edge to (or_default (lookup from l.links))) l.links },
    none,
  )
]

unfoldable pub neighbor : Layout → String → Edge → Option String
unfolding get_edge
neighbor l from edge = do m ← lookup from l.links; get_edge edge m

unfoldable pub active_edges : Layout → String → EdgeSet
active_edges l from = elim (lookup from l.links) [
  | none ↦ empty_set
  | some m ↦ edge_set_from empty_set (edges_of m)
]
