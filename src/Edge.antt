-- ===== src/Edge.antt =====
-- crates/geserdesk-proto/src/geometry.rs: the edges a cursor can cross, and sets of them.
pub mod Sets
use geser_desk.Prelude.{ℕ, Bool, List, [], ◌∷◌, not, ◌==◌, bit_and, bit_or}

pub data Edge : Type 0 where
  left right top bottom : Edge

-- `Edge::ALL`.
abbrev pub all_edges : List Edge
all_edges = left ∷ right ∷ top ∷ bottom ∷ []

unfoldable pub opposite : Edge → Edge
opposite left = right
opposite right = left
opposite top = bottom
opposite bottom = top

-- `edge as u8`, for the derived `==` and order too.
abbrev pub edge_index : Edge → ℕ
edge_index left = 0
edge_index right = 1
edge_index top = 2
edge_index bottom = 3

abbrev pub edge_eq : Edge → Edge → Bool
edge_eq a b = edge_index a == edge_index b

-- A set of edges: the bits of a u8.
pub record EdgeSet : Type 0 where
  pub bits : ℕ

-- `1 << (edge as u8)`.
abbrev edge_bit : Edge → ℕ
edge_bit left = 1
edge_bit right = 2
edge_bit top = 4
edge_bit bottom = 8

unfoldable pub empty_set : EdgeSet
empty_set = record { bits = 0 }

unfoldable pub with_edge : EdgeSet → Edge → EdgeSet
with_edge s e = record { bits = bit_or s.bits (edge_bit e) }

unfoldable pub insert_edge : EdgeSet → Edge → EdgeSet
insert_edge s e = record { bits = bit_or s.bits (edge_bit e) }

unfoldable pub contains_edge : EdgeSet → Edge → Bool
contains_edge s e = not (bit_and s.bits (edge_bit e) == 0)

unfoldable pub is_empty_set : EdgeSet → Bool
is_empty_set s = s.bits == 0

-- `FromIterator`: a fold of `with`.
unfoldable pub edge_set_from : EdgeSet → List Edge → EdgeSet
unfolding with_edge
edge_set_from s [] = s
edge_set_from s (e ∷ es) = edge_set_from (with_edge s e) es
