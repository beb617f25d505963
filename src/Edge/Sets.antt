-- ===== src/Edge/Sets.antt =====
-- What an `EdgeSet` of geometry.rs holds after edges were put in.
use geser_desk.Prelude.{
  ℕ, zero, suc, ◌<◌, Bool, true, false, List, [], ◌∷◌, ◌&&◌, ◌||◌, not, ◌≡◌, refl, arith, any, ltb,
  ltb→lt,
}
use geser_desk.Edge.{
  Edge, left, right, top, bottom, edge_eq, EdgeSet, empty_set, with_edge, contains_edge,
  edge_set_from,
}

-- The sets are those of the four lowest bits: every set met is one of them.
abbrev IsEdgeSet : EdgeSet → Type 0
IsEdgeSet s = s.bits < 16

every_set : (ℕ → Bool) → ℕ → Bool
every_set test zero = true
every_set test (suc n) = every_set test n && test n

test-every_set :
    (test : ℕ → Bool) (count : ℕ)
    → every_set test count ≡ true
    → (bits : ℕ) → bits < count
    → test bits ≡ true
unfolding every_set
test-every_set test zero h bits below = absurd (omega arith)
test-every_set test (suc n) h bits below = grind (arith, test-every_set test n)

same : Bool → Bool → Bool
same true b = b
same false b = not b

same_sound : (a b : Bool) → same a b ≡ true → a ≡ b
unfolding same
same_sound a b h = ground arith

-- One edge put into one set: the sixteen sets are tried.
agrees : Edge → Edge → ℕ → Bool
unfolding contains_edge with_edge same
agrees e x n =
    same (contains_edge (with_edge (record { bits = n }) e) x)
      (edge_eq e x || contains_edge (record { bits = n }) x)

agrees_table : (e x : Edge) → every_set (agrees e x) 16 ≡ true
unfolding every_set agrees
agrees_table left left = refl
agrees_table left right = refl
agrees_table left top = refl
agrees_table left bottom = refl
agrees_table right left = refl
agrees_table right right = refl
agrees_table right top = refl
agrees_table right bottom = refl
agrees_table top left = refl
agrees_table top right = refl
agrees_table top top = refl
agrees_table top bottom = refl
agrees_table bottom left = refl
agrees_table bottom right = refl
agrees_table bottom top = refl
agrees_table bottom bottom = refl

with_edge_table :
    (e : Edge) → every_set (λ n. ltb (with_edge (record { bits = n }) e).bits 16) 16 ≡ true
unfolding every_set with_edge
with_edge_table left = refl
with_edge_table right = refl
with_edge_table top = refl
with_edge_table bottom = refl

pub with_edge-IsEdgeSet : (s : EdgeSet) (e : Edge) → IsEdgeSet s → IsEdgeSet (with_edge s e)
with_edge-IsEdgeSet s e h = ltb→lt _ 16 (test-every_set _ 16 (with_edge_table e) s.bits h)

pub contains-with_edge :
    (s : EdgeSet) (e x : Edge)
    → IsEdgeSet s
    → contains_edge (with_edge s e) x ≡ (edge_eq e x || contains_edge s x)
unfolding agrees
contains-with_edge s e x h =
    same_sound _ _ (test-every_set (agrees e x) 16 (agrees_table e x) s.bits h)

fold-contains :
    (s : EdgeSet) (es : List Edge) (x : Edge)
    → IsEdgeSet s
    → contains_edge (edge_set_from s es) x ≡ (any (λ e. edge_eq e x) es || contains_edge s x)
unfolding edge_set_from any
fold-contains s [] x h = refl
fold-contains s (e ∷ es) x h = ground (
  arith,
  fold-contains (with_edge s e) es x (with_edge-IsEdgeSet s e h),
  contains-with_edge s e x h,
)

contains-empty_set : (x : Edge) → contains_edge empty_set x ≡ false
unfolding contains_edge empty_set
contains-empty_set left = refl
contains-empty_set right = refl
contains-empty_set top = refl
contains-empty_set bottom = refl

empty_set-IsEdgeSet : IsEdgeSet empty_set
unfolding empty_set
empty_set-IsEdgeSet = omega arith

-- A set collected from edges holds exactly those edges.
pub edge_set_from-contains :
    (es : List Edge) (x : Edge)
    → contains_edge (edge_set_from empty_set es) x ≡ any (λ e. edge_eq e x) es
edge_set_from-contains es x =
    ground (arith, fold-contains empty_set es x empty_set-IsEdgeSet, contains-empty_set x)
