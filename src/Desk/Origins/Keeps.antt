-- ===== src/Desk/Origins/Keeps.antt =====
-- `effective_origins` of desk.rs never moves a screen that has a place.
use geser_desk.Prelude.{
  ℕ, zero, suc, ℤ, pos, String, true, false, List, [], ◌∷◌, Option, none, some, not, ◌||◌, arith,
  ◌≡◌, refl, inl, inr, add_i32, is_iff, Map, lookup, insert, has_key, lookup-insert, Bool-cases,
  Option-cases,
}
use geser_desk.Geometry.{Point, Size, point}
use geser_desk.Edge.{Edge, all_edges}
use geser_desk.Layout.{Layout, neighbor}
use geser_desk.Desk.Origins.{listed, configured_only, or_insert, beside, place, visit, follow, row}

-- The second map has every entry of the first.
abbrev pub Keeps : Map Point → Map Point → Type 0
Keeps m m' = (k : String) (p : Point) → lookup k m ≡ some p → lookup k m' ≡ some p

Keeps-trans : (a b c : Map Point) → Keeps a b → Keeps b c → Keeps a c
Keeps-trans a b c f g k p e = g k p (f k p e)

pub insert-Keeps :
    (n : String) (q : Point) (m : Map Point) → has_key n m ≡ false → Keeps m (insert n q m)
unfolding has_key
insert-Keeps n q m h k p e = ground (arith, lookup-insert n k q m, is_iff n k, h, e)

pub or_insert-Keeps : (n : String) (q : Point) (m : Map Point) → Keeps m (or_insert n q m)
unfolding or_insert has_key
or_insert-Keeps n q m k p e =
    ground (arith, insert-Keeps n q m, lookup-insert n k q m, is_iff n k, e)

-- The entry of a listed screen survives the choice of the listed ones.
pub configured_only-lookup :
    (order : List String) (m : Map Point) (k : String)
    → listed order k ≡ true
    → lookup k (configured_only order m) ≡ lookup k m
unfolding configured_only lookup
configured_only-lookup order [] k h = refl
configured_only-lookup order ((n, p) ∷ m) k h =
    ground (arith, configured_only-lookup order m k h, is_iff n k, h)

module _ (order : List String) (layout : Layout) (size_of : String → Size) where
  place-Keeps :
      (a : String) (oa : Point) (e : Edge) (b : Option String) (m : Map Point) (q : List String)
      → Keeps m (place order layout size_of a oa e b (m, q)).0
  unfolding place
  place-Keeps a oa e none m q k p h = h
  place-Keeps a oa e (some b) m q k p h = elim (Bool-cases (has_key b m || not (listed order b))) [
    | inl t ↦ rw t h
    | inr f ↦ rw f (insert-Keeps b (beside e oa (size_of a) (size_of b)) m (ground arith) k p h)
  ]

  visit-Keeps :
      (a : String) (oa : Point) (es : List Edge) (s : Map Point × List String)
      → Keeps s.0 (visit order layout size_of a oa es s).0
  unfolding visit
  visit-Keeps a oa [] s = λ k p h. h
  visit-Keeps a oa (e ∷ es) (m, q) =
      Keeps-trans m _ _ (place-Keeps a oa e (neighbor layout a e) m q)
        (visit-Keeps a oa es (place order layout size_of a oa e (neighbor layout a e) (m, q)))

  pub follow-Keeps :
      (fuel : ℕ) (m : Map Point) (q : List String) {m' : Map Point}
      → follow order layout size_of fuel m q ≡ some m'
      → Keeps m m'
  unfolding follow
  follow-Keeps zero m [] e = λ k p h. ground arith
  follow-Keeps (suc fuel) m [] e = λ k p h. ground arith
  follow-Keeps zero m (a ∷ q) e = cc
  follow-Keeps (suc fuel) m (a ∷ q) e = elim (Option-cases (lookup a m)) [
    | inl missing ↦ cc (rw (missing, follow) at e)
    | inr (oa, found) ↦
        let s = visit order layout size_of a oa all_edges (m, q) in
        Keeps-trans m _ _ (visit-Keeps a oa all_edges (m, q))
          (follow-Keeps fuel s.0 s.1 (rw (found, follow) at e))
  ]

pub row-Keeps :
    (size_of : String → Size) (ns : List String) (right_end : ℤ) (m : Map Point)
    → Keeps m (row size_of ns right_end m)
unfolding row
row-Keeps size_of [] r m = λ k p h. h
row-Keeps size_of (n ∷ ns) r m = elim (Bool-cases (has_key n m)) [
  | inl t ↦ rw t (row-Keeps size_of ns r m)
  | inr f ↦ rw f (
      Keeps-trans m _ _ (insert-Keeps n (point r (pos 0)) m f)
        (row-Keeps size_of ns (add_i32 r (size_of n).w) (insert n (point r (pos 0)) m)))
]
