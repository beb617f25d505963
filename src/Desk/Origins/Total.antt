-- ===== src/Desk/Origins/Total.antt =====
-- `effective_origins` of desk.rs ends, finds every name it looks up, and places every listed screen.
use geser_desk.Prelude.{
  ℕ, zero, suc, ◌+◌, ◌≤◌, ℤ, pos, String, true, false, List, [], ◌∷◌, ◌++◌, Option, none, some, not,
  ◌||◌, if◌then◌else◌, arith, ◌≡◌, refl, ◌∙◌, inl, inr, add_i32, any, keep, keep-All, length,
  length-append, All, ◌is◌, is_iff, is_refl, Map, lookup, insert, has_key, lookup-insert,
  Bool-cases, Option-cases,
}
use geser_desk.Geometry.{Point, Size, point}
use geser_desk.Edge.{Edge, all_edges}
use geser_desk.Layout.{Layout, neighbor}
use geser_desk.Desk.Origins.{
  listed, beside, place, visit, follow, row, far_sides, maximum_or, or_insert, configured_only,
  effective_origins,
}
use geser_desk.Desk.Origins.Keeps.{
  Keeps, or_insert-Keeps, configured_only-lookup, follow-Keeps, row-Keeps,
}

abbrev pub Keyed : Map Point → String → Type 0
Keyed m n = has_key n m ≡ true

has_key-insert :
    (k n : String) (q : Point) (m : Map Point) → has_key k (insert n q m) ≡ (n is k || has_key k m)
unfolding has_key
has_key-insert k n q m = ground (arith, lookup-insert n k q m)

-- How many listed screens have no place yet.
missing : List String → Map Point → ℕ
missing [] m = 0
missing (n ∷ ns) m = if has_key n m then missing ns m else suc (missing ns m)

missing-insert_le :
    (ns : List String) (b : String) (q : Point) (m : Map Point)
    → missing ns (insert b q m) ≤ missing ns m
unfolding missing
missing-insert_le [] b q m = omega arith
missing-insert_le (n ∷ ns) b q m =
    ground (arith, missing-insert_le ns b q m, has_key-insert n b q m)

missing-insert :
    (ns : List String) (b : String) (q : Point) (m : Map Point)
    → listed ns b ≡ true
    → has_key b m ≡ false
    → suc (missing ns (insert b q m)) ≤ missing ns m
unfolding missing listed any
missing-insert [] b q m l h = cc
missing-insert (n ∷ ns) b q m l h = ground (
  arith,
  missing-insert ns b q m,
  missing-insert_le ns b q m,
  has_key-insert n b q m,
  is_iff n b,
  is_iff b n,
  is_refl b,
  h,
  l,
)

missing-keep :
    (ns : List String) (m : Map Point)
    → length (keep (λ n. has_key n m) ns) + missing ns m ≡ length ns
unfolding missing keep
missing-keep [] m = omega arith
missing-keep (n ∷ ns) m = ground (arith, missing-keep ns m)

no_key : (a : String) (m : Map Point) → lookup a m ≡ none → Keyed m a → ⊥
unfolding has_key
no_key a m e h = ground (arith, e, h)

module _ (order : List String) (layout : Layout) (size_of : String → Size) where
  -- What is queued, and what is still to be placed.
  abbrev load : Map Point × List String → ℕ
  load s = length s.1 + missing order s.0

  record Progress (s t : Map Point × List String) : Type 0 where
    pub lighter : load t ≤ load s
    pub keyed : All (Keyed s.0) s.1 → All (Keyed t.0) t.1

  Keyed-insert :
      (b : String) (q : Point) (m : Map Point) (ns : List String)
      → All (Keyed m) ns
      → All (Keyed (insert b q m)) (ns ++ b ∷ [])
  Keyed-insert b q m [] a = (ground (arith, has_key-insert b b q m, is_refl b), tt)
  Keyed-insert b q m (n ∷ ns) a =
      (ground (arith, has_key-insert n b q m, a.0), Keyed-insert b q m ns a.1)

  place-Progress :
      (a : String) (oa : Point) (e : Edge) (b : Option String) (m : Map Point) (q : List String)
      → Progress (m, q) (place order layout size_of a oa e b (m, q))
  unfolding place
  place-Progress a oa e none m q = record { lighter = omega arith; keyed = λ k. k }
  place-Progress a oa e (some b) m q = elim (Bool-cases (has_key b m || not (listed order b))) [
    | inl t ↦ rw t (record { lighter = omega arith; keyed = λ k. k })
    | inr f ↦
        let at = beside e oa (size_of a) (size_of b) in
        rw f (record {
          lighter = omega (
            arith,
            length-append q (b ∷ []),
            missing-insert order b at m (ground (arith, f)) (ground (arith, f)),
          );
          keyed = Keyed-insert b at m q;
        })
  ]

  visit-Progress :
      (a : String) (oa : Point) (es : List Edge) (m : Map Point) (q : List String)
      → Progress (m, q) (visit order layout size_of a oa es (m, q))
  unfolding visit
  visit-Progress a oa [] m q = record { lighter = omega arith; keyed = λ k. k }
  visit-Progress a oa (e ∷ es) m q =
      let s = place order layout size_of a oa e (neighbor layout a e) (m, q) in
      let p = place-Progress a oa e (neighbor layout a e) m q in
      let r = visit-Progress a oa es s.0 s.1 in
      record { lighter = omega (arith, p.lighter, r.lighter); keyed = λ k. r.keyed (p.keyed k) }

  follow_total :
      (fuel : ℕ) (m : Map Point) (q : List String)
      → load (m, q) ≤ fuel
      → All (Keyed m) q
      → (m' : Map Point) × (follow order layout size_of fuel m q ≡ some m')
  unfolding follow
  follow_total zero m [] h k = (m, refl)
  follow_total (suc fuel) m [] h k = (m, refl)
  follow_total zero m (a ∷ q) h k = absurd (omega (arith, h))
  follow_total (suc fuel) m (a ∷ q) h k = elim (Option-cases (lookup a m)) [
    | inl none_found ↦ absurd (no_key a m none_found k.0)
    | inr (oa, found) ↦
        let s = visit order layout size_of a oa all_edges (m, q) in
        let p = visit-Progress a oa all_edges m q in
        let (m', e) = follow_total fuel s.0 s.1 (omega (arith, p.lighter, h)) (p.keyed k.1) in
        (m', rw (found, follow) e)
  ]

row_places :
    (size_of : String → Size) (ns : List String) (r : ℤ) (m : Map Point) (n : String)
    → listed ns n || has_key n m ≡ true
    → Keyed (row size_of ns r m) n
unfolding row listed any
row_places size_of [] r m n h = h
row_places size_of (k ∷ ns) r m n h = elim (Bool-cases (has_key k m)) [
  | inl t ↦ rw t (row_places size_of ns r m n (ground (arith, h, t, is_iff k n)))
  | inr f ↦ rw f (
      row_places size_of ns (add_i32 r (size_of k).w) (insert k (point r (pos 0)) m) n
        (ground (arith, h, f, is_iff k n, has_key-insert n k (point r (pos 0)) m)))
]

has_key_of : (k : String) (m : Map Point) {p : Point} → lookup k m ≡ some p → Keyed m k
unfolding has_key
has_key_of k m e = ground (arith, e)

or_insert-local :
    (k : String) (p : Point) (m : Map Point)
    → lookup k m ≡ none
    → lookup k (or_insert k p m) ≡ some p
unfolding or_insert
or_insert-local k p m e = ground (arith, e, lookup-insert k k p m, is_refl k)

or_insert-Keyed : (k : String) (p : Point) (m : Map Point) → Keyed (or_insert k p m) k
unfolding or_insert has_key
or_insert-Keyed k p m = ground (arith, lookup-insert k k p m, is_refl k)

configured_only-none :
    (order : List String) (m : Map Point) (k : String)
    → lookup k m ≡ none
    → lookup k (configured_only order m) ≡ none
unfolding configured_only lookup
configured_only-none order [] k h = refl
configured_only-none order ((n, p) ∷ m) k h =
    ground (arith, configured_only-none order m k, is_iff n k, h)

-- With fuel for as many rounds as there are listed screens, `effective_origins` returns a map; every listed screen and
-- the local one have an origin in it. A listed screen with a configured origin keeps that one, and the
-- local screen without a configured origin is at (0, 0).
pub effective_origins_total :
    (fuel : ℕ) (order : List String) (local : String) (layout : Layout) (configured : Map Point)
    (size_of : String → Size)
    → length order ≤ fuel
    → (m : Map Point) × (effective_origins fuel order local layout configured size_of ≡ some m)
      × ((n : String) → listed order n ≡ true → has_key n m ≡ true)
      × (has_key local m ≡ true)
      × ((n : String) (p : Point)
          → listed order n ≡ true
          → lookup n configured ≡ some p
          → lookup n m ≡ some p)
      × (lookup local configured ≡ none → lookup local m ≡ some (point (pos 0) (pos 0)))
unfolding effective_origins
effective_origins_total fuel order local layout configured size_of enough =
    let zero_point = point (pos 0) (pos 0) in
    let only = configured_only order configured in
    let start = or_insert local zero_point only in
    let queue = keep (λ n. has_key n start) order in
    let (placed, e) =
      follow_total order layout size_of fuel start queue
        (omega (arith, missing-keep order start, enough)) (keep-All _ order (λ n h. h)) in
    let r = maximum_or (pos 0) (far_sides size_of order placed) in
    let kept = follow-Keeps order layout size_of fuel start queue e in
    let rows = row-Keeps size_of order r placed in
    (
      row size_of order r placed,
      rw e,
      λ n h. row_places size_of order r placed n (rw h),
      row_places size_of order r placed local
          (ground (arith, at_end local start placed kept (or_insert-Keyed local zero_point only))),
      λ n p l c. rows n p (
          kept n p (
            or_insert-Keeps local zero_point only n p
              (configured_only-lookup order configured n l ∙ c))),
      λ c. rows local zero_point (
          kept local zero_point (
            or_insert-local local zero_point only (configured_only-none order configured local c))),
    )
  where
    at_end : (k : String) (a b : Map Point) → Keeps a b → Keyed a k → Keyed b k
    at_end k a b f h = elim (Option-cases (lookup k a)) [
      | inl e ↦ absurd (no_key k a e h)
      | inr (p, e) ↦ has_key_of k b (f k p e)
    ]
