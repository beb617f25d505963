-- ===== src/Version/Agreement.antt =====
-- Both sides of the negotiation of version.rs.
use geser_desk.Prelude.{◌≤◌, true, false, ◌==◌, arith, ◌≡◌, refl, ◌⊎◌, inl, inr, Bool-cases, min}
use geser_desk.Version.{Version, ok, err, is_compatible_with, negotiate}

-- What the two sides negotiate agrees: when one finds the other compatible, both get the same version, of their major
-- version and of a minor version that each of them has; otherwise both fail, and each names its own version first.
pub negotiate_agrees :
    (v w : Version)
    → ((is_compatible_with v w ≡ true)
        × ((u : Version) × (negotiate v w ≡ ok u)
            × (negotiate w v ≡ ok u)
            × (u.major ≡ v.major)
            × (u.minor ≤ v.minor)
            × (u.minor ≤ w.minor)))
      ⊎ ((is_compatible_with v w ≡ false)
          × (negotiate v w ≡ err (record { local = v; remote = w }))
          × (negotiate w v ≡ err (record { local = w; remote = v })))
unfolding negotiate is_compatible_with
negotiate_agrees v w = elim (Bool-cases (v.major == w.major)) [
  | inl t ↦
      let same : v.major ≡ w.major = ground (arith, t) in
      let back : (w.major == v.major) ≡ true = ground (arith, t) in
      let least : min w.minor v.minor ≡ min v.minor w.minor = omega arith in
      inl (
        t,
        (
          record { major = v.major; minor = min v.minor w.minor },
          rw t refl,
          rw (back, ← same, least) refl,
          refl,
          omega arith,
          omega arith,
        ),
      )
  | inr f ↦
      let back : (w.major == v.major) ≡ false = ground (arith, f) in
      inr (f, rw f refl, rw back refl)
]
