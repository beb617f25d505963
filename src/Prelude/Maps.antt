-- ===== src/Prelude/Maps.antt =====
-- A map from screen names: an association list, the first entry of a name counting. A write
-- replaces the entry of its name, or adds one at the end.
use Prim.Native.String.{String}
use mathlib.Core.Path.{◌≡◌, refl, subst}
use mathlib.Core.Logic.{inl, inr}
use mathlib.Core.Bool.{Bool, true, false}
use mathlib.Core.Option.{Option, none, some}
use mathlib.Core.List.{List, [], ◌∷◌}
use native.Mathlib.Omega.{arith}
use text.Mathlib.Text.{◌==◌ as ◌==s◌}
use text.Mathlib.TextEquality.{eq_iff}
use text.Mathlib.TextPositions.{eq_refl}
use geser_desk.Prelude.Tests.{if◌then◌else◌, Bool-cases}
use geser_desk.Prelude.Lists.{All, some_eq}

infix 50 ◌is◌
abbrev pub ◌is◌ : String → String → Bool
s is t = ◌==s◌ s t

pub is_iff : (s t : String) → ((s is t ≡ true) → s ≡ t) × (s ≡ t → s is t ≡ true)
is_iff s t = ((eq_iff s t).0, (eq_iff s t).1)

pub is_refl : (s : String) → s is s ≡ true
is_refl s = eq_refl s

abbrev pub Map {ℓ} : Type ℓ → Type ℓ
Map V = List (String × V)

module _ {ℓ} {V : Type ℓ} where
  unfoldable pub lookup : String → Map V → Option V
  lookup name [] = none
  lookup name ((at, value) ∷ rest) = if at is name then some value else lookup name rest

  unfoldable pub has_key : String → Map V → Bool
  unfolding lookup
  has_key name m = elim (lookup name m) [ none ↦ false | some value ↦ true ]

  unfoldable pub keys : Map V → List String
  keys [] = []
  keys ((at, value) ∷ rest) = at ∷ keys rest

  unfoldable pub insert : String → V → Map V → Map V
  insert name new [] = (name, new) ∷ []
  insert name new ((at, old) ∷ rest) =
      let later = insert name new rest in
      if at is name then (name, new) ∷ rest else (at, old) ∷ later

  unfoldable pub remove : String → Map V → Map V
  remove name [] = []
  remove name ((at, old) ∷ rest) =
      let later = remove name rest in if at is name then later else (at, old) ∷ later

  pub lookup-insert :
      (name read : String) (new : V) (m : Map V)
      → lookup read (insert name new m) ≡ (if name is read then some new else lookup read m)
  unfolding insert lookup
  lookup-insert name read new [] = refl
  lookup-insert name read new ((at, old) ∷ rest) =
      let later = lookup-insert name read new rest in
      ground (arith, later, is_iff at read, is_iff at name, is_iff name read)

  pub lookup-remove :
      (name read : String) (m : Map V)
      → lookup read (remove name m) ≡ (if name is read then none else lookup read m)
  unfolding remove lookup
  lookup-remove name read [] = ground arith
  lookup-remove name read ((at, old) ∷ rest) =
      let later = lookup-remove name read rest in
      ground (arith, later, is_iff at read, is_iff at name, is_iff name read)

  -- A property of every value of a map.
  abbrev pub Values {κ} : (V → Type κ) → Map V → Type κ
  Values P m = All (λ e. P e.1) m

  pub insert-Values {κ} :
      (P : V → Type κ) (name : String) (new : V) (m : Map V)
      → Values P m
      → P new
      → Values P (insert name new m)
  unfolding insert
  insert-Values P name new [] a p = (p, tt)
  insert-Values P name new ((at, old) ∷ rest) a p = elim (Bool-cases (at is name)) [
    | inl t ↦ rw t (p, a.1)
    | inr f ↦ rw f (a.0, insert-Values P name new rest a.1 p)
  ]

  pub remove-Values {κ} :
      (P : V → Type κ) (name : String) (m : Map V) → Values P m → Values P (remove name m)
  unfolding remove
  remove-Values P name [] a = tt
  remove-Values P name ((at, old) ∷ rest) a = elim (Bool-cases (at is name)) [
    | inl t ↦ rw t (remove-Values P name rest a.1)
    | inr f ↦ rw f (a.0, remove-Values P name rest a.1)
  ]

  pub lookup-Values {κ} :
      (P : V → Type κ) (name : String) (m : Map V) {value : V}
      → Values P m
      → lookup name m ≡ some value
      → P value
  unfolding lookup
  lookup-Values P name [] a e = cc
  lookup-Values P name ((at, old) ∷ rest) a e = elim (Bool-cases (at is name)) [
    | inl t ↦ subst P (some_eq (rw t at e)) a.0
    | inr f ↦ lookup-Values P name rest a.1 (rw f at e)
  ]
