-- ===== src/Prelude/Lists.antt =====
-- Lists measured by native numbers, searched by Boolean tests, and the Option monad.
use Prim.Native.Nat.{ℕ, zero, suc, ◌+◌, min}
use mathlib.Core.Path.{◌≡◌, refl}
use mathlib.Core.Bool.{Bool, true, false, ◌||◌}
use mathlib.Core.Logic.{inl, inr}
use mathlib.Core.Option.{Option, none, some, some-injective}
use mathlib.Core.List.{List, [], ◌∷◌, ◌++◌}
use native.Mathlib.Omega.{arith}
use geser_desk.Prelude.Tests.{if◌then◌else◌, Bool-cases}

infixl 5 ◌>>=◌
abbrev pub ◌>>=◌ {ℓ κ} : {A : Type ℓ} {B : Type κ} → Option A → (A → Option B) → Option B
none >>= f = none
some a >>= f = f a

module _ {ℓ} {A : Type ℓ} where
  abbrev pub is_some : Option A → Bool
  is_some none = false
  is_some (some a) = true

  abbrev pub length : List A → ℕ
  length [] = 0
  length (x ∷ xs) = suc (length xs)

  abbrev pub take : ℕ → List A → List A
  take zero xs = []
  take (suc n) [] = []
  take (suc n) (x ∷ xs) = x ∷ take n xs

  abbrev pub drop : ℕ → List A → List A
  drop zero xs = xs
  drop (suc n) [] = []
  drop (suc n) (x ∷ xs) = drop n xs

  abbrev pub get_elem? : List A → ℕ → Option A
  get_elem? [] i = none
  get_elem? (x ∷ xs) zero = some x
  get_elem? (x ∷ xs) (suc i) = get_elem? xs i

  abbrev pub is_empty : List A → Bool
  is_empty [] = true
  is_empty (x ∷ xs) = false

  abbrev pub head? : List A → Option A
  head? [] = none
  head? (x ∷ xs) = some x

  -- `iter().any(p)`, `iter().find(p)`, `filter(p)`.
  unfoldable pub any : (A → Bool) → List A → Bool
  any p [] = false
  any p (x ∷ xs) = p x || any p xs

  unfoldable pub find : (A → Bool) → List A → Option A
  find p [] = none
  find p (x ∷ xs) = if p x then some x else find p xs

  unfoldable pub keep : (A → Bool) → List A → List A
  keep p [] = []
  keep p (x ∷ xs) = if p x then x ∷ keep p xs else keep p xs

  -- A predicate on every element, which the tactics read as a tuple.
  abbrev pub All {κ} : (A → Type κ) → List A → Type κ
  All P [] = Unit
  All P (x ∷ xs) = P x × All P xs

  -- One element has the property; the list holds it as evidence.
  pub data Some {κ} (P : A → Type κ) : List A → Type (ℓ ⊔ κ) where
    here : {x : A} {xs : List A} → P x → Some P (x ∷ xs)
    there : {x : A} {xs : List A} → Some P xs → Some P (x ∷ xs)

  pub append_nil : (xs : List A) → xs ++ [] ≡ xs
  append_nil [] = refl
  append_nil (x ∷ xs) = rw (append_nil xs)

  pub append_assoc : (xs ys zs : List A) → (xs ++ ys) ++ zs ≡ xs ++ (ys ++ zs)
  append_assoc [] ys zs = refl
  append_assoc (x ∷ xs) ys zs = rw (append_assoc xs ys zs)

  pub length-append : (xs ys : List A) → length (xs ++ ys) ≡ length xs + length ys
  length-append [] ys = omega arith
  length-append (x ∷ xs) ys = omega (arith, length-append xs ys)

  pub take-append-drop : (n : ℕ) (xs : List A) → take n xs ++ drop n xs ≡ xs
  take-append-drop zero xs = refl
  take-append-drop (suc n) [] = refl
  take-append-drop (suc n) (x ∷ xs) = rw (take-append-drop n xs)

  pub length-take : (n : ℕ) (xs : List A) → length (take n xs) ≡ min n (length xs)
  length-take zero xs = omega arith
  length-take (suc n) [] = omega arith
  length-take (suc n) (x ∷ xs) = omega (arith, length-take n xs)

  pub some_eq : {a b : A} → some a ≡ some b → a ≡ b
  some_eq {a} {b} e = some-injective a b e

  -- What `find` returns passes the test.
  pub find-holds : (p : A → Bool) (xs : List A) {x : A} → find p xs ≡ some x → p x ≡ true
  unfolding find
  find-holds p [] e = cc
  find-holds p (y ∷ ys) e = elim (Bool-cases (p y)) [
    | inl t ↦ ground (arith, t)
    | inr f ↦ find-holds p ys (ground arith)
  ]

  -- It fails where nothing passes the test, and only there.
  pub find-any :
      (p : A → Bool) (xs : List A) → any p xs ≡ true → (x : A) × (find p xs ≡ some x) × (p x ≡ true)
  unfolding find any
  find-any p [] h = cc
  find-any p (x ∷ xs) h = elim (Bool-cases (p x)) [
    | inl t ↦ (x, rw t, t)
    | inr f ↦ let (y, e, t) = find-any p xs (ground arith) in (y, ground arith, t)
  ]

  pub find-All {κ} :
      (P : A → Type κ) (p : A → Bool) (xs : List A) {x : A} → All P xs → find p xs ≡ some x → P x
  unfolding find
  find-All P p [] a e = cc
  find-All P p (y ∷ ys) a e = elim (Bool-cases (p y)) [
    | inl t ↦ ground arith
    | inr f ↦ find-All P p ys a.1 (ground arith)
  ]

  pub keep-All {κ} :
      {P : A → Type κ} (p : A → Bool) (xs : List A)
      → ((x : A) → p x ≡ true → P x)
      → All P (keep p xs)
  unfolding keep
  keep-All p [] h = tt
  keep-All p (x ∷ xs) h = elim (Bool-cases (p x)) [
    | inl t ↦ rw t (h x t, keep-All p xs h)
    | inr f ↦ rw f (keep-All p xs h)
  ]

  pub take-All {κ} : (P : A → Type κ) (n : ℕ) (xs : List A) → All P xs → All P (take n xs)
  take-All P zero xs a = tt
  take-All P (suc n) [] a = tt
  take-All P (suc n) (x ∷ xs) a = (a.0, take-All P n xs a.1)

  pub All-map {κ ι} :
      {P : A → Type κ} {Q : A → Type ι} (f : (x : A) → P x → Q x) (xs : List A)
      → All P xs
      → All Q xs
  All-map f [] a = tt
  All-map f (x ∷ xs) a = (f x a.0, All-map f xs a.1)
