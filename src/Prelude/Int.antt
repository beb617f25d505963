-- ===== src/Prelude/Int.antt =====
-- Signed integers over the native numbers, under the library's names (its ℤ stands on the unary ℕ),
-- and the machine types i32 and i64: an arithmetic result is wrapped to its width, as a release
-- build does it.
use Prim.Native.Nat.{ℕ, suc, ◌+◌, ◌-◌, ◌*◌, ◌/◌, ◌%◌, ◌≤◌, ◌<◌}
use mathlib.Core.Path.{◌≡◌, refl}
use mathlib.Core.Bool.{Bool}
use mathlib.Core.Logic.{◌⊎◌, inl, inr}
use mathlib.Core.Option.{Option, none, some}
use native.Mathlib.Omega.{arith}
use geser_desk.Prelude.Tests.{ltb, leb, ◌==◌, if◌then◌else◌}

-- `negsuc n` is -(n + 1).
pub data ℤ : Type 0 where
  pos : ℕ → ℤ
  negsuc : ℕ → ℤ

abbrev pub pos_part : ℤ → ℕ
pos_part (pos n) = n
pos_part (negsuc n) = 0

abbrev pub neg_part : ℤ → ℕ
neg_part (pos n) = 0
neg_part (negsuc n) = suc n

-- a - b, as an integer.
abbrev pub sub_ℕ : ℕ → ℕ → ℤ
sub_ℕ a b = if leb b a then pos (a - b) else negsuc (b - a - 1)

infixl 65 ◌+ℤ◌ ◌-ℤ◌
infixl 70 ◌*ℤ◌
infix 50 ◌≤ℤ◌ ◌<ℤ◌
unfoldable pub ◌+ℤ◌ : ℤ → ℤ → ℤ
a +ℤ b = sub_ℕ (pos_part a + pos_part b) (neg_part a + neg_part b)

unfoldable pub ◌-ℤ◌ : ℤ → ℤ → ℤ
a -ℤ b = sub_ℕ (pos_part a + neg_part b) (neg_part a + pos_part b)

unfoldable pub ◌*ℤ◌ : ℤ → ℤ → ℤ
a *ℤ b =
    sub_ℕ (pos_part a * pos_part b + neg_part a * neg_part b)
      (pos_part a * neg_part b + neg_part a * pos_part b)

abbrev pub ◌≤ℤ◌ : ℤ → ℤ → Type 0
a ≤ℤ b = pos_part a + neg_part b ≤ pos_part b + neg_part a

abbrev pub ◌<ℤ◌ : ℤ → ℤ → Type 0
a <ℤ b = pos_part a + neg_part b < pos_part b + neg_part a

abbrev pub ltb_ℤ : ℤ → ℤ → Bool
ltb_ℤ a b = ltb (pos_part a + neg_part b) (pos_part b + neg_part a)

abbrev pub leb_ℤ : ℤ → ℤ → Bool
leb_ℤ a b = leb (pos_part a + neg_part b) (pos_part b + neg_part a)

abbrev pub eqb_ℤ : ℤ → ℤ → Bool
eqb_ℤ a b = (pos_part a + neg_part b) == (pos_part b + neg_part a)

-- One lemma for each operation lets `omega` work with the operations shut, at any depth.
pub +ℤ_parts :
    (a b : ℤ)
    → pos_part (a +ℤ b) + neg_part a + neg_part b ≡ neg_part (a +ℤ b) + pos_part a + pos_part b
unfolding ◌+ℤ◌
+ℤ_parts a b = ground arith

pub -ℤ_parts :
    (a b : ℤ)
    → pos_part (a -ℤ b) + neg_part a + pos_part b ≡ neg_part (a -ℤ b) + pos_part a + neg_part b
unfolding ◌-ℤ◌
-ℤ_parts a b = ground arith

pub eq_of_parts : (a b : ℤ) → pos_part a + neg_part b ≡ pos_part b + neg_part a → a ≡ b
eq_of_parts a b h = ground arith

-- An integer has at most one part that is not 0.
pub one_part : (a : ℤ) → (pos_part a ≡ 0) ⊎ (neg_part a ≡ 0)
one_part (pos n) = inr refl
one_part (negsuc n) = inl refl

pub ruleset int_laws = (arith, +ℤ_parts, -ℤ_parts, eq_of_parts)

-- The values of an i32 and of an i64.
pub record InI32 (a : ℤ) : Type 0 where
  pub below : pos_part a < 2147483648
  pub above : neg_part a ≤ 2147483648

pub record InI64 (a : ℤ) : Type 0 where
  pub below : pos_part a < 9223372036854775808
  pub above : neg_part a ≤ 9223372036854775808

-- An integer brought into the range of an i32, or an i64, modulo its width.
unfoldable pub wrap_i32 : ℤ → ℤ
wrap_i32 a =
    sub_ℕ ((pos_part a + 2147483648 + (4294967296 - neg_part a % 4294967296)) % 4294967296)
      2147483648

unfoldable pub wrap_i64 : ℤ → ℤ
wrap_i64 a =
    sub_ℕ
      ((pos_part a
          + 9223372036854775808
          + (18446744073709551616 - neg_part a % 18446744073709551616))
        % 18446744073709551616)
      9223372036854775808

pub wrap_i32_id : (a : ℤ) → InI32 a → wrap_i32 a ≡ a
unfolding wrap_i32
wrap_i32_id (pos n) h = ground arith
wrap_i32_id (negsuc n) h = ground arith

pub wrap_i64_id : (a : ℤ) → InI64 a → wrap_i64 a ≡ a
unfolding wrap_i64
wrap_i64_id (pos n) h = ground arith
wrap_i64_id (negsuc n) h = ground arith

pub wrap_i32-InI32 : (a : ℤ) → InI32 (wrap_i32 a)
unfolding wrap_i32
wrap_i32-InI32 (pos n) = ground arith
wrap_i32-InI32 (negsuc n) = ground arith

-- `a + b`, `a - b`, `a * b` on i32, and on i64.
unfoldable pub add_i32 : ℤ → ℤ → ℤ
add_i32 a b = wrap_i32 (a +ℤ b)

unfoldable pub sub_i32 : ℤ → ℤ → ℤ
sub_i32 a b = wrap_i32 (a -ℤ b)

unfoldable pub mul_i32 : ℤ → ℤ → ℤ
mul_i32 a b = wrap_i32 (a *ℤ b)

unfoldable pub add_i64 : ℤ → ℤ → ℤ
add_i64 a b = wrap_i64 (a +ℤ b)

unfoldable pub sub_i64 : ℤ → ℤ → ℤ
sub_i64 a b = wrap_i64 (a -ℤ b)

unfoldable pub mul_i64 : ℤ → ℤ → ℤ
mul_i64 a b = wrap_i64 (a *ℤ b)

-- `a / 2` on i32: it rounds towards zero.
unfoldable pub half_i32 : ℤ → ℤ
half_i32 (pos n) = pos (n / 2)
half_i32 (negsuc n) = sub_ℕ 0 (suc n / 2)

pub add_i32_parts :
    (a b : ℤ)
    → pos_part a + pos_part b < 2147483648 + neg_part a + neg_part b
    → neg_part a + neg_part b ≤ 2147483648 + pos_part a + pos_part b
    → pos_part (add_i32 a b) + neg_part a + neg_part b
      ≡ neg_part (add_i32 a b) + pos_part a + pos_part b
unfolding add_i32
add_i32_parts a b h k = rw (wrap_i32_id (a +ℤ b) fits) (+ℤ_parts a b)
  where
    fits : InI32 (a +ℤ b)
    fits = omega (arith, +ℤ_parts a b, one_part (a +ℤ b))

pub sub_i32_parts :
    (a b : ℤ)
    → pos_part a + neg_part b < 2147483648 + neg_part a + pos_part b
    → neg_part a + pos_part b ≤ 2147483648 + pos_part a + neg_part b
    → pos_part (sub_i32 a b) + neg_part a + pos_part b
      ≡ neg_part (sub_i32 a b) + pos_part a + neg_part b
unfolding sub_i32
sub_i32_parts a b h k = rw (wrap_i32_id (a -ℤ b) fits) (-ℤ_parts a b)
  where
    fits : InI32 (a -ℤ b)
    fits = omega (arith, -ℤ_parts a b, one_part (a -ℤ b))

pub add_i32-InI32 : (a b : ℤ) → InI32 (add_i32 a b)
unfolding add_i32
add_i32-InI32 a b = wrap_i32-InI32 (a +ℤ b)

pub sub_i32-InI32 : (a b : ℤ) → InI32 (sub_i32 a b)
unfolding sub_i32
sub_i32-InI32 a b = wrap_i32-InI32 (a -ℤ b)

-- `i32` sums and differences whose exact value fits, for `omega`.
pub ruleset i32_laws = (arith, add_i32_parts, sub_i32_parts, eq_of_parts)

-- `Ord::min`, `Ord::max`.
unfoldable pub min_ℤ : ℤ → ℤ → ℤ
min_ℤ a b = if leb_ℤ a b then a else b

unfoldable pub max_ℤ : ℤ → ℤ → ℤ
max_ℤ a b = if leb_ℤ a b then b else a

-- `Ord::clamp`, which panics when the bounds are crossed.
unfoldable pub clamp_ℤ : ℤ → ℤ → ℤ → Option ℤ
clamp_ℤ v lo hi =
    if ltb_ℤ hi lo then none else some (if ltb_ℤ v lo then lo else if ltb_ℤ hi v then hi else v)

-- The value of a `clamp` that does not panic.
abbrev pub clamped : ℤ → ℤ → ℤ → ℤ
clamped v lo hi = if ltb_ℤ v lo then lo else if ltb_ℤ hi v then hi else v

pub clamp_ℤ_lem : (v lo hi : ℤ) → lo ≤ℤ hi → clamp_ℤ v lo hi ≡ some (clamped v lo hi)
unfolding clamp_ℤ
clamp_ℤ_lem v lo hi h = ground arith

pub clamped_bounds : (v lo hi : ℤ) → lo ≤ℤ hi → (lo ≤ℤ clamped v lo hi) × (clamped v lo hi ≤ℤ hi)
clamped_bounds v lo hi h = ground arith

pub clamped_inside : (v lo hi : ℤ) → lo ≤ℤ v → v ≤ℤ hi → clamped v lo hi ≡ v
clamped_inside v lo hi h k = ground arith

-- Wrapping keeps an integer's residue.
wrap_i32_residue :
    (a : ℤ)
    → (pos_part (wrap_i32 a) + neg_part a) % 4294967296
      ≡ (neg_part (wrap_i32 a) + pos_part a) % 4294967296
unfolding wrap_i32
wrap_i32_residue (pos n) = ground arith
wrap_i32_residue (negsuc n) = ground arith

pub add_i32_residue :
    (a b : ℤ)
    → (pos_part (add_i32 a b) + neg_part a + neg_part b) % 4294967296
      ≡ (neg_part (add_i32 a b) + pos_part a + pos_part b) % 4294967296
unfolding add_i32
add_i32_residue a b = omega (arith, wrap_i32_residue (a +ℤ b), +ℤ_parts a b)

pub sub_i32_residue :
    (a b : ℤ)
    → (pos_part (sub_i32 a b) + neg_part a + pos_part b) % 4294967296
      ≡ (neg_part (sub_i32 a b) + pos_part a + neg_part b) % 4294967296
unfolding sub_i32
sub_i32_residue a b = omega (arith, wrap_i32_residue (a -ℤ b), -ℤ_parts a b)

-- Two i32 values of one residue are one.
pub eq_of_residue :
    (a b : ℤ)
    → InI32 a
    → InI32 b
    → (pos_part a + neg_part b) % 4294967296 ≡ (pos_part b + neg_part a) % 4294967296
    → a ≡ b
eq_of_residue a b h k e = eq_of_parts a b (omega (arith, h, k, e, one_part a, one_part b))
