-- ===== src/Examples/Rationals.antt =====
-- An arithmetic that does what the desk geometry asks of f64: exact fractions, rounded and cast to
-- i32 with saturation.
use geser_desk.Prelude.{
  ℕ, suc, ◌+◌, ◌-◌, ◌*◌, ◌/◌, ℤ, pos, negsuc, sub_ℕ, ◌*ℤ◌, InI32, leb, if◌then◌else◌, arith, ◌≡◌,
}
use geser_desk.Floats.{Floats}

pub record Fraction : Type 0 where
  pub num : ℤ
  pub den : ℕ

abbrev fraction : ℤ → ℕ → Fraction
fraction n d = record { num = n; den = d }

abbrev times : Fraction → Fraction → Fraction
times a b = fraction (a.num *ℤ b.num) (a.den * b.den)

-- The sign of the divisor goes to the numerator.
abbrev over : Fraction → Fraction → Fraction
over a b = elim b.num [
  | pos n ↦ fraction (a.num *ℤ pos b.den) (a.den * n)
  | negsuc n ↦ fraction (a.num *ℤ sub_ℕ 0 b.den) (a.den * suc n)
]

abbrev saturate : ℤ → ℤ
saturate (pos n) = if leb n 2147483647 then pos n else pos 2147483647
saturate (negsuc n) = if leb n 2147483647 then negsuc n else negsuc 2147483647

-- Half away from zero, and down.
abbrev rounded : ℤ → ℕ → ℤ
rounded (pos n) d = pos ((2 * n + d) / (2 * d))
rounded (negsuc n) d = sub_ℕ 0 ((2 * suc n + d) / (2 * d))

abbrev floored : ℤ → ℕ → ℤ
floored (pos n) d = pos (n / d)
floored (negsuc n) d = sub_ℕ 0 ((suc n + (d - 1)) / d)

pub saturate-InI32 : (z : ℤ) → InI32 (saturate z)
saturate-InI32 (pos n) = ground arith
saturate-InI32 (negsuc n) = ground arith

unit_right : (v : ℤ) → (v *ℤ pos 1) ≡ v
unfolding ◌*ℤ◌
unit_right (pos n) = ground arith
unit_right (negsuc n) = ground arith

saturate_id : (v : ℤ) → InI32 v → saturate v ≡ v
saturate_id (pos n) h = ground arith
saturate_id (negsuc n) h = ground arith

rounded_one : (v : ℤ) → rounded v 1 ≡ v
rounded_one (pos n) = ground arith
rounded_one (negsuc n) = ground arith

floored_one : (v : ℤ) → floored v 1 ≡ v
floored_one (pos n) = ground arith
floored_one (negsuc n) = ground arith

pub round-unit : (v : ℤ) → InI32 v → saturate (rounded (v *ℤ pos 1) 1) ≡ v
round-unit v h = rw (unit_right v, rounded_one v) (saturate_id v h)

pub floor-unit : (v : ℤ) → InI32 v → saturate (floored (v *ℤ pos 1) 1) ≡ v
floor-unit v h = rw (unit_right v, floored_one v) (saturate_id v h)

abbrev pub rationals : Floats
rationals = record {
  F64 = Fraction;
  one = fraction (pos 1) 1;
  from_i32 = λ v. fraction v 1;
  mul = times;
  div = over;
  round_i32 = λ f. saturate (rounded f.num f.den);
  floor_i32 = λ f. saturate (floored f.num f.den);
  round-mul_one = round-unit;
  floor-div_one = floor-unit;
  round-InI32 = λ f. saturate-InI32 (rounded f.num f.den);
  floor-InI32 = λ f. saturate-InI32 (floored f.num f.den);
}
