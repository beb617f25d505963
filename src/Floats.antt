-- ===== src/Floats.antt =====
-- The f64 operations that the desk geometry uses, as an interface: the conversions from and to
-- i32, the product, the quotient and the rounding. Multiplying an i32 by 1.0, or dividing it by
-- 1.0, is exact; a cast back to i32 saturates, so it always gives an i32.
use geser_desk.Prelude.{ℤ, InI32, ◌≡◌}

pub record Floats : Type 1 where
  pub F64 : Type 0
  pub one : F64
  -- `f64::from`
  pub from_i32 : ℤ → F64
  pub mul : F64 → F64 → F64
  pub div : F64 → F64 → F64
  -- `.round() as i32` and `.floor() as i32`
  pub round_i32 : F64 → ℤ
  pub floor_i32 : F64 → ℤ
  pub round-mul_one : (v : ℤ) → InI32 v → round_i32 (mul (from_i32 v) one) ≡ v
  pub floor-div_one : (v : ℤ) → InI32 v → floor_i32 (div (from_i32 v) one) ≡ v
  pub round-InI32 : (f : F64) → InI32 (round_i32 f)
  pub floor-InI32 : (f : F64) → InI32 (floor_i32 f)
