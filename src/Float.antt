-- ===== src/Float.antt =====
-- The `float` (and, at two places, `double`) arithmetic that the code relies on. antt has no
-- floating-point numbers, so the type and its operations are a parameter; `fixed` is an instance
-- that runs, in thousandths.
use flux_dtu.Base.{ℕ, ◌+◌, ◌-◌, ◌*◌, ◌/◌, ◌<◌, Bool, true, false, arith, ltb, if◌then◌else◌, u16}

pub record Float (F : Type 0) : Type 0 where
  pub of_nat : ℕ → F  -- an integer, converted
  pub rational : ℕ → ℕ → F  -- the constant `n / d`
  pub add : F → F → F
  pub sub : F → F → F
  pub mul : F → F → F
  pub div : F → F → F
  pub abs : F → F
  pub round : F → F  -- to an integer
  pub mul_double : F → F → F  -- a product that is not rounded to `float`
  pub lt : F → F → Bool
  pub le : F → F → Bool
  pub is_finite : F → Bool
  pub to_u16 : F → ℕ  -- `static_cast<uint16_t>`
  pub to_u16_fits : (x : F) → to_u16 x < 65_536

module _ {F : Type 0} ⦃fl : Float F⦄ where
  abbrev pub float_min : F → F → F
  float_min a b = if fl.lt b a then b else a

  abbrev pub float_max : F → F → F
  float_max a b = if fl.lt a b then b else a

  abbrev pub clamp : F → F → F → F
  clamp v lo hi = if fl.lt v lo then lo else if fl.lt hi v then hi else v

-- Thousandths, with no NaN, no infinity and no negative number.
pub fixed_fits : (x : ℕ) → u16 (x / 1000) < 65_536
fixed_fits x = omega arith

instance abbrev pub fixed : Float ℕ
fixed = record {
  of_nat = λ n. n * 1000;
  rational = λ n d. n * 1000 / d;
  add = λ a b. a + b;
  sub = λ a b. a - b;
  mul = λ a b. a * b / 1000;
  div = λ a b. a * 1000 / b;
  abs = λ a. a;
  round = λ a. (a + 500) / 1000 * 1000;
  mul_double = λ a b. a * b / 1000;
  lt = λ a b. ltb a b;
  le = λ a b. if ltb b a then false else true;
  is_finite = λ a. true;
  to_u16 = λ a. u16 (a / 1000);
  to_u16_fits = fixed_fits;
}
