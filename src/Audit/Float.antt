-- ===== src/Audit/Float.antt =====
-- The 64-bit floats of audit/density.rs. The language gives no access to how they compute, so the
-- type and the operations that the source applies are parameters, and the laws are the order laws
-- of IEEE arithmetic and of `exp`, on the numbers that the counts of an audit reach.
use rust_doctor.Prelude.{ℕ, ◌+◌, ◌-◌, ◌*◌, ◌/◌, ◌≤◌, Bool, true, ltb, min, max, arith}

pub record Float : Type 1 where
  pub F : Type 0
  pub of_ℕ : ℕ → F
  pub plus : F → F → F
  pub minus : F → F → F
  pub times : F → F → F
  pub over : F → F → F
  pub neg : F → F
  pub exp : F → F
  pub round : F → F
  -- `f64::max`, `f64::min` and `clamp(low, high)`.
  pub greater : F → F → F
  pub lesser : F → F → F
  pub clamp : F → F → F → F
  pub is_finite : F → Bool
  pub is_positive : F → Bool
  -- `as u64`, and `u8::try_from(_ as i64).unwrap_or(100)`.
  pub as_u64 : F → ℕ
  pub as_u8_or_100 : F → ℕ

pub record IsOrdered (f : Float) : Type 1 where
  pub le : f.F → f.F → Type 0
  pub le_self : (x : f.F) → le x x
  pub le_chain : (x y z : f.F) → le x y → le y z → le x z
  pub of_ℕ_nonneg : (n : ℕ) → le (f.of_ℕ 0) (f.of_ℕ n)
  pub plus_left : (x y d : f.F) → le x y → le (f.plus x d) (f.plus y d)
  pub plus_grows : (x d : f.F) → le (f.of_ℕ 0) d → le x (f.plus x d)
  pub plus_nonneg : (x y : f.F) → le (f.of_ℕ 0) x → le (f.of_ℕ 0) y → le (f.of_ℕ 0) (f.plus x y)
  pub times_nonneg : (x y : f.F) → le (f.of_ℕ 0) x → le (f.of_ℕ 0) y → le (f.of_ℕ 0) (f.times x y)
  pub over_nonneg : (x y : f.F) → le (f.of_ℕ 0) x → le (f.of_ℕ 1) y → le (f.of_ℕ 0) (f.over x y)
  pub of_ℕ_mono : (m n : ℕ) → m ≤ n → le (f.of_ℕ m) (f.of_ℕ n)
  pub greater_right : (x y : f.F) → le y (f.greater x y)
  pub neg_anti : (x y : f.F) → le x y → le (f.neg y) (f.neg x)
  pub over_mono :
      (x y : f.F) (n : ℕ) → 1 ≤ n → le x y → le (f.over x (f.of_ℕ n)) (f.over y (f.of_ℕ n))
  pub exp_mono : (x y : f.F) → le x y → le (f.exp x) (f.exp y)
  pub times_mono : (n : ℕ) (x y : f.F) → le x y → le (f.times (f.of_ℕ n) x) (f.times (f.of_ℕ n) y)
  pub clamp_mono :
      (x y : f.F)
      → le x y
      → le (f.clamp x (f.of_ℕ 0) (f.of_ℕ 100)) (f.clamp y (f.of_ℕ 0) (f.of_ℕ 100))
  -- What is clamped to the range of a score rounds into it.
  pub round_bound : (x : f.F) → f.as_u8_or_100 (f.round (f.clamp x (f.of_ℕ 0) (f.of_ℕ 100))) ≤ 100
  pub round_mono :
      (x y : f.F)
      → le (f.clamp x (f.of_ℕ 0) (f.of_ℕ 100)) (f.clamp y (f.of_ℕ 0) (f.of_ℕ 100))
      → f.as_u8_or_100 (f.round (f.clamp x (f.of_ℕ 0) (f.of_ℕ 100)))
        ≤ f.as_u8_or_100 (f.round (f.clamp y (f.of_ℕ 0) (f.of_ℕ 100)))

-- Whole numbers meet every law: `exp` is read as the identity, and negation as the distance to 1000.
abbrev pub whole_float : Float
whole_float = record {
  F = ℕ;
  of_ℕ = λ n. n;
  plus = λ a b. a + b;
  minus = λ a b. a - b;
  times = λ a b. a * b;
  over = λ a b. a / b;
  neg = λ a. 1000 - a;
  exp = λ a. a;
  round = λ a. a;
  greater = λ a b. max a b;
  lesser = λ a b. min a b;
  clamp = λ a low high. min (max a low) high;
  is_finite = λ a. true;
  is_positive = λ a. ltb 0 a;
  as_u64 = λ a. a;
  as_u8_or_100 = λ a. a;
}

pub whole_over : (x y n : ℕ) → 1 ≤ n → x ≤ y → x / n ≤ y / n
whole_over x y n q p = grind arith

pub whole_times : (n x y : ℕ) → x ≤ y → n * x ≤ n * y
whole_times n x y p = grind arith

abbrev pub whole_float-IsOrdered : IsOrdered whole_float
whole_float-IsOrdered = record {
  le = λ a b. a ≤ b;
  le_self = λ x. omega arith;
  le_chain = λ x y z p q. omega arith;
  of_ℕ_nonneg = λ n. omega arith;
  plus_left = λ x y d p. omega arith;
  plus_grows = λ x d p. omega arith;
  plus_nonneg = λ x y p q. omega arith;
  times_nonneg = λ x y p q. omega arith;
  over_nonneg = λ x y p q. omega arith;
  of_ℕ_mono = λ m n p. p;
  greater_right = λ x y. omega arith;
  neg_anti = λ x y p. omega arith;
  over_mono = whole_over;
  exp_mono = λ x y p. p;
  times_mono = whole_times;
  clamp_mono = λ x y p. omega arith;
  round_bound = λ x. omega arith;
  round_mono = λ x y p. p;
}
