-- ===== src/Core/Float.antt =====
-- The operations on `f64` that the crates use. Hardware floats are a parameter of the model.
use hakuraku.Prelude.{ℕ, ◌≤◌, ◌<◌, ◌≡◌, Bool, true, Option, Text}

pub record Float (F : Type 0) : Type 0 where
  pub of_u64 : ℕ → F
  -- The float nearest to a / b: a literal.
  pub ratio : ℕ → ℕ → F
  pub add : F → F → F
  pub sub : F → F → F
  pub mul : F → F → F
  pub div : F → F → F
  pub maximum : F → F → F
  -- `as u64`: towards zero, and saturating.
  pub to_u64 : F → ℕ
  pub parse : Text → Option F
  pub leq : F → F → Bool

-- What IEEE 754 and Rust's conversions promise and a proof uses.
pub record IsFloat {F : Type 0} (f : Float F) : Type 0 where
  pub div-le :
      (a b : ℕ) → a ≤ b → 0 < b → f.leq (f.div (f.of_u64 a) (f.of_u64 b)) (f.of_u64 1) ≡ true
  pub div-nonneg : (a b : ℕ) → 0 < b → f.leq (f.of_u64 0) (f.div (f.of_u64 a) (f.of_u64 b)) ≡ true
  pub mul_hundred_le :
      (x : F) → f.leq x (f.of_u64 1) ≡ true → f.leq (f.mul x (f.ratio 100 1)) (f.of_u64 100) ≡ true
  pub mul_hundred_nonneg :
      (x : F) → f.leq (f.of_u64 0) x ≡ true → f.leq (f.of_u64 0) (f.mul x (f.ratio 100 1)) ≡ true
  pub zero-le : f.leq (f.of_u64 0) (f.ratio 0 1) ≡ true
  pub zero-le-hundred : f.leq (f.ratio 0 1) (f.of_u64 100) ≡ true
  pub maximum-ge : (x : F) (n : ℕ) → n < 9007199254740992 → n ≤ f.to_u64 (f.maximum x (f.ratio n 1))
  pub to_u64-lt : (x : F) → f.to_u64 x < 18446744073709551616
