-- ===== src/Core/Toys.antt =====
-- Small instances of the interfaces to other crates, on which the tests run: numbers for floats and
-- for JSON values, and a list for a channel.
use hakuraku.Prelude.{
  ℕ, ◌+◌, ◌-◌, ◌*◌, ◌/◌, ◌≤◌, ◌<◌, refl, max, min, leb, arith, le→leb, parse_u64,
}
use hakuraku.Core.Float.{Float, IsFloat}

abbrev pub whole : Float ℕ
whole = record {
  of_u64 = λ n. n;
  ratio = λ a b. a / b;
  add = λ a b. a + b;
  sub = λ a b. a - b;
  mul = λ a b. a * b;
  div = λ a b. a / b;
  maximum = λ a b. max a b;
  to_u64 = λ a. min a 18446744073709551615;
  parse = parse_u64;
  leq = leb;
}

div-le-one : (a b : ℕ) → a ≤ b → 0 < b → a / b ≤ 1
div-le-one a b h k = grind arith

pub whole-IsFloat : IsFloat whole
whole-IsFloat = record {
  div-le = λ a b h k. le→leb (a / b) 1 (div-le-one a b h k);
  div-nonneg = λ a b h. ground arith;
  mul_hundred_le = λ x h. ground arith;
  mul_hundred_nonneg = λ x h. ground arith;
  zero-le = refl;
  zero-le-hundred = refl;
  maximum-ge = λ x n h. omega arith;
  to_u64-lt = λ x. omega arith;
}
