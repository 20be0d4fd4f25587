-- ===== src/Prelude/Int.antt =====
-- Signed integers over the native numbers, under the library's names, and `i64` with its wrap-around.
use Prim.Native.Nat.{ℕ, suc, ◌+◌, ◌-◌, ◌*◌, ◌%◌, ◌≤◌, ◌<◌}
use mathlib.Core.Path.{◌≡◌}
use mathlib.Core.Bool.{Bool}
use native.Mathlib.Omega.{arith}
use hakuraku.Prelude.Tests.{ltb, leb, if◌then◌else◌}

-- `negsuc n` is -(n + 1).
pub data ℤ : Type 0 where
  pos : ℕ → ℤ
  negsuc : ℕ → ℤ

abbrev pub pos_part : ℤ → ℕ
pos_part (pos n) = n
pos_part (negsuc n) = 0

abbrev pub neg_part : ℤ → ℕ
neg_part (pos n) = 0
neg_part (negsuc n) = suc n

-- a - b, as an integer.
abbrev pub sub_ℕ : ℕ → ℕ → ℤ
sub_ℕ a b = if leb b a then pos (a - b) else negsuc (b - a - 1)

infix 50 ◌≤ℤ◌ ◌<ℤ◌
abbrev pub ◌≤ℤ◌ : ℤ → ℤ → Type 0
a ≤ℤ b = pos_part a + neg_part b ≤ pos_part b + neg_part a

abbrev pub ◌<ℤ◌ : ℤ → ℤ → Type 0
a <ℤ b = pos_part a + neg_part b < pos_part b + neg_part a

abbrev pub ltb_ℤ : ℤ → ℤ → Bool
ltb_ℤ a b = ltb (pos_part a + neg_part b) (pos_part b + neg_part a)

abbrev pub leb_ℤ : ℤ → ℤ → Bool
leb_ℤ a b = leb (pos_part a + neg_part b) (pos_part b + neg_part a)

-- The 64-bit pattern of an `i64`, and the `i64` of a pattern (`as i64`).
abbrev pub bits : ℤ → ℕ
bits (pos n) = n % 18446744073709551616
bits (negsuc n) = 18446744073709551615 - n % 18446744073709551616

abbrev pub as_i64 : ℕ → ℤ
as_i64 m =
    let p = m % 18446744073709551616 in
    if ltb p 9223372036854775808 then pos p else negsuc (18446744073709551615 - p)

-- `a - b` and `a.abs()` as the release profile computes them: modulo 2^64.
unfoldable pub sub_i64 : ℤ → ℤ → ℤ
sub_i64 a b = as_i64 (bits a + (18446744073709551616 - bits b))

unfoldable pub abs_i64 : ℤ → ℤ
abs_i64 a = if ltb_ℤ a (pos 0) then as_i64 (18446744073709551616 - bits a) else a

unfoldable pub mul_i64 : ℤ → ℤ → ℤ
mul_i64 a b = as_i64 (bits a * bits b)

abbrev pub IsI64 : ℤ → Type 0
IsI64 z = (pos_part z < 9223372036854775808) × (neg_part z ≤ 9223372036854775808)

-- Where the difference of two numbers fits, the subtraction is exact.
pub sub_i64-pos :
    (a b : ℕ)
    → a < 9223372036854775808
    → b < 9223372036854775808
    → sub_i64 (pos a) (pos b) ≡ sub_ℕ a b
unfolding sub_i64
sub_i64-pos a b h k = ground arith

pub as_i64-pos : (n : ℕ) → n < 9223372036854775808 → as_i64 n ≡ pos n
as_i64-pos n h = ground arith

pub as_i64-IsI64 : (n : ℕ) → IsI64 (as_i64 n)
as_i64-IsI64 n = ground arith
