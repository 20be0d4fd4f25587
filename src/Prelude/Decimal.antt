-- ===== src/Prelude/Decimal.antt =====
-- Decimal text of the integer types: `to_string`, and `parse::<u64>()`, `parse::<i64>()` and
-- `parse::<i32>()`, which refuse what overflows the type.
use Prim.Native.Nat.{ℕ, zero, suc, ◌+◌, ◌-◌, ◌*◌, ◌/◌, ◌%◌, ◌≤◌, ◌<◌}
use mathlib.Core.Path.{◌≡◌, refl}
use mathlib.Core.Logic.{◌≢◌, inl, inr}
use mathlib.Core.Bool.{Bool, true, false, ◌&&◌}
use mathlib.Core.List.{[], ◌∷◌, ◌++◌}
use mathlib.Core.Option.{Option, none, some}
use native.Mathlib.Omega.{arith}
use hakuraku.Prelude.Tests.{ltb, leb, ◌==◌, if◌then◌else◌, Bool-cases}
use hakuraku.Prelude.Lists.{All, All-append}
use hakuraku.Prelude.Int.{ℤ, pos, negsuc, IsI64, pos_part, neg_part}
use hakuraku.Prelude.Texts.{Text, codes}

abbrev pub is_digit : ℕ → Bool
is_digit c = leb b'0' c && leb c b'9'

-- One digit in each round, so that `suc n` rounds are enough for `n`.
unfoldable pub print_rounds : ℕ → ℕ → Text
print_rounds zero n = []
print_rounds (suc rounds) n =
    let front = print_rounds rounds (n / 10) in
    if ltb n 10 then (b'0' + n) ∷ [] else front ++ (b'0' + n % 10) ∷ []

unfoldable pub print_u64 : ℕ → Text
unfolding print_rounds
print_u64 n = print_rounds (suc n) n

unfoldable pub print_i64 : ℤ → Text
unfolding print_u64
print_i64 (pos n) = print_u64 n
print_i64 (negsuc n) = b'-' ∷ print_u64 (suc n)

unfoldable pub digits_from : ℕ → Text → Option ℕ
digits_from acc [] = some acc
digits_from acc (c ∷ s) = if is_digit c then digits_from (acc * 10 + (c - b'0')) s else none

unfoldable pub magnitude : Text → Option ℕ
unfolding digits_from
magnitude [] = none
magnitude (c ∷ s) = digits_from 0 (c ∷ s)

abbrev below : ℕ → Option ℕ → Option ℕ
below limit none = none
below limit (some n) = if ltb n limit then some n else none

unfoldable pub parse_u64 : Text → Option ℕ
unfolding magnitude
parse_u64 [] = none
parse_u64 (c ∷ s) =
    below 18446744073709551616 (if c == b'+' then magnitude s else magnitude (c ∷ s))

-- `u16`.
unfoldable pub parse_u16 : Text → Option ℕ
unfolding magnitude
parse_u16 [] = none
parse_u16 (c ∷ s) = below 65536 (if c == b'+' then magnitude s else magnitude (c ∷ s))

abbrev pub negate : ℕ → ℤ
negate zero = pos 0
negate (suc n) = negsuc n

abbrev signed_below : ℕ → Bool → Option ℕ → Option ℤ
signed_below limit minus none = none
signed_below limit minus (some n) =
    if minus
    then (if leb n limit then some (negate n) else none)
    else (if ltb n limit then some (pos n) else none)

-- A signed type of magnitude `limit`: from -limit up to limit - 1.
unfoldable pub parse_signed : ℕ → Text → Option ℤ
unfolding magnitude
parse_signed limit [] = none
parse_signed limit (c ∷ s) =
    if c == b'-'
    then signed_below limit true (magnitude s)
    else signed_below limit false (if c == b'+' then magnitude s else magnitude (c ∷ s))

abbrev pub parse_i64 : Text → Option ℤ
parse_i64 = parse_signed 9223372036854775808

abbrev pub parse_i32 : Text → Option ℤ
parse_i32 = parse_signed 2147483648

digits_from-snoc :
    (acc d v : ℕ) (s : Text)
    → d < 10
    → digits_from acc s ≡ some v
    → digits_from acc (s ++ (b'0' + d) ∷ []) ≡ some (v * 10 + d)
unfolding digits_from
digits_from-snoc acc d v [] hd h = ground arith
digits_from-snoc acc d v (c ∷ s) hd h =
    ground (arith, digits_from-snoc (acc * 10 + (c - b'0')) d v s)

digits_from-print_rounds :
    (rounds n : ℕ) → n < rounds → digits_from 0 (print_rounds rounds n) ≡ some n
unfolding print_rounds digits_from
digits_from-print_rounds zero n h = elim h [ ]
digits_from-print_rounds (suc rounds) n h = ground (
  arith,
  digits_from-print_rounds rounds (n / 10),
  digits_from-snoc 0 (n % 10) (n / 10) (print_rounds rounds (n / 10)),
)

abbrev pub IsDigit : ℕ → Type 0
IsDigit c = (48 ≤ c) × (c ≤ 57)

print_rounds-IsDigit : (rounds n : ℕ) → All IsDigit (print_rounds rounds n)
unfolding print_rounds
print_rounds-IsDigit zero n = tt
print_rounds-IsDigit (suc rounds) n = elim (Bool-cases (ltb n 10)) [
  | inl short ↦ rw short ((omega arith, ground arith), tt)
  | inr long ↦ rw long (
      All-append IsDigit (print_rounds rounds (n / 10)) _ (print_rounds-IsDigit rounds (n / 10))
        (omega arith, tt))
]

pub print_u64-IsDigit : (n : ℕ) → All IsDigit (print_u64 n)
unfolding print_u64
print_u64-IsDigit n = print_rounds-IsDigit (suc n) n

digits_from-print_u64 : (n : ℕ) → digits_from 0 (print_u64 n) ≡ some n
unfolding print_u64
digits_from-print_u64 n = digits_from-print_rounds (suc n) n (omega arith)

snoc-ne-nil : (s : Text) (d : ℕ) → s ++ d ∷ [] ≢ []
snoc-ne-nil [] d h = cc
snoc-ne-nil (c ∷ s) d h = cc

print_u64-ne-nil : (n : ℕ) → print_u64 n ≢ []
unfolding print_u64 print_rounds
print_u64-ne-nil n = elim (Bool-cases (ltb n 10)) [
  | inl short ↦ rw short (λ e. cc)
  | inr long ↦ rw long (snoc-ne-nil (print_rounds n (n / 10)) _)
]

-- Text that is not empty and starts with a digit has no sign to strip.
parse_u64_digits :
    (s : Text) (n : ℕ)
    → All IsDigit s
    → s ≢ []
    → digits_from 0 s ≡ some n
    → n < 18446744073709551616
    → parse_u64 s ≡ some n
unfolding parse_u64 magnitude
parse_u64_digits [] n d h e k = absurd (h refl)
parse_u64_digits (c ∷ s) n d h e k = ground (arith, d.0)

parse_signed_digits :
    (limit : ℕ) (s : Text) (n : ℕ)
    → All IsDigit s
    → s ≢ []
    → digits_from 0 s ≡ some n
    → n < limit
    → parse_signed limit s ≡ some (pos n)
unfolding parse_signed magnitude
parse_signed_digits limit [] n d h e k = absurd (h refl)
parse_signed_digits limit (c ∷ s) n d h e k = ground (arith, d.0)

parse_signed_minus :
    (limit : ℕ) (s : Text) (n : ℕ)
    → s ≢ []
    → digits_from 0 s ≡ some (suc n)
    → suc n ≤ limit
    → parse_signed limit (b'-' ∷ s) ≡ some (negsuc n)
unfolding parse_signed magnitude
parse_signed_minus limit [] n h e k = absurd (h refl)
parse_signed_minus limit (c ∷ s) n h e k = ground arith

-- What is parsed is in range.
pub parse_u64-lt : (s : Text) {n : ℕ} → parse_u64 s ≡ some n → n < 18446744073709551616
unfolding parse_u64
parse_u64-lt [] h = cc
parse_u64-lt (c ∷ s) h = ground arith

pub parse_signed_range :
    (limit : ℕ) (s : Text) {z : ℤ}
    → 0 < limit
    → parse_signed limit s ≡ some z
    → (pos_part z < limit) × (neg_part z ≤ limit)
unfolding parse_signed
parse_signed_range limit [] k h = cc
parse_signed_range limit (c ∷ s) k h = ground arith

-- What `to_string` prints, `parse` reads back.
pub parse_u64-print_u64 : (n : ℕ) → n < 18446744073709551616 → parse_u64 (print_u64 n) ≡ some n
parse_u64-print_u64 n h =
    parse_u64_digits (print_u64 n) n (print_u64-IsDigit n) (print_u64-ne-nil n)
      (digits_from-print_u64 n) h

pub parse_i64-print_i64 : (z : ℤ) → IsI64 z → parse_i64 (print_i64 z) ≡ some z
unfolding print_i64
parse_i64-print_i64 (pos n) h =
    parse_signed_digits _ (print_u64 n) n (print_u64-IsDigit n) (print_u64-ne-nil n)
      (digits_from-print_u64 n) h.0
parse_i64-print_i64 (negsuc n) h =
    parse_signed_minus _ (print_u64 (suc n)) n (print_u64-ne-nil (suc n))
      (digits_from-print_u64 (suc n)) h.1

-- Header values hold visible ASCII.
abbrev pub IsVisible : ℕ → Type 0
IsVisible c = (32 ≤ c) × (c < 127)

IsDigit-IsVisible : (s : Text) → All IsDigit s → All IsVisible s
IsDigit-IsVisible [] h = tt
IsDigit-IsVisible (c ∷ s) h = (omega arith, IsDigit-IsVisible s h.1)

pub print_i64-IsVisible : (z : ℤ) → All IsVisible (print_i64 z)
unfolding print_i64
print_i64-IsVisible (pos n) = IsDigit-IsVisible _ (print_u64-IsDigit n)
print_i64-IsVisible (negsuc n) = (omega arith, IsDigit-IsVisible _ (print_u64-IsDigit (suc n)))

parses :
    (parse_u64 (codes "+12") ≡ some 12)
    × (parse_u64 (codes "-1") ≡ none)
    × (parse_i64 (codes "-9223372036854775808") ≡ some (negsuc 9223372036854775807))
    × (parse_i64 (codes "9223372036854775808") ≡ none)
    × (parse_u64 (codes "1x") ≡ none)
    × (print_u64 1721634839 ≡ codes "1721634839")
unfolding parse_u64 parse_signed print_u64 magnitude
parses = (refl, refl, refl, refl, refl, refl)
