-- ===== src/Prelude/Doubles.antt =====
-- Multiplication of an integer by a double below 1, and `Math.round` of the product.
pub mod Bounds
use Prim.Native.Nat.{ℕ, zero, suc, ◌+◌, ◌-◌, ◌*◌, ◌/◌, ◌%◌, ◌^◌}
use mathlib.Core.Path.{◌≡◌, refl}
use mathlib.Core.Bool.{◌&&◌, ◌||◌}
use ctxlite.Prelude.Tests.{ltb, ◌==◌, if◌then◌else◌}

-- the number of binary digits; `n` rounds are enough
unfoldable pub bits_from : ℕ → ℕ → ℕ
bits_from zero n = 0
bits_from (suc fuel) n = let more = suc (bits_from fuel (n / 2)) in if n == 0 then 0 else more

-- `n / d` rounded to the nearest whole number, in a tie to the even one.
unfoldable pub half_even : ℕ → ℕ → ℕ
half_even n d =
    let q = n / d in let r = n % d in if ltb d (2 * r) || 2 * r == d && q % 2 == 1 then q + 1 else q

-- An integer rounded to 53 significant bits, to the nearest and in a tie to the even one.
unfoldable pub round_to_double : ℕ → ℕ
unfolding bits_from half_even
round_to_double p = let e = bits_from p p - 53 in if e == 0 then p else half_even p (2 ^ e) * 2 ^ e

-- `Math.round(n * 0.7)`: the double 0.7 is 6305039478318694 / 2^53.
unfoldable pub round_seven_tenths : ℕ → ℕ
unfolding round_to_double
round_seven_tenths n = (round_to_double (n * 6305039478318694) + 2 ^ 52) / 2 ^ 53

some_products :
    (round_seven_tenths 5 ≡ 4) × (round_seven_tenths 45 ≡ 31) × (round_seven_tenths 2000 ≡ 1400)
unfolding round_seven_tenths
some_products = (refl, refl, refl)

-- A double that is not negative: `mantissa / 2 ^ exponent`.
pub record BinaryFraction : Type 0 where
  pub mantissa : ℕ
  pub exponent : ℕ

-- The exponent for which `n / d` has 53 digits.
unfoldable pub quotient_exponent : ℕ → ℕ → ℕ
unfolding bits_from
quotient_exponent n d =
    let e = 53 + bits_from d d - bits_from n n in if ltb (n * 2 ^ e) (d * 2 ^ 53) then e else e - 1

-- `n / d`, for quotients that are less than 2 ^ 53
unfoldable pub quotient : ℕ → ℕ → BinaryFraction
unfolding half_even quotient_exponent
quotient n d =
    let e = quotient_exponent n d in record { mantissa = half_even (n * 2 ^ e) d; exponent = e }

-- `x * k`
unfoldable pub times : BinaryFraction → ℕ → BinaryFraction
unfolding round_to_double
times x k = record { mantissa = round_to_double (x.mantissa * k); exponent = x.exponent }

-- `Math.round(x)`
unfoldable pub math_round : BinaryFraction → ℕ
math_round x = (2 * x.mantissa + 2 ^ x.exponent) / (2 * 2 ^ x.exponent)

-- The nearest multiple of `10 ^ -digits`, in a tie the larger one, as the number of these.
unfoldable pub scaled : ℕ → BinaryFraction → ℕ
scaled digits x = (2 * 10 ^ digits * x.mantissa + 2 ^ x.exponent) / (2 * 2 ^ x.exponent)

-- `Math.round((1 / 40) * 20)`, `Math.round((23 / 40) * 20)` and tenths of 1.15 and 999.999
some_quotients :
    (math_round (times (quotient 1 40) 20) ≡ 1)
    × (math_round (times (quotient 23 40) 20) ≡ 12)
    × (scaled 1 (quotient 1150 1000) ≡ 11)
    × (scaled 1 (quotient 1250 1000) ≡ 13)
    × (scaled 1 (quotient 999999 1000) ≡ 10000)
unfolding math_round times quotient half_even quotient_exponent round_to_double scaled
some_quotients = (refl, refl, refl, refl, refl)
