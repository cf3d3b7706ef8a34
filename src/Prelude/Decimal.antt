-- ===== src/Prelude/Decimal.antt =====
-- Numbers in template literals, and how long their decimal digits are.
use Prim.Native.Nat.{ℕ, zero, suc, ◌+◌, ◌-◌, ◌/◌, ◌*◌, ◌%◌, ◌^◌, ◌≤◌, ◌<◌}
use mathlib.Core.Path.{◌≡◌}
use mathlib.Core.List.{◌∷◌, []}
use native.Mathlib.Omega.{arith}
use native.Mathlib.Nat.{pow-suc}
use ctxlite.Prelude.Tests.{ltb, leb, if◌then◌else◌}
use ctxlite.Prelude.Lists.{length}
use ctxlite.Prelude.Strings.{Text}
use ctxlite.Prelude.Lists.{All}
use ctxlite.Prelude.Tests.{if-either}

-- the decimal digits of a number: `${n}`
digits_from : ℕ → ℕ → Text → Text
digits_from zero n out = out
digits_from (suc fuel) n out =
    let out' = (b'0' + n % 10) ∷ out in
    let more = digits_from fuel (n / 10) out' in if ltb n 10 then out' else more

unfoldable pub print_nat : ℕ → Text
unfolding digits_from
print_nat n = digits_from (suc n) n []

-- `${a - b}`, which is negative where `b` is larger
unfoldable pub print_sub : ℕ → ℕ → Text
unfolding print_nat
print_sub a b = if leb b a then print_nat (a - b) else b'-' ∷ print_nat (b - a)

length-digits_from :
    (d fuel n : ℕ) (out : Text)
    → n < 10 ^ suc d
    → length (digits_from fuel n out) ≤ length out + suc d
unfolding digits_from
length-digits_from d zero n out h = omega arith
length-digits_from zero (suc fuel) n out h = ground arith
length-digits_from (suc d) (suc fuel) n out h =
    let k : 10 ^ suc (suc d) ≡ 10 ^ suc d * 10 = pow-suc 10 (suc d) in
    ground (arith, k, length-digits_from d fuel (n / 10) ((b'0' + n % 10) ∷ out))

pub length-print_nat : (d n : ℕ) → n < 10 ^ suc d → length (print_nat n) ≤ suc d
unfolding print_nat
length-print_nat d n h = omega (arith, length-digits_from d (suc n) n [] h)

digits_from-All :
    (P : ℕ → Type 0)
    → ((d : ℕ) → d < 10 → P (b'0' + d))
    → (fuel n : ℕ) (out : Text) → All P out
    → All P (digits_from fuel n out)
unfolding digits_from
digits_from-All P digit zero n out h = h
digits_from-All P digit (suc fuel) n out h =
    let one : P (b'0' + n % 10) = digit (n % 10) (omega arith) in
    if-either (All P) (ltb n 10) _ _ (λ e. (one, h))
      (λ e. digits_from-All P digit fuel (n / 10) ((b'0' + n % 10) ∷ out) (one, h))

-- A number is written in digits.
pub print_nat-All :
    (P : ℕ → Type 0) → ((d : ℕ) → d < 10 → P (b'0' + d)) → (n : ℕ) → All P (print_nat n)
unfolding print_nat
print_nat-All P digit n = digits_from-All P digit (suc n) n [] tt
