-- ===== src/Prelude/Doubles/Bounds.antt =====
-- Bounds of rounded quotients and products.
use Prim.Native.Nat.{ℕ, zero, suc, ◌+◌, ◌-◌, ◌*◌, ◌/◌, ◌%◌, ◌^◌, ◌≤◌, ◌<◌}
use mathlib.Core.Path.{◌≡◌, refl, sym, ap, ◌∙◌}
use mathlib.Core.Logic.{inl, inr}
use mathlib.Core.Bool.{◌&&◌, ◌||◌}
use native.Mathlib.Omega.{arith}
use native.Mathlib.Nat.{
  div-add-mod', div-le_of_le-mul, mul-le-mul_right, one-le-pow, add-suc, add-zero, pow-suc,
  mul_assoc, mul-one, two-pow-succ, le-div_iff_mul-le,
}
use ctxlite.Prelude.Tests.{ltb, ◌==◌, if-either, Bool-cases}
use ctxlite.Prelude.Doubles.{
  bits_from, half_even, round_to_double, quotient_exponent, quotient, times, math_round,
}
use native.Mathlib.Nat.{mul_comm}
use native.Mathlib.Nat.{mul-div_cancel}
use native.Mathlib.Nat.{mul-mod_left}

half_even-le : (n d k : ℕ) → 0 < d → n ≤ k * d → half_even n d ≤ k
unfolding half_even
half_even-le n d k pos h =
    let q = n / d in
    let le : q ≤ k = div-le_of_le-mul d (omega (arith, h)) in
    if-either (λ m. m ≤ k) (ltb d (2 * (n % d)) || 2 * (n % d) == d && q % 2 == 1) _ _
      (λ up. elim (Bool-cases (ltb q k)) [
        | inl lt ↦ ground arith
        | inr ge ↦
            let k≤q : k ≤ q = ground arith in
            let again : k * d ≤ q * d = mul-le-mul_right d k≤q in
            let rest : 0 < n % d = ground (arith, up, pos) in
            let parts : q * d + n % d ≡ n = div-add-mod' n d in
            let no : ⊥ = omega (arith, again, rest, parts, h) in elim no [ ]
      ])
      (λ down. le)

bits_from-le : (fuel n k : ℕ) → n < 2 ^ k → bits_from fuel n ≤ k
unfolding bits_from
bits_from-le zero n k h = omega arith
bits_from-le (suc fuel) n zero h = ground (arith, h)
bits_from-le (suc fuel) n (suc k) h =
    ground (arith, bits_from-le fuel (n / 2) k (omega (arith, h, two-pow-succ k)))

pow_split : (a b : ℕ) → 2 ^ (a + b) ≡ 2 ^ a * 2 ^ b
pow_split a zero = rw (add-zero, mul-one) refl
pow_split a (suc b) = rw (add-suc, pow-suc, pow-suc, pow_split a b) (mul_assoc (2 ^ a) (2 ^ b) 2)

-- A number that is at most a short multiple of a power of two still is when it is rounded.
round_to_double-le : (p c e : ℕ) → c < 2 ^ 53 → p ≤ c * 2 ^ e → round_to_double p ≤ c * 2 ^ e
unfolding round_to_double
round_to_double-le p c e small h =
    let dropped = bits_from p p - 53 in
    let below : p < 2 ^ (53 + e) =
      (let one : 1 ≤ 2 ^ e = one-le-pow e 2 (omega arith) in
        let room : suc c * 2 ^ e ≤ 2 ^ 53 * 2 ^ e = mul-le-mul_right (2 ^ e) small in
        grind (arith, one, room, h, pow_split 53 e)) in
    let few : dropped ≤ e = omega (arith, bits_from-le p p (53 + e) below) in
    let parts : 2 ^ e ≡ 2 ^ (e - dropped) * 2 ^ dropped =
      ap (λ (n : ℕ). 2 ^ n) (omega (arith, few)) ∙ pow_split (e - dropped) dropped in
    if-either (λ m. m ≤ c * 2 ^ e) (dropped == 0) _ _ (λ z. h)
      (λ z.
        rw (parts, sym (mul_assoc c (2 ^ (e - dropped)) (2 ^ dropped)))
          (mul-le-mul_right (2 ^ dropped) (
            half_even-le p (2 ^ dropped) (c * 2 ^ (e - dropped))
              (one-le-pow dropped 2 (omega arith))
              (rw (mul_assoc c (2 ^ (e - dropped)) (2 ^ dropped), sym parts) h))))

quotient-le : (a b : ℕ) → 0 < b → a ≤ b → (quotient a b).mantissa ≤ 2 ^ (quotient a b).exponent
unfolding quotient
quotient-le a b pos h =
    let e = quotient_exponent a b in
    half_even-le (a * 2 ^ e) b (2 ^ e) pos
      (let le : a * 2 ^ e ≤ b * 2 ^ e = mul-le-mul_right (2 ^ e) h in rw (mul_comm (2 ^ e) b) le)

nearest-le : (m p k : ℕ) → 1 ≤ p → m ≤ k * p → (2 * m + p) / (2 * p) ≤ k
nearest-le m p k pos h = elim (Bool-cases (ltb k ((2 * m + p) / (2 * p)))) [
  | inl lt ↦
      let more : suc k ≤ (2 * m + p) / (2 * p) = ground arith in
      let all : suc k * (2 * p) ≤ 2 * m + p = (le-div_iff_mul-le (omega arith)).0 more in
      let no : ⊥ = grind (arith, all, h, pos) in elim no [ ]
  | inr ge ↦ ground arith
]

-- A part of a whole is at most all of `k` cells.
pub math_round-times :
    (a b k : ℕ) → k < 2 ^ 53 → 0 < b → a ≤ b → math_round (times (quotient a b) k) ≤ k
unfolding math_round times
math_round-times a b k small pos h =
    let x = quotient a b in
    let p = 2 ^ x.exponent in
    let one : 1 ≤ p = one-le-pow x.exponent 2 (omega arith) in
    let le : x.mantissa * k ≤ k * p =
      (let le : x.mantissa * k ≤ p * k = mul-le-mul_right k (quotient-le a b pos h) in
        rw (mul_comm k p) le) in
    let r = round_to_double-le (x.mantissa * k) k x.exponent small le in
    nearest-le (round_to_double (x.mantissa * k)) p k one r

half_even-multiple : (k d : ℕ) → 0 < d → half_even (k * d) d ≡ k
unfolding half_even
half_even-multiple k d pos =
    let q : k * d / d ≡ k = mul-div_cancel k pos in
    let r : k * d % d ≡ 0 = mul-mod_left k d in rw (q, r) (ground (arith, pos))

-- The whole has all of 20 cells.
pub math_round-times-whole : (b : ℕ) → 0 < b → math_round (times (quotient b b) 20) ≡ 20
unfolding math_round times quotient quotient_exponent
math_round-times-whole b pos =
    let e : quotient_exponent b b ≡ 52 =
      (let x : 53 + bits_from b b - bits_from b b ≡ 53 = omega arith in rw x (ground arith)) in
    let m : half_even (b * 2 ^ 52) b ≡ 2 ^ 52 =
      rw (mul_comm b (2 ^ 52)) (half_even-multiple (2 ^ 52) b pos) in
    rw (e, m) refl

-- Nothing has no cell.
pub math_round-times-nothing : (b : ℕ) → 0 < b → math_round (times (quotient 0 b) 20) ≡ 0
unfolding math_round times quotient
math_round-times-nothing b pos =
    let m : half_even (0 * 2 ^ quotient_exponent 0 b) b ≡ 0 =
      omega (arith, half_even-le (0 * 2 ^ quotient_exponent 0 b) b 0 pos (omega arith)) in
    let one : 1 ≤ 2 ^ quotient_exponent 0 b = one-le-pow (quotient_exponent 0 b) 2 (omega arith) in
    rw m (omega (arith, nearest-le 0 (2 ^ quotient_exponent 0 b) 0 one (omega arith)))
