-- ===== src/Precall/Split/Operators.antt =====
-- About the places where a command is split (tool-precall.ts).
use ctxlite.Prelude.{
  ℕ, zero, suc, ◌+◌, ◌≤◌, ◌<◌, ◌≡◌, refl, Bool, true, false, ◌&&◌, ◌||◌, not, Option, none, some,
  List, [], ◌∷◌, arith, Text, str, length, starts_with, ◌==◌, if◌then◌else◌, Bool-cases,
}
use ctxlite.Precall.Split.{
  Segment, split_from, split_top_level, is_double, is_single, is_background,
}
use ctxlite.Prelude.{inl}
use ctxlite.Prelude.{inr}
use mathlib.Core.Path.{subst}
use ctxlite.Prelude.{◌∙◌}
use ctxlite.Prelude.{ap}

-- The `&` at the beginning of the text belongs to a redirection: it stands behind `>` or `<`, or
-- before `>`.
abbrev pub is_redirection : Option ℕ → Text → Bool
is_redirection none s = starts_with s (str "&>")
is_redirection (some c) s = c == b'>' || c == b'<' || starts_with s (str "&>")

-- The length of the operator at the beginning of the text, with the unit before; 0 for none.
unfoldable pub operator_length : Option ℕ → Text → ℕ
unfolding starts_with str
operator_length prev s =
    if starts_with s (str "&&") || starts_with s (str "||")
    then 2
    else if starts_with s (str ";") || starts_with s (str "|")
    then 1
    else if starts_with s (str "&") && not (is_redirection prev s)
    then 1
    else 0

-- The same at a place behind the beginning.
unfoldable pub operator_at : Option ℕ → Text → ℕ → ℕ
unfolding operator_length
operator_at prev s zero = operator_length prev s
operator_at prev [] (suc i) = 0
operator_at prev (c ∷ s) (suc i) = operator_at (some c) s i

operator_length-double :
    (prev : Option ℕ) (c d : ℕ) (s : Text)
    → is_double c d ≡ true
    → operator_length prev (c ∷ d ∷ s) ≡ 2
unfolding operator_length starts_with str
operator_length-double prev c d s e = ground arith

operator_length-here :
    (prev : Option ℕ) (c d : ℕ) (s : Text)
    → is_double c d ≡ false
    → is_single c || is_background prev c (some d) ≡ true
    → operator_length prev (c ∷ d ∷ s) ≡ 1
unfolding operator_length starts_with str
operator_length-here none c d s e f = ground arith
operator_length-here (some p) c d s e f = ground arith

operator_length-on :
    (prev : Option ℕ) (c d : ℕ) (s : Text)
    → is_double c d ≡ false
    → is_single c || is_background prev c (some d) ≡ false
    → operator_length prev (c ∷ d ∷ s) ≡ 0
unfolding operator_length starts_with str
operator_length-on none c d s e f = ground arith
operator_length-on (some p) c d s e f = ground arith

operator_length-last :
    (prev : Option ℕ) (c : ℕ)
    → is_single c || is_background prev c none ≡ true
    → operator_length prev (c ∷ []) ≡ 1
unfolding operator_length starts_with str
operator_length-last none c f = ground arith
operator_length-last (some p) c f = ground arith

operator_length-no_last :
    (prev : Option ℕ) (c : ℕ)
    → is_single c || is_background prev c none ≡ false
    → operator_length prev (c ∷ []) ≡ 0
unfolding operator_length starts_with str
operator_length-no_last none c f = ground arith
operator_length-no_last (some p) c f = ground arith

module _ (skeleton : Text) where
  -- No operator begins at one of these places.
  abbrev pub IsFree : ℕ → ℕ → Type 0
  IsFree start end = (i : ℕ) → start ≤ i → i < end → operator_at none skeleton i ≡ 0

  -- The first segment begins at `start`; no operator begins in a segment; each but the last ends
  -- where an operator begins, behind which the next one begins; the last ends with the text.
  abbrev pub IsSplit : ℕ → List Segment → Type 0
  IsSplit start [] = ⊥
  IsSplit start (seg ∷ []) =
      (seg.start ≡ start) × (start ≤ seg.end) × IsFree start seg.end × (seg.end ≡ length skeleton)
  IsSplit start (seg ∷ next ∷ segs) =
      (seg.start ≡ start)
      × (start ≤ seg.end)
      × IsFree start seg.end
      × (0 < operator_at none skeleton seg.end)
      × IsSplit (seg.end + operator_at none skeleton seg.end) (next ∷ segs)

  IsSplit-cons :
      (start end n : ℕ) (segs : List Segment)
      → start ≤ end
      → IsFree start end
      → operator_at none skeleton end ≡ suc n
      → IsSplit (end + suc n) segs
      → IsSplit start (record { start = start; end = end } ∷ segs)
  IsSplit-cons start end n [] h free e t = absurd t
  IsSplit-cons start end n (next ∷ segs) h free e t = (refl, h, free, omega (arith, e), rw e t)

  IsFree-suc :
      (start i : ℕ) → IsFree start i → operator_at none skeleton i ≡ 0 → IsFree start (i + 1)
  IsFree-suc start i free e j h k = elim (Bool-cases (j == i)) [
    | inl same ↦ let here : j ≡ i = ground (arith, same) in rw here e
    | inr other ↦ free j h (ground (arith, other, k))
  ]

  IsFree-none : (i : ℕ) → IsFree i i
  IsFree-none i j h k = omega (arith, h, k)

  -- The text from place `i` on, with the unit before.
  abbrev IsRest : ℕ → Option ℕ → Text → Type 0
  IsRest i prev s = (k : ℕ) → operator_at none skeleton (i + k) ≡ operator_at prev s k

  IsRest-suc :
      (i c : ℕ) (prev : Option ℕ) (s : Text) → IsRest i prev (c ∷ s) → IsRest (i + 1) (some c) s
  unfolding operator_at
  IsRest-suc i c prev s rest k =
      let e : (i + 1) + k ≡ i + suc k = omega arith in rw e (rest (suc k))

  IsRest-two :
      (i c d : ℕ) (prev : Option ℕ) (s : Text)
      → IsRest i prev (c ∷ d ∷ s)
      → IsRest (i + 2) (some d) s
  unfolding operator_at
  IsRest-two i c d prev s rest k =
      let e : i + suc (suc k) ≡ (i + 2) + k = omega arith in
      subst (λ n. operator_at none skeleton n ≡ operator_at (some d) s k) e (rest (suc (suc k)))

  IsRest-here :
      (i : ℕ) (prev : Option ℕ) (s : Text)
      → IsRest i prev s
      → operator_at none skeleton i ≡ operator_length prev s
  unfolding operator_at
  IsRest-here i prev s rest =
      let e : i + 0 ≡ i = omega arith in
      subst (λ n. operator_at none skeleton n ≡ operator_length prev s) e (rest 0)

  split_from-IsSplit :
      (start i : ℕ) (prev : Option ℕ) (s : Text)
      → start ≤ i
      → IsFree start i
      → i + length s ≡ length skeleton
      → IsRest i prev s
      → IsSplit start (split_from start i prev s)
  unfolding split_from
  split_from-IsSplit start i prev [] h free all rest = (refl, h, free, omega (arith, all))
  split_from-IsSplit start i prev (c ∷ []) h free all rest =
      let here = IsRest-here i prev (c ∷ []) rest in
      let next = IsRest-suc i c prev [] rest in
      elim (Bool-cases (is_single c || is_background prev c none)) [
        | inl e ↦
            let n = here ∙ operator_length-last prev c e in
            rw e (
              IsSplit-cons start i 0 (split_from (i + 1) (i + 1) (some c) []) h free n (
                split_from-IsSplit (i + 1) (i + 1) (some c) [] (omega arith) (IsFree-none (i + 1))
                  (omega (arith, all)) next))
        | inr e ↦
            let n = here ∙ operator_length-no_last prev c e in
            rw e (
              split_from-IsSplit start (i + 1) (some c) [] (omega (arith, h))
                (IsFree-suc start i free n) (omega (arith, all)) next)
      ]
  split_from-IsSplit start i prev (c ∷ d ∷ s) h free all rest =
      let here = IsRest-here i prev (c ∷ d ∷ s) rest in
      let next = IsRest-suc i c prev (d ∷ s) rest in
      elim (Bool-cases (is_double c d)) [
        | inl e ↦
            let n = here ∙ operator_length-double prev c d s e in
            rw e (
              IsSplit-cons start i 1 (split_from (i + 2) (i + 2) (some d) s) h free n (
                split_from-IsSplit (i + 2) (i + 2) (some d) s (omega arith) (IsFree-none (i + 2))
                  (omega (arith, all)) (IsRest-two i c d prev s rest)))
        | inr e ↦ elim (Bool-cases (is_single c || is_background prev c (some d))) [
          | inl f ↦
              let n = here ∙ operator_length-here prev c d s e f in
              rw (e, f)
                (IsSplit-cons start i 0 (split_from (i + 1) (i + 1) (some c) (d ∷ s)) h free n (
                  split_from-IsSplit (i + 1) (i + 1) (some c) (d ∷ s) (omega arith)
                    (IsFree-none (i + 1)) (omega (arith, all)) next))
          | inr f ↦
              let n = here ∙ operator_length-on prev c d s e f in
              rw (e, f)
                (split_from-IsSplit start (i + 1) (some c) (d ∷ s) (omega (arith, h))
                  (IsFree-suc start i free n) (omega (arith, all)) next)
        ]
      ]

  -- The first segment begins at the beginning of the skeleton; no operator begins in a segment;
  -- each segment but the last ends where an operator begins, and the next one begins behind this
  -- operator; the last one ends with the skeleton. The operators are && and ||, two units long,
  -- and ;, | and an & that is no part of a redirection, one unit long.
  pub split_top_level-IsSplit : IsSplit 0 (split_top_level skeleton)
  unfolding split_top_level
  split_top_level-IsSplit =
      split_from-IsSplit 0 0 none skeleton (omega arith) (IsFree-none 0) (omega arith)
        (λ k. ap (λ n. operator_at none skeleton n) (omega arith))
