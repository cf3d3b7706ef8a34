-- ===== src/Precall/Split/Tiles.antt =====
-- About the segments of a command and their places (tool-precall.ts).
use ctxlite.Prelude.{
  ℕ, ◌+◌, ◌≤◌, ◌<◌, ◌≡◌, refl, Option, none, some, List, [], ◌∷◌, arith, Text, length, inl, inr,
  Bool-cases, ◌||◌,
}
use ctxlite.Precall.Split.{
  Segment, split_from, split_top_level, is_double, is_single, is_background,
}
use mathlib.Core.Path.{subst}

-- The first segment begins at `start`, each ends behind its beginning, one or two units before the
-- next begins, and the last ends at `high`.
abbrev pub Tiles : ℕ → ℕ → List Segment → Type 0
Tiles start high [] = ⊥
Tiles start high (seg ∷ []) = (seg.start ≡ start) × (start ≤ seg.end) × (seg.end ≡ high)
Tiles start high (seg ∷ next ∷ segs) =
    (seg.start ≡ start)
    × (start ≤ seg.end)
    × (seg.end < next.start)
    × (next.start ≤ seg.end + 2)
    × Tiles next.start high (next ∷ segs)

Tiles-start :
    (start high : ℕ) (seg : Segment) (segs : List Segment)
    → Tiles start high (seg ∷ segs)
    → seg.start ≡ start
Tiles-start start high seg [] h = h.0
Tiles-start start high seg (next ∷ segs) h = h.0

Tiles-cons :
    (start n high e : ℕ) (segs : List Segment)
    → start ≤ e
    → e < n
    → n ≤ e + 2
    → Tiles n high segs
    → Tiles start high (record { start = start; end = e } ∷ segs)
Tiles-cons start n high e [] h k l t = absurd t
Tiles-cons start n high e (next ∷ segs) h k l t =
    let same = Tiles-start n high next segs t in
    (refl, h, omega (arith, same), omega (arith, same), rw same t)

Tiles-end :
    (start high high' : ℕ) (segs : List Segment)
    → high ≡ high'
    → Tiles start high segs
    → Tiles start high' segs
Tiles-end start high high' segs e t = subst (λ n. Tiles start n segs) e t

split_from-Tiles :
    (start i : ℕ) (prev : Option ℕ) (s : Text)
    → start ≤ i
    → Tiles start (i + length s) (split_from start i prev s)
unfolding split_from
split_from-Tiles start i prev [] h = (refl, h, omega arith)
split_from-Tiles start i prev (c ∷ []) h =
    elim (Bool-cases (is_single c || is_background prev c none)) [
      | inl e ↦ rw e (omega arith)
      | inr e ↦ rw e (omega arith)
    ]
split_from-Tiles start i prev (c ∷ d ∷ s) h = elim (Bool-cases (is_double c d)) [
  | inl e ↦ rw e (
      Tiles-cons _ _ _ i (split_from (i + 2) (i + 2) (some d) s) h (omega arith) (omega arith) (
        Tiles-end _ _ _ (split_from (i + 2) (i + 2) (some d) s) (omega arith)
          (split_from-Tiles (i + 2) (i + 2) (some d) s (omega arith))))
  | inr e ↦ elim (Bool-cases (is_single c || is_background prev c (some d))) [
    | inl f ↦
        rw (e, f)
          (Tiles-cons _ _ _ i (split_from (i + 1) (i + 1) (some c) (d ∷ s)) h (omega arith)
            (omega arith)
            (Tiles-end _ _ _ (split_from (i + 1) (i + 1) (some c) (d ∷ s)) (omega arith)
              (split_from-Tiles (i + 1) (i + 1) (some c) (d ∷ s) (omega arith))))
    | inr f ↦
        rw (e, f)
          (Tiles-end _ _ _ (split_from start (i + 1) (some c) (d ∷ s)) (omega arith)
            (split_from-Tiles start (i + 1) (some c) (d ∷ s) (omega arith)))
  ]
]

-- The segments cover the skeleton from its beginning to its end but for the operators between
-- them, which are one or two units long.
pub split_top_level-Tiles : (skeleton : Text) → Tiles 0 (length skeleton) (split_top_level skeleton)
split_top_level-Tiles skeleton =
    unfold split_top_level in
    Tiles-end _ _ _ (split_from 0 0 none skeleton) (omega arith)
      (split_from-Tiles 0 0 none skeleton (omega arith))
