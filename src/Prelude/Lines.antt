-- ===== src/Prelude/Lines.antt =====
-- `split` on one code unit and `join`, with the laws that the components share.
use Prim.Native.Nat.{ℕ, ◌+◌}
use mathlib.Core.Path.{◌≡◌, refl, ap, sym, ◌∙◌}
use mathlib.Core.List.{List, [], ◌∷◌, ◌++◌}
use native.Mathlib.Omega.{arith}
use ctxlite.Prelude.Tests.{◌==◌, if◌then◌else◌, ==_iff, Bool-cases}
use mathlib.Core.Logic.{inl, inr}
use ctxlite.Prelude.Lists.{length, length-append}
use ctxlite.Prelude.Strings.{Text}

abbrev pub newline : ℕ
newline = 10

-- the first piece grows by one unit
abbrev grow : ℕ → List Text → List Text
grow c [] = (c ∷ []) ∷ []
grow c (x ∷ xs) = (c ∷ x) ∷ xs

unfoldable pub split_on : ℕ → Text → List Text
split_on sep [] = [] ∷ []
split_on sep (c ∷ s) = let rest = split_on sep s in if c == sep then [] ∷ rest else grow c rest

unfoldable pub join : Text → List Text → Text
join sep [] = []
join sep (x ∷ []) = x
join sep (x ∷ y ∷ xs) = x ++ (sep ++ join sep (y ∷ xs))

-- `s.split("\n")` and `xs.join("\n")`
unfoldable pub lines_of : Text → List Text
unfolding split_on
lines_of = split_on newline

unfoldable pub unlines : List Text → Text
unfolding join
unlines = join (newline ∷ [])

split_on_cons : (sep : ℕ) (s : Text) → (x : Text) × (xs : List Text) × (split_on sep s ≡ x ∷ xs)
unfolding split_on
split_on_cons sep [] = ([], [], refl)
split_on_cons sep (c ∷ s) = elim (Bool-cases (c == sep)) [
  | inl e ↦ ([], split_on sep s, rw e)
  | inr e ↦ let (x, xs, p) = split_on_cons sep s in (c ∷ x, xs, rw (e, p))
]

join-grow :
    (sep : Text) (c : ℕ) (x : Text) (xs : List Text)
    → join sep (grow c (x ∷ xs)) ≡ c ∷ join sep (x ∷ xs)
unfolding join
join-grow sep c x [] = refl
join-grow sep c x (y ∷ xs) = refl

join-cons :
    (sep : ℕ) (x : Text) (xs : List Text)
    → join (sep ∷ []) ([] ∷ x ∷ xs) ≡ sep ∷ join (sep ∷ []) (x ∷ xs)
unfolding join
join-cons sep x xs = refl

-- Joining what was split gives the text back.
pub join-split_on : (sep : ℕ) (s : Text) → join (sep ∷ []) (split_on sep s) ≡ s
unfolding split_on
join-split_on sep [] = unfold join in refl
join-split_on sep (c ∷ s) =
    let (x, xs, p) = split_on_cons sep s in
    elim (Bool-cases (c == sep)) [
      | inl e ↦
          rw (e, p)
            (join-cons sep x xs
              ∙ ap (λ (t : Text). sep ∷ t) (rw p at (join-split_on sep s))
              ∙ ap (λ (k : ℕ). k ∷ s) (sym ((==_iff c sep).0 e)))
      | inr e ↦
          rw (e, p)
            (join-grow (sep ∷ []) c x xs ∙ ap (λ (t : Text). c ∷ t) (rw p at (join-split_on sep s)))
    ]

-- The text that `unlines` builds holds every unit of the parts and the separators between them.
pub length-unlines-append :
    (x : Text) (y : Text) (xs : List Text)
    → length (unlines (x ∷ y ∷ xs)) ≡ length x + 1 + length (unlines (y ∷ xs))
unfolding unlines
length-unlines-append x y xs =
    omega (arith, length-append x (newline ∷ join (newline ∷ []) (y ∷ xs)))

pub length-unlines-one : (x : Text) → length (unlines (x ∷ [])) ≡ length x
unfolding unlines
length-unlines-one x = refl
