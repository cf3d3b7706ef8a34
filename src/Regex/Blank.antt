-- ===== src/Regex/Blank.antt =====
-- About blanking the matches of an expression (tool-precall.ts).
use ctxlite.Prelude.{ℕ, zero, suc, ◌-◌, ◌≡◌, refl, Option, none, some, [], ◌∷◌, arith, Text, length}
use ctxlite.Regex.{Matcher, match_length, blank_from, blank_matches}

length-blank_from :
    (m : Matcher) (skip : ℕ) (before : Option ℕ) (s : Text)
    → length (blank_from m skip before s) ≡ length s
unfolding blank_from
length-blank_from m skip before [] = refl
length-blank_from m (suc skip) before (x ∷ s) = omega (arith, length-blank_from m skip (some x) s)
length-blank_from m zero before (x ∷ s) = ground (
  arith,
  length-blank_from m zero (some x) s,
  length-blank_from m (match_length m before (x ∷ s) - 1) (some x) s,
)

pub length-blank_matches : (m : Matcher) (s : Text) → length (blank_matches m s) ≡ length s
length-blank_matches m s = unfold blank_matches in length-blank_from m zero none s
