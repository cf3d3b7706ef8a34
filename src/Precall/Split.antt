-- ===== src/Precall/Split.antt =====
-- `splitTopLevel`: the segments of a command between the shell's operators (tool-precall.ts).
pub mod Tiles
pub mod Operators
use ctxlite.Prelude.{
  ℕ, zero, suc, ◌+◌, Bool, true, false, ◌&&◌, ◌||◌, not, Option, none, some, List, [], ◌∷◌, Text,
  ◌==◌, if◌then◌else◌,
}

pub record Segment : Type 0 where
  pub start : ℕ
  pub end : ℕ

abbrev is_unit : ℕ → Option ℕ → Bool
is_unit c none = false
is_unit c (some d) = d == c

-- `two === "&&" || two === "||"`
abbrev is_double : ℕ → ℕ → Bool
is_double c d = c == b'&' && d == b'&' || c == b'|' && d == b'|'

abbrev is_single : ℕ → Bool
is_single c = c == b';' || c == b'|'

-- a `&` that is no part of a redirection
abbrev is_background : Option ℕ → ℕ → Option ℕ → Bool
is_background prev c next =
    c == b'&' && (not (is_unit b'>' prev) && not (is_unit b'<' prev) && not (is_unit b'>' next))

-- The loop at index `i` with the units before and from there.
split_from : ℕ → ℕ → Option ℕ → Text → List Segment
split_from start i prev [] = record { start = start; end = i } ∷ []
split_from start i prev (c ∷ []) =
    let here = record { start = start; end = i } ∷ split_from (i + 1) (i + 1) (some c) [] in
    let on = split_from start (i + 1) (some c) [] in
    if is_single c || is_background prev c none then here else on
split_from start i prev (c ∷ d ∷ s) =
    let double = record { start = start; end = i } ∷ split_from (i + 2) (i + 2) (some d) s in
    let here = record { start = start; end = i } ∷ split_from (i + 1) (i + 1) (some c) (d ∷ s) in
    let on = split_from start (i + 1) (some c) (d ∷ s) in
    if is_double c d
    then double
    else if is_single c || is_background prev c (some d)
    then here
    else on

unfoldable pub split_top_level : Text → List Segment
unfolding split_from
split_top_level skeleton = split_from 0 0 none skeleton
