-- ===== src/Ignore.antt =====
-- packages/core/src/ctxliteignore.ts: the patterns of `.ctxliteignore` and the test of a path.
use ctxlite.Prelude.{
  ℕ, zero, suc, ◌-◌, Bool, true, false, ◌||◌, not, Option, none, some, List, [], ◌∷◌, map, Text,
  str, text_eq, length, take, ◌==◌, if◌then◌else◌, any, starts_with, ends_with, trim, lines_of,
}
use ctxlite.Host.{Host}
use ctxlite.Regex.{Matcher, unit, ◌⨟◌, either, optional, many, dot, at_start, at_end, literal, test}

-- A unit of the body, or one of the four placeholders.
pub data Token : Type 0 where
  lit : ℕ → Token
  double_star_slash slash_double_star double_star single_star : Token

-- The units at the head, as long as they are the given ones.
unfoldable pub strip_units : Text → List Token → Option (List Token)
strip_units [] ts = some ts
strip_units (c ∷ s) [] = none
strip_units (c ∷ s) (lit d ∷ ts) = let rest = strip_units s ts in if d == c then rest else none
strip_units (c ∷ s) (t ∷ ts) = none

-- `body.split(text).join(placeholder)`, from left to right; `skip` counts the tokens left of a match
replace_from : Text → Token → ℕ → List Token → List Token
replace_from text mark skip [] = []
replace_from text mark (suc skip) (t ∷ ts) = replace_from text mark skip ts
replace_from text mark zero (t ∷ ts) =
    let kept = t ∷ replace_from text mark zero ts in
    let matched = mark ∷ replace_from text mark (length text - 1) ts in
    elim (strip_units text (t ∷ ts)) [ none ↦ kept | some rest ↦ matched ]

unfoldable pub replace_text : Text → Token → List Token → List Token
unfolding replace_from strip_units
replace_text text mark ts = replace_from text mark zero ts

unfoldable pub glob_tokens : Text → List Token
unfolding replace_text
glob_tokens body = replace_text (str "*") single_star (
    replace_text (str "**") double_star (
      replace_text (str "/**") slash_double_star
        (replace_text (str "**/") double_star_slash (map (λ c. lit c) body))))

-- The fragment for each token: an escaped unit stands for itself.
unfoldable pub token_matcher : Token → Matcher
token_matcher (lit c) = unit (λ d. d == c)
token_matcher double_star_slash = optional (many dot ⨟ literal (str "/"))
token_matcher slash_double_star = optional (literal (str "/") ⨟ many dot)
token_matcher double_star = many dot
token_matcher single_star = many (unit (λ c. not (c == b'/')))

unfoldable pub tokens_matcher : List Token → Matcher
unfolding token_matcher
tokens_matcher [] = literal []
tokens_matcher (t ∷ ts) = token_matcher t ⨟ tokens_matcher ts

pub record IgnorePattern : Type 0 where
  pub source : Text
  pub regex : Matcher
  pub directory_only : Bool

-- `(?:^|.*/)body/` or `(?:^|.*/)body$`
unfoldable pub anchored : Bool → List Token → Matcher
unfolding tokens_matcher
anchored directory_only body =
    either at_start (many dot ⨟ literal (str "/"))
    ⨟ tokens_matcher body
    ⨟ (if directory_only then literal (str "/") else at_end)

abbrev pattern_of : Text → Bool → Text → Option IgnorePattern
pattern_of raw_line directory_only [] = none
pattern_of raw_line directory_only (c ∷ body) = some (record {
  source = raw_line;
  regex = anchored directory_only (glob_tokens (c ∷ body));
  directory_only = directory_only;
})

-- Every body gives a valid expression, since all of its special units are escaped.
unfoldable pub compile_pattern : Text → Option IgnorePattern
compile_pattern raw_line =
    if ends_with raw_line (str "/")
    then pattern_of raw_line true (take (length raw_line - 1) raw_line)
    else pattern_of raw_line false raw_line

abbrev add_pattern : Option IgnorePattern → List IgnorePattern → List IgnorePattern
add_pattern none ps = ps
add_pattern (some p) ps = p ∷ ps

-- The loop over the lines: blank lines and comments are passed over.
unfoldable pub patterns_of_lines : List Text → List IgnorePattern
unfolding compile_pattern
patterns_of_lines [] = []
patterns_of_lines (line ∷ lines) =
    let rest = patterns_of_lines lines in
    let trimmed = trim line in
    if text_eq trimmed [] || starts_with trimmed (str "#")
    then rest
    else add_pattern (compile_pattern trimmed) rest

-- `split(/\r?\n/)` and `trim` give what `split("\n")` and `trim` do.
abbrev patterns_of_content : Option Text → List IgnorePattern
patterns_of_content none = []
patterns_of_content (some content) = patterns_of_lines (lines_of content)

unfoldable pub load_ignore_patterns : Host → Text → List IgnorePattern
load_ignore_patterns host cwd =
    patterns_of_content (host.content_of (host.join cwd (str ".ctxliteignore")))

-- `path.replace(/\\/g, "/")`
unfoldable pub normalize : Text → Text
normalize path = map (λ c. if c == 92 then b'/' else c) path

unfoldable pub is_ignored : Text → List IgnorePattern → Bool
unfolding normalize
is_ignored path patterns = any (λ p. test p.regex (normalize path)) patterns
