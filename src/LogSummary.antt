-- ===== src/LogSummary.antt =====
-- packages/core/src/log-summary.ts: a log cut down to its failures within a budget.
pub mod Laws
mod Tests
use ctxlite.Prelude.{
  ℕ, zero, suc, ◌+◌, ◌-◌, ◌*◌, ◌/◌, ◌%◌, ◌≤◌, ◌<◌, min, max, String, ◌≡◌, refl, sym, ap, ap₂, ◌∙◌,
  ◌≢◌, ◌↔◌, ◌⊎◌, inl, inr, Bool, true, false, ◌&&◌, ◌||◌, not, Option, none, some, List, [], ◌∷◌,
  ◌++◌, map, append_assoc, append-nil, map-append, arith, Text, str, text_eq, text_eq_iff,
  text_eq_refl, length, length-append, join, Dict, dict_get, dict_set, dict_delete, get-set,
  get-delete, or_else, slice, take, drop, filter_by, any, all, All, trim, trim_end, starts_with,
  ends_with, includes, ltb, leb, ◌==◌, if◌then◌else◌, Option-cases, Bool-cases, print_nat,
  round_seven_tenths, lines_of, unlines, lower_unit, is_space, length-take, length-drop,
  take-append-drop,
}
use ctxlite.Tokens.{estimate_tokens}
use ctxlite.Regex.{
  Matcher, unit, ◌⨟◌, either, many, some_of, literal_i, word_boundary, at_start, test,
}

abbrev pub max_input_bytes : ℕ
max_input_bytes = 1048576

abbrev space : Matcher
space = unit is_space

abbrev no_space : Matcher
no_space = unit (λ c. not (is_space c))

-- `FAIL(?:ED)?` and the other words; the flag `i` ignores their case
abbrev failure : Matcher
failure = either (literal_i (str "failed")) (
    either (literal_i (str "fail")) (
      either (literal_i (str "error:")) (
        either (literal_i (str "assertionerror"))
          (either (literal_i (str "✘")) (literal_i (str "exception"))))))

unfoldable pub is_error_line : Text → Bool
is_error_line = test (
    either (word_boundary ⨟ failure ⨟ word_boundary) (
      either (at_start ⨟ some_of space ⨟ literal_i (str "at") ⨟ some_of space ⨟ no_space)
        (at_start ⨟ many space ⨟ literal_i (str "caused by:"))))

unfoldable pub is_warning_line : Text → Bool
is_warning_line = test (
    word_boundary
    ⨟ either (literal_i (str "warning"))
        (either (literal_i (str "warn")) (literal_i (str "deprecated")))
    ⨟ word_boundary)

-- `/^\s+at\s+/`
unfoldable pub is_stack_line : Text → Bool
is_stack_line =
    test (at_start ⨟ some_of space ⨟ unit (λ c. c == b'a') ⨟ unit (λ c. c == b't') ⨟ some_of space)

-- the units that `tail` matches behind `head`, at the first place where the two match
captured_from : Matcher → Matcher → Option ℕ → Text → Option Text
captured_from head tail before [] = none
captured_from head tail before (c ∷ s) =
    let later = captured_from head tail (some c) s in
    elim (head (record { before = before; rest = c ∷ s })
      (λ c'. tail c' (λ e.
        some (record { before = none; rest = take (length c'.rest - length e.rest) c'.rest })))) [
          | none ↦ later
          | some found ↦ some found.rest
        ]

unfoldable pub captured : Matcher → Matcher → Text → Option Text
unfolding captured_from
captured head tail line = captured_from head tail none line

abbrev list_of : Option Text → List Text
list_of none = []
list_of (some id) = id ∷ []

unfoldable pub extract_error_ids : Text → List Text
extract_error_ids line =
    list_of (captured (literal_i (str "[fail]") ⨟ some_of space) (some_of no_space) line)
    ++ (if is_error_line line
        then list_of (
            captured (literal_i (str "test") ⨟ unit (λ c. c == b'-' || is_space c))
              (some_of no_space) line)
        else [])
    ++ (if includes line (str "AssertionError") || includes line (str "Error:")
        then take 80 (trim line) ∷ []
        else [])

-- `nextIsStack`
abbrev pub next_is_stack : List Text → Bool
next_is_stack [] = false
next_is_stack (line ∷ lines) = is_stack_line line

-- the condition of the inner loop
unfoldable pub goes_on : Text → Bool
goes_on line = is_stack_line line || starts_with (trim line) (str "at ")

-- The loop over the lines: `in_stack` says that the inner loop is at this line.
unfoldable pub keep_lines : Bool → List Text → List Text
keep_lines in_stack [] = []
keep_lines in_stack (line ∷ lines) =
    let continued = keep_lines true lines in
    let other = keep_lines false lines in
    let is_error = is_error_line line in
    let stack = next_is_stack lines in
    if in_stack && goes_on line
    then line ∷ continued
    else if is_error && stack
    then line ∷ continued
    else if is_error || (is_warning_line line || stack)
    then line ∷ other
    else other

-- `errorIds.add`, for the lines outside the inner loop
unfoldable pub add_ids : List Text → List Text → List Text
add_ids [] ids = ids
add_ids (new ∷ news) ids = add_ids news (if any (text_eq new) ids then ids else ids ++ new ∷ [])

unfoldable pub collect_ids : Bool → List Text → List Text → List Text
collect_ids in_stack [] ids = ids
collect_ids in_stack (line ∷ lines) ids =
    let continued = collect_ids true lines ids in
    let added = collect_ids (next_is_stack lines) lines (add_ids (extract_error_ids line) ids) in
    let other = collect_ids false lines ids in
    if in_stack && goes_on line then continued else if is_error_line line then added else other

unfoldable pub body_of : List Text → Text
body_of kept = unlines (str "## log_summary" ∷ kept)

-- `while (kept.length > 0 && …) kept.pop()`: at most one round for each line that is kept
unfoldable pub shrink : ℕ → ℕ → List Text → List Text
shrink zero budget kept = kept
shrink (suc fuel) budget kept =
    let shorter = shrink fuel budget (take (length kept - 1) kept) in
    if ltb 0 (length kept) && ltb budget (estimate_tokens (body_of kept)) then shorter else kept

pub record LogSummaryResult : Type 0 where
  pub output : Text
  pub tokens_in : ℕ
  pub tokens_out : ℕ
  pub tokens_saved : ℕ
  pub errors_found : ℕ

unfoldable pub choose_body : ℕ → ℕ → List Text → Text
choose_body budget tokens_in [] =
    str "No failures detected in log (" ++ print_nat tokens_in ++ str " tokens scanned)."
choose_body budget tokens_in (line ∷ kept) =
    body_of (shrink (length (line ∷ kept)) budget (line ∷ kept))

unfoldable pub summary_of : Text → ℕ → LogSummaryResult
summary_of text budget =
    let lines = lines_of text in
    let body = choose_body budget (estimate_tokens text) (keep_lines false lines) in
    record {
      output = body;
      tokens_in = estimate_tokens text;
      tokens_out = estimate_tokens body;
      tokens_saved = estimate_tokens text - estimate_tokens body;
      errors_found = length (collect_ids false lines []);
    }

-- A text above the limit is an exception, `none`; the budget is 2000 unless one is given.
unfoldable pub summarize_log : Text → Option ℕ → Option LogSummaryResult
summarize_log text budget =
    if ltb max_input_bytes (length text) then none else some (summary_of text (or_else budget 2000))
