-- ===== src/LogSummary/Tests.antt =====
-- Runs of the summary of a log (log-summary.ts).
use ctxlite.Prelude.{
  ◌-◌, ◌≡◌, refl, true, false, List, [], ◌∷◌, ◌++◌, Text, str, text_eq, filter_by, any, trim,
  starts_with, includes, lines_of, lower_unit,
}
use ctxlite.Tokens.{estimate_tokens}
use ctxlite.Regex.{expressions}
use ctxlite.LogSummary.{
  is_error_line, is_warning_line, is_stack_line, captured, extract_error_ids, goes_on, keep_lines,
  add_ids, collect_ids, body_of, shrink, summary_of, choose_body,
}
use ctxlite.LogSummary.Laws.{
  IsSublist, is_material, keep_lines-IsSublist, IsShrunk, summary_of-fits,
}
use ctxlite.Prelude.{is_space}

logs : Unit {0}
unfolding is_error_line is_warning_line is_stack_line captured extract_error_ids goes_on keep_lines
    add_ids collect_ids body_of shrink summary_of choose_body expressions includes trim starts_with
    any text_eq str lower_unit is_space lines_of
logs = tt

-- `Error:` and the cross count only where a word character stands next to them on the other side of
-- the boundary, which is seldom so.
error_lines :
    (is_error_line (str "FAILED tests/a") ≡ true)
    × (is_error_line (str "Error: out of memory") ≡ false)
    × (is_error_line (str "TypeError: x is undefined") ≡ false)
    × (is_error_line (str "✘ a test") ≡ false)
    × (is_error_line (str "    at run (a.ts:1)") ≡ true)
unfolding logs
error_lines = (refl, refl, refl, refl, refl)

abbrev log_text : Text
log_text =
    str "start" ++ 10 ∷ str "FAIL a" ++ 10 ∷ str "  at b" ++ 10 ∷ str "ok" ++ 10 ∷ str "WARN c"

log_lines : keep_lines false (lines_of log_text) ≡ str "FAIL a" ∷ str "  at b" ∷ str "WARN c" ∷ []
unfolding logs
log_lines = refl

error_is_lost : keep_lines false (lines_of (str "Error: out of memory" ++ 10 ∷ str "ok")) ≡ []
unfolding logs
error_is_lost = refl

keep_lines-IsSublist_example :
    IsSublist (keep_lines false (lines_of log_text)) (lines_of log_text)
    × (filter_by is_material (keep_lines false (lines_of log_text))
        ≡ filter_by is_material (lines_of log_text))
keep_lines-IsSublist_example = keep_lines-IsSublist (lines_of log_text)

summary_of-fits_example :
    let r = summary_of log_text 6 in
    (r.tokens_in ≡ estimate_tokens log_text)
    × (r.tokens_out ≡ estimate_tokens r.output)
    × (r.tokens_saved ≡ r.tokens_in - r.tokens_out)
    × ((shown : List Text) × (r.output ≡ body_of shown)
        × IsShrunk 6 (str "FAIL a" ∷ str "  at b" ∷ str "WARN c" ∷ []) shown)
summary_of-fits_example =
    summary_of-fits log_text 6 (str "FAIL a") (str "  at b" ∷ str "WARN c" ∷ []) log_lines
