-- ===== src/CodeSearch/Snippet.antt =====
-- packages/core/src/code-search.ts: `extractSnippet`, the lines of a file that are shown.
pub mod Laws
use ctxlite.Prelude.{
  ℕ, zero, suc, ◌+◌, ◌-◌, Bool, List, [], ◌∷◌, Text, length, take, drop, min, filter_by, includes,
  leb, ltb, if◌then◌else◌, lines_of, unlines,
}
use ctxlite.Runtime.{Runtime}
use ctxlite.Bm25.{text_pieces}
use ctxlite.Tokens.{estimate_tokens}

-- The words of the query that are looked for.
unfoldable pub search_terms : Runtime → Text → List Text
unfolding text_pieces filter_by
search_terms rt query = filter_by (λ t. leb 2 (length t)) (text_pieces (rt.lower query))

-- In how many terms a line scores.
unfoldable pub line_score : List Text → Text → ℕ
line_score [] lower = 0
line_score (term ∷ terms) lower =
    let score = line_score terms lower in if includes lower term then suc score else score

-- The loop that looks for the best line, at the line of index `i`: the first of those that score best.
unfoldable pub best_line_from : Runtime → List Text → ℕ → ℕ → ℕ → List Text → ℕ
unfolding line_score
best_line_from rt terms i best_line best_score [] = best_line
best_line_from rt terms i best_line best_score (line ∷ lines) =
    let score = line_score terms (rt.lower line) in
    let better = best_line_from rt terms (i + 1) (i + 1) score lines in
    let as_before = best_line_from rt terms (i + 1) best_line best_score lines in
    if ltb best_score score then better else as_before

-- The loop that drops the last of `n` lines until what is left is in the budget.
unfoldable pub drop_last_lines : ℕ → List Text → ℕ → List Text
unfolding unlines
drop_last_lines budget lines zero = []
drop_last_lines budget lines (suc n) =
    let shorter = drop_last_lines budget lines n in
    if ltb budget (estimate_tokens (unlines (take (suc n) lines)))
    then shorter
    else take (suc n) lines

abbrev pub half_window : ℕ
half_window = 8

pub record Snippet : Type 0 where
  pub snippet : Text
  pub line : ℕ

-- The window about the best line.
unfoldable pub snippet_at : List Text → ℕ → ℕ → Snippet
unfolding drop_last_lines
snippet_at lines budget best_line =
    let start = best_line - 1 - half_window in
    let stop = min (length lines) (best_line - 1 + half_window + 1) in
    record {
      snippet = unlines (drop_last_lines budget (drop start lines) (stop - start));
      line = best_line;
    }

unfoldable pub extract_snippet : Runtime → Text → Text → ℕ → Snippet
unfolding search_terms best_line_from snippet_at lines_of
extract_snippet rt content query budget =
    let lines = lines_of content in
    snippet_at lines budget (best_line_from rt (search_terms rt query) 0 1 0 lines)
