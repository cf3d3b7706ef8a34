-- ===== src/Opencode/Display.antt =====
-- packages/opencode/src/session-display.ts: the title of a session and what is shown of its savings.
pub mod Titles
mod Tests
use ctxlite.Prelude.{
  ℕ, Bool, true, false, ◌&&◌, ◌||◌, not, Option, none, some, List, [], ◌∷◌, ◌++◌, ◌==◌,
  if◌then◌else◌, ◌>>=◌, Text, str, all, starts_with,
}
use ctxlite.Stats.Summary.{Summary}
use ctxlite.Report.{
  build_stats_breakdown, format_savings_line, format_token_count, has_stable_savings_baseline,
  render_stats_bar_chart,
}
use ctxlite.Report.Sessions.{cost_text}
use ctxlite.Prelude.{drop}
use ctxlite.Report.{support_line}

unfoldable pub title_mark : Text
title_mark = str " · ctxlite: "

-- What `.` does not match.
unfoldable pub breaks_line : ℕ → Bool
breaks_line c = c == 10 || c == 13 || c == 8232 || c == 8233

-- `/ · ctxlite: .*$/` matches the whole text; the mark has no end of a line itself
unfoldable pub is_title_suffix : Text → Bool
unfolding title_mark breaks_line starts_with all
is_title_suffix s = starts_with s title_mark && all (λ c. not (breaks_line c)) s

-- The leftmost match is replaced by nothing; it reaches to the end.
unfoldable pub strip_ctxlite_title_suffix : Text → Text
unfolding is_title_suffix
strip_ctxlite_title_suffix [] = []
strip_ctxlite_title_suffix (c ∷ s) =
    let rest = strip_ctxlite_title_suffix s in if is_title_suffix (c ∷ s) then [] else c ∷ rest

unfoldable pub title_suffix : ℕ → Text
unfolding format_token_count
title_suffix tokens_saved = title_mark ++ (format_token_count tokens_saved ++ str " saved")

unfoldable pub build_open_code_session_title : Text → ℕ → Text
unfolding strip_ctxlite_title_suffix title_suffix
build_open_code_session_title base_title tokens_saved =
    let base = strip_ctxlite_title_suffix base_title in
    if tokens_saved == 0 then base else base ++ title_suffix tokens_saved

pub record OpenCodeSessionDisplay : Type 0 where
  pub total_line : Text
  pub breakdown_rows : List Text
  pub cost_line : Option Text
  pub has_baseline : Bool
  pub support_label : Text
  pub support_url : Text
  pub tokens_saved : ℕ

abbrev pub no_savings : OpenCodeSessionDisplay
no_savings = record {
  total_line = str "no savings yet";
  breakdown_rows = [];
  cost_line = none;
  has_baseline = false;
  support_label = [];
  support_url = [];
  tokens_saved = 0;
}

-- The text in front of the first `: ` and behind it.
unfoldable pub split_support : Text → Option (Text × Text)
unfolding starts_with
split_support [] = none
split_support (c ∷ s) =
    let rest = split_support s >>= λ parts. some (c ∷ parts.0, parts.1) in
    if starts_with (c ∷ s) (str ": ") then some ([], drop 2 (c ∷ s)) else rest

abbrev support_parts : Text → Option (Text × Text) → Text × Text
support_parts line none = (line, [])
support_parts line (some parts) = parts

-- `none` where the chart throws
unfoldable pub build_open_code_session_display : Summary → Option OpenCodeSessionDisplay
unfolding build_stats_breakdown format_savings_line has_stable_savings_baseline
    render_stats_bar_chart cost_text split_support support_line
build_open_code_session_display s =
    let support = support_parts support_line (split_support support_line) in
    let display = render_stats_bar_chart (build_stats_breakdown s) >>= λ lines. some (record {
      total_line = format_savings_line s;
      breakdown_rows = lines;
      cost_line = if has_stable_savings_baseline s then some (cost_text s) else none;
      has_baseline = has_stable_savings_baseline s;
      support_label = support.0;
      support_url = support.1;
      tokens_saved = s.tokens_saved;
    }) in
    if s.tokens_saved == 0 then some no_savings else display
