-- ===== src/Report/Tests.antt =====
-- Runs of the reports (report.ts).
use ctxlite.Prelude.{ℕ, ◌≡◌, refl, some, List, [], ◌∷◌, Text, str, text_eq, print_nat}
use ctxlite.Prelude.{
  math_round, times, quotient, half_even, quotient_exponent, round_to_double, bits_from, scaled,
}
use ctxlite.Stats.Breakdown.{SessionRow}
use ctxlite.Report.{
  StatsBreakdownRow, measured, breakdown_row, pad_end, pad_start, to_fixed, format_token_count,
  max_saved, label_width, token_width, filled_cells, filled_cell, empty_cell, bar_of, chart_line,
  chart_lines, render_stats_bar_chart,
}
use ctxlite.Report.Chart.{AreChartLines, render_stats_bar_chart-AreChartLines}
use ctxlite.Report.Sessions.{host_label, by_host, session_line, render_session_breakdown}
use ctxlite.Report.Sessions.Groups.{
  Run, blocks_of, members, AreRuns, session_host, render_session_breakdown-blocks,
}

unfoldable pub run : Unit {0}
unfolding str text_eq print_nat math_round times quotient half_even quotient_exponent
    round_to_double bits_from scaled breakdown_row pad_end pad_start to_fixed format_token_count
    max_saved label_width token_width filled_cells filled_cell empty_cell bar_of chart_line
    chart_lines render_stats_bar_chart host_label by_host session_line render_session_breakdown
run = tt

some_counts :
    (format_token_count 999 ≡ str "999")
    × (format_token_count 1250 ≡ str "1.3K")
    × (format_token_count 1150 ≡ str "1.1K")
    × (format_token_count 2500000 ≡ str "2.5M")
unfolding run
some_counts = (refl, refl, refl, refl)

-- Just below a million.
almost_a_million : format_token_count 999999 ≡ str "1000.0K"
unfolding run
almost_a_million = refl

abbrev rows : List StatsBreakdownRow
rows =
    breakdown_row (str "compress") 1500 3 (str "tool outputs") measured
    ∷ breakdown_row (str "trim") 40 1 (str "calls") measured
    ∷ []

some_chart :
    render_stats_bar_chart rows
    ≡ some (
        str "compress  ████████████████████  1.5K  (3 tool outputs)"
        ∷ str "trim      █░░░░░░░░░░░░░░░░░░░    40  (1 calls)"
        ∷ [])
unfolding run
some_chart = refl

render_stats_bar_chart-AreChartLines_example :
    (lines : List Text) × (render_stats_bar_chart rows ≡ some lines)
    × AreChartLines (max_saved rows) (label_width rows) (token_width rows) rows lines
render_stats_bar_chart-AreChartLines_example = render_stats_bar_chart-AreChartLines rows

abbrev session : Text → Text → SessionRow
session host id = record {
  host = host;
  session_id = id;
  total_requests = 2;
  tokens_saved = 30;
  first_ts = 1;
  last_ts = 7;
}

abbrev first : SessionRow
first = session (str "cursor") (str "a")

abbrev others : List SessionRow
others = session (str "cursor") (str "bc") ∷ session (str "mcp") (str "d") ∷ []

some_sessions :
    render_session_breakdown print_nat (first ∷ others)
    ≡ str "Cursor"
      ∷ str "  a   30 saved  (2 requests)  last active 7"
      ∷ str "  bc  30 saved  (2 requests)  last active 7"
      ∷ []
      ∷ str "MCP"
      ∷ str "  d   30 saved  (2 requests)  last active 7"
      ∷ []
unfolding run
some_sessions = refl

render_session_breakdown-blocks_example :
    (ids : ℕ) × (tokens : ℕ) × (runs : List (Run SessionRow)) × (render_session_breakdown print_nat
        (first ∷ others)
      ≡ blocks_of session_host (λ row. session_line print_nat ids tokens row ∷ []) runs)
    × (members session_host runs ≡ first ∷ others)
    × AreRuns session_host runs
render_session_breakdown-blocks_example = render_session_breakdown-blocks print_nat first others
