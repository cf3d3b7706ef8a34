-- ===== src/Mcp/GetStats.antt =====
-- packages/mcp/src/tools/get-stats.ts: the report of the server.
use ctxlite.Prelude.{
  ℕ, ◌-◌, ◌*◌, Option, none, some, List, [], ◌∷◌, ◌++◌, Text, str, text_eq, unlines, or_else, ◌==◌,
  if◌then◌else◌, quotient,
}
use ctxlite.Stats.{Row}
use ctxlite.Stats.Summary.{Summary, summary, summary_for_session}
use ctxlite.Report.{
  build_stats_breakdown, format_savings_line, render_stats_bar_chart, support_line, to_fixed,
}
use ctxlite.Cli.StatsCommand.{StatsMachine}

-- The last case is for no period of the schema.
unfoldable pub mcp_period_to_timestamp : StatsMachine → Text → ℕ
mcp_period_to_timestamp m period =
    if text_eq period (str "session")
    then m.now - 3600
    else if text_eq period (str "today")
    then m.midnight
    else if text_eq period (str "7d")
    then m.now - 7 * 86400
    else if text_eq period (str "30d")
    then m.now - 30 * 86400
    else if text_eq period (str "all")
    then 0
    else m.now - 86400

unfoldable pub summary_of_period : StatsMachine → Text → Option Text → List Row → Summary
unfolding mcp_period_to_timestamp summary summary_for_session
summary_of_period m session_id none rows = summary_for_session (str "mcp") session_id rows
summary_of_period m session_id (some period) rows =
    summary m.locale_date (mcp_period_to_timestamp m period) none rows

abbrev stats_heading : Text → Text
stats_heading label = str "## ctxlite stats — " ++ label

-- The report with its chart; `none` is a chart that throws
unfoldable pub stats_answer : Text → Summary → Option (List Text) → Text
unfolding unlines format_savings_line to_fixed quotient support_line
stats_answer label s none = str "ctxlite stats unavailable: Invalid count value"
stats_answer label s (some chart) = unlines (
    stats_heading label
    ∷ []
    ∷ (str "**Tokens saved:** " ++ format_savings_line s)
    ∷ str "```"
    ∷ unlines chart
    ∷ str "```"
    ∷ (str "**Est. cost saved:** $" ++ to_fixed 4 (quotient s.cost_saved 100000000))
    ∷ []
    ∷ support_line
    ∷ [])

abbrev summary_answer : Text → Summary → Text
summary_answer label s =
    if s.total_requests == 0
    then stats_heading label ++ str "\n\nNo requests recorded yet."
    else stats_answer label s (render_stats_bar_chart (build_stats_breakdown s))

abbrev stats_of_table : StatsMachine → Text → Option Text → Text → Option (List Row) → Text
stats_of_table m session_id period path none =
    str "ctxlite stats unavailable: " ++ m.open_message path
stats_of_table m session_id period path (some rows) =
    summary_answer (or_else period (str "current session"))
      (summary_of_period m session_id period rows)

unfoldable pub handle_get_stats : StatsMachine → Text → Option Text → Text → Text
unfolding stats_answer summary_of_period render_stats_bar_chart build_stats_breakdown
handle_get_stats m session_id period path =
    stats_of_table m session_id period path (m.open_table path)
