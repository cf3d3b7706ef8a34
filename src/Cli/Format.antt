-- ===== src/Cli/Format.antt =====
-- packages/cli/src/format.ts: `formatText`, the text of a summary.
use ctxlite.Prelude.{
  Option, some, List, [], ◌∷◌, ◌++◌, map, Text, str, unlines, ◌==◌, if◌then◌else◌, ◌>>=◌, print_nat,
}
use ctxlite.Stats.Summary.{Summary}
use ctxlite.Prelude.{quotient}
use ctxlite.Report.{
  build_stats_breakdown, format_savings_line, render_stats_bar_chart, repeat_unit, support_line,
  to_fixed,
}
use ctxlite.Report.Sessions.{render_stats_help_lines}

abbrev indent : Text → Text
indent line = str "  " ++ line

-- A rule of 37 box characters.
abbrev box_rule : Text
box_rule = repeat_unit 9472 37

unfoldable pub help_block : List Text → Text
unfolding unlines
help_block [] = []
help_block (line ∷ lines) = unlines (map indent (line ∷ lines)) ++ str "\n\n"

-- The template, without the end of a line in front that `trimStart` takes away.
unfoldable pub summary_text : Summary → Text → Text → Text
unfolding to_fixed quotient format_savings_line support_line
summary_text s chart help =
    str "ctxlite stats — "
    ++ (s.period
        ++ (str "\n"
            ++ (box_rule
                ++ (str "\nTokens saved  "
                    ++ (format_savings_line s
                        ++ (str "\n\n"
                            ++ (chart
                                ++ (str "\n\n"
                                    ++ (help
                                        ++ (str "Cost saved    ~$"
                                            ++ (to_fixed 4 (quotient s.cost_saved 100000000)
                                                ++ (str "\nAvg latency   "
                                                    ++ (print_nat s.avg_latency_ms
                                                        ++ (str "ms\n"
                                                            ++ (box_rule
                                                            ++ (str "\n"
                                                            ++ (support_line
                                                            ++ str "\n")))))))))))))))))

-- `none` where the chart throws
unfoldable pub format_text : Summary → Option Text → Option Text
unfolding help_block summary_text render_stats_bar_chart build_stats_breakdown
    render_stats_help_lines
format_text s host =
    let filled = render_stats_bar_chart (build_stats_breakdown s) >>= λ lines.
    some
      (summary_text s (unlines (map indent lines)) (help_block (render_stats_help_lines s host))) in
    if s.total_requests == 0
    then some (str "\nctxlite stats — " ++ (s.period ++ str "\n\nNo data recorded yet.\n"))
    else filled
