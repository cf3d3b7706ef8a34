-- ===== src/Report/Sessions.antt =====
-- packages/core/src/report.ts: the sessions by host, and the help lines.
pub mod Groups
use ctxlite.Prelude.{
  ℕ, suc, ◌+◌, ◌*◌, ◌^◌, max, Bool, true, false, ◌&&◌, not, Option, none, some, List, [], ◌∷◌, ◌++◌,
  map, Text, str, text_eq, length, filter_by, all, ◌==◌, if◌then◌else◌, print_nat, ◌>>=◌, or_else,
  quotient,
}
use ctxlite.Stats.Summary.{Summary}
use ctxlite.Stats.Breakdown.{SessionRow}
use ctxlite.Report.{
  StatsBreakdownRow, MeasurementKind, measured, estimate, build_stats_breakdown, pad_end, pad_start,
  to_fixed, format_token_count, format_savings_line, render_stats_bar_chart, support_line,
}

-- `HOST_LABELS[host] ?? host`, for hosts that are not names of the members of every object
unfoldable pub host_label : Text → Text
host_label host =
    if text_eq host (str "opencode")
    then str "OpenCode"
    else if text_eq host (str "claude-code")
    then str "Claude Code"
    else if text_eq host (str "cursor")
    then str "Cursor"
    else if text_eq host (str "mcp")
    then str "MCP"
    else host

abbrev is_measured : StatsBreakdownRow → Bool
is_measured r = elim r.measurement_kind [ measured ↦ true | estimate ↦ false ]

-- The measured rows are never none, so that `measuredRows.length > 0` holds.
unfoldable pub measured_all_zero : Summary → Bool
unfolding filter_by all
measured_all_zero s =
    let rows = filter_by is_measured (build_stats_breakdown s) in
    not (length rows == 0) && all (λ r. r.count == 0) rows

unfoldable pub host_help : Text → List Text
host_help host =
    if text_eq host (str "cursor")
    then str
        "On Cursor, compress/prune/compact/concise are unavailable for built-in tools — zeros here are expected."
      ∷ []
    else if text_eq host (str "claude-code")
    then str
        "On Claude Code, prune/compact/concise measurement are OpenCode-only — zeros here are expected."
      ∷ []
    else if text_eq host (str "mcp")
    then str
        "MCP logs smart_read and trim; filter by opencode/claude-code/cursor for host-hook mechanisms."
      ∷ []
    else []

-- A missing host is the empty text, which is no host either.
unfoldable pub render_stats_help_lines : Summary → Option Text → List Text
unfolding host_help measured_all_zero
render_stats_help_lines s host =
    let name = or_else host [] in
    let matrix =
      if not (length name == 0) && measured_all_zero s
      then str "See docs/architecture.md for the per-host capability matrix." ∷ []
      else [] in
    if s.total_requests == 0
    then []
    else str "Labels with (est.) are heuristic estimates, not measured before/after deltas."
        ∷ host_help name
      ++ matrix

-- The loop that both listings have: a line for a host that is not the one before, behind a blank line
-- except at the start, and the lines of the entry.
module _ {A : Type 0} (host_of : A → Text) (lines_of : A → List Text) where
  abbrev pub host_lines : Option Text → Text → List Text
  host_lines none host = host_label host ∷ []
  host_lines (some current) host = if text_eq host current then [] else [] ∷ host_label host ∷ []

  unfoldable pub by_host : Option Text → List A → List Text
  unfolding host_label
  by_host current [] = []
  by_host current (x ∷ xs) =
      host_lines current (host_of x) ++ (lines_of x ++ by_host (some (host_of x)) xs)

abbrev pub id_width : List SessionRow → ℕ
id_width [] = 0
id_width (r ∷ rows) = max (length r.session_id) (id_width rows)

abbrev pub saved_width : List SessionRow → ℕ
saved_width [] = 0
saved_width (r ∷ rows) = max (length (format_token_count r.tokens_saved)) (saved_width rows)

-- `~$${costSaved.toFixed(4)} saved`: a cost is a number of millionths of a cent
unfoldable pub cost_text : Summary → Text
unfolding to_fixed quotient
cost_text s = str "~$" ++ (to_fixed 4 (quotient s.cost_saved (10 ^ 8)) ++ str " saved")

-- `none` where the chart throws
unfoldable pub render_compact_summary : Summary → Option (List Text)
unfolding render_stats_bar_chart build_stats_breakdown format_savings_line cost_text
render_compact_summary s =
    let chart = render_stats_bar_chart (build_stats_breakdown s) >>= λ lines.
    some
      ((str "ctxlite · " ++ format_savings_line s) ∷ lines ++ (cost_text s ∷ support_line ∷ [])) in
    if s.total_requests == 0 then some (str "No data recorded yet." ∷ []) else chart

unfoldable pub summaries_of : List (SessionRow × Summary) → Option (List (SessionRow × List Text))
unfolding render_compact_summary
summaries_of [] = some []
summaries_of ((row, s) ∷ entries) = render_compact_summary s >>= λ lines.
    summaries_of entries >>= λ rest. some ((row, lines) ∷ rest)

-- `if (lines.at(-1) === "") lines.pop()`
unfoldable pub drop_blank_end : List Text → List Text
drop_blank_end [] = []
drop_blank_end (line ∷ []) = if length line == 0 then [] else line ∷ []
drop_blank_end (line ∷ next ∷ lines) = line ∷ drop_blank_end (next ∷ lines)

-- `new Date(lastTs * 1000).toLocaleString()` is what `locale_time` gives for `lastTs`.
module _ (locale_time : ℕ → Text) where
  unfoldable pub session_line : ℕ → ℕ → SessionRow → Text
  unfolding pad_end pad_start format_token_count
  session_line ids tokens r =
      str "  "
      ++ (pad_end ids r.session_id
          ++ (str "  "
              ++ (pad_start 32 tokens (format_token_count r.tokens_saved)
                  ++ (str " saved  ("
                      ++ (print_nat r.total_requests
                          ++ (str " requests)  last active " ++ locale_time r.last_ts))))))

  unfoldable pub render_session_breakdown : List SessionRow → List Text
  unfolding session_line by_host
  render_session_breakdown rows =
      if length rows == 0
      then str "No sessions recorded yet." ∷ []
      else by_host (λ (r : SessionRow). r.host)
          (λ r. session_line (id_width rows) (saved_width rows) r ∷ []) none rows

  -- An entry with the lines of its summary, and a blank line.
  unfoldable pub entry_lines : SessionRow × List Text → List Text
  entry_lines (row, summary) =
      (str "  "
          ++ (row.session_id
              ++ (str "  ("
                  ++ (print_nat row.total_requests
                      ++ (str " requests)  last active " ++ locale_time row.last_ts)))))
        ∷ map (λ line. str "    " ++ line) summary
      ++ ([] ∷ [])

  unfoldable pub render_session_breakdown_detailed :
      List (SessionRow × Summary) → Option (List Text)
  unfolding summaries_of drop_blank_end entry_lines by_host
  render_session_breakdown_detailed entries =
      let rendered = summaries_of entries >>= λ es.
      some
        (drop_blank_end (by_host (λ (e : SessionRow × List Text). e.0.host) entry_lines none es)) in
      if length entries == 0 then some (str "No sessions recorded yet." ∷ []) else rendered
