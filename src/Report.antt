-- ===== src/Report.antt =====
-- packages/core/src/report.ts: the rows of a report and its bar chart.
pub mod Chart
pub mod Sessions
mod Tests
use ctxlite.Prelude.{
  ℕ, zero, suc, ◌+◌, ◌-◌, ◌*◌, ◌/◌, ◌%◌, ◌^◌, max, Bool, true, false, ◌&&◌, ◌||◌, Option, none,
  some, List, [], ◌∷◌, ◌++◌, map, Text, str, text_eq, length, filter_by, all, ltb, leb, ◌==◌,
  if◌then◌else◌, print_nat, ◌>>=◌,
}
use ctxlite.Prelude.{BinaryFraction, quotient, times, math_round, scaled}
use ctxlite.Stats.Summary.{Summary}

unfoldable pub support_line : Text
support_line = str "If ctxlite is saving you tokens: https://ko-fi.com/techdebeci"

abbrev pub min_session_turns_for_percent : ℕ
min_session_turns_for_percent = 10

unfoldable pub has_stable_savings_baseline : Summary → Bool
has_stable_savings_baseline s = leb min_session_turns_for_percent s.session_turn_count

pub data MeasurementKind : Type 0 where
  measured estimate : MeasurementKind

pub record StatsBreakdownRow : Type 0 where
  pub label : Text
  pub tokens_saved : ℕ
  pub count : ℕ
  pub count_label : Text
  pub measurement_kind : MeasurementKind

unfoldable pub breakdown_row : Text → ℕ → ℕ → Text → MeasurementKind → StatsBreakdownRow
breakdown_row label tokens_saved count count_label kind = record {
  label = label;
  tokens_saved = tokens_saved;
  count = count;
  count_label = count_label;
  measurement_kind = kind;
}

unfoldable pub build_stats_breakdown : Summary → List StatsBreakdownRow
unfolding breakdown_row
build_stats_breakdown s =
    breakdown_row (str "precall (est.)") s.precall_tokens_saved s.precall_requests
      (str "rewrites/blocks") estimate
    ∷ breakdown_row (str "compress") s.compress_tokens_saved s.compress_requests
        (str "tool outputs") measured
    ∷ breakdown_row (str "prune") s.prune_tokens_saved s.prune_requests (str "context passes")
        measured
    ∷ breakdown_row (str "compact") s.compact_tokens_saved s.compact_requests (str "stale outputs")
        measured
    ∷ breakdown_row (str "smart_read") s.smart_read_tokens_saved s.smart_read_requests
        (str "file reads") measured
    ∷ breakdown_row (str "diff_read") s.diff_read_tokens_saved s.diff_read_requests
        (str "diff reads") measured
    ∷ breakdown_row (str "log_summary") s.log_summary_tokens_saved s.log_summary_requests
        (str "log passes") measured
    ∷ breakdown_row (str "code_search") s.code_search_tokens_saved s.code_search_requests
        (str "searches") measured
    ∷ breakdown_row (str "trim") s.trim_tokens_saved s.trimmed_requests (str "calls") measured
    ∷ breakdown_row (str "concise (est.)") s.conciseness_tokens_saved s.conciseness_requests
        (str "responses") estimate
    ∷ []

-- `c.repeat(n)`
abbrev pub repeat_unit : ℕ → ℕ → Text
repeat_unit c zero = []
repeat_unit c (suc n) = c ∷ repeat_unit c n

-- `text.padEnd(width)` and `text.padStart(width, c)`
unfoldable pub pad_end : ℕ → Text → Text
pad_end width text = text ++ repeat_unit 32 (width - length text)

unfoldable pub pad_start : ℕ → ℕ → Text → Text
pad_start c width text = repeat_unit c (width - length text) ++ text

-- `x.toFixed(digits)`, for one digit and more
unfoldable pub to_fixed : ℕ → BinaryFraction → Text
unfolding scaled pad_start
to_fixed digits x =
    let n = scaled digits x in
    print_nat (n / 10 ^ digits) ++ (str "." ++ pad_start b'0' digits (print_nat (n % 10 ^ digits)))

unfoldable pub format_token_count : ℕ → Text
unfolding to_fixed
format_token_count n =
    if leb 1000000 n
    then to_fixed 1 (quotient n 1000000) ++ str "M"
    else if leb 1000 n
    then to_fixed 1 (quotient n 1000) ++ str "K"
    else print_nat n

abbrev first_unless_zero : ℕ → ℕ → ℕ
first_unless_zero a b = if a == 0 then b else a

-- The percentage is `(a / b) * 100`: a summary has it as the fraction of `100 * a` and `b`.
unfoldable pub format_savings_line : Summary → Text
unfolding format_token_count has_stable_savings_baseline
format_savings_line s =
    let percent =
      times (quotient (s.savings_percent.numerator / 100) s.savings_percent.denominator) 100 in
    if s.session_tokens_used == 0 && s.session_turn_count == 0
    then format_token_count (first_unless_zero s.realtime_tokens_saved s.tokens_saved)
      ++ str " saved (no session baseline yet)"
    else if has_stable_savings_baseline s
    then format_token_count s.realtime_tokens_saved
      ++ (str " of "
          ++ (format_token_count s.tokens_before
              ++ (str " (" ++ (to_fixed 1 percent ++ str "% context avoided)"))))
    else format_token_count s.realtime_tokens_saved
      ++ (str " saved ("
          ++ (print_nat s.session_turn_count
              ++ (str "/"
                  ++ (print_nat min_session_turns_for_percent
                      ++ str " turns — % after baseline)"))))

abbrev pub bar_width : ℕ
bar_width = 20

-- `Math.max(...rows.map(f))`, from a least value
abbrev pub max_of : (StatsBreakdownRow → ℕ) → ℕ → List StatsBreakdownRow → ℕ
max_of f least [] = least
max_of f least (r ∷ rows) = max (f r) (max_of f least rows)

unfoldable pub max_saved : List StatsBreakdownRow → ℕ
max_saved rows = max_of (λ r. r.tokens_saved) 1 rows

unfoldable pub label_width : List StatsBreakdownRow → ℕ
label_width rows = max_of (λ r. length r.label) 0 rows

unfoldable pub token_width : List StatsBreakdownRow → ℕ
unfolding format_token_count
token_width rows = max_of (λ r. length (format_token_count r.tokens_saved)) 0 rows

-- `Math.round((tokensSaved / max) * BAR_WIDTH)`
unfoldable pub filled_cells : ℕ → ℕ → ℕ
unfolding quotient times math_round
filled_cells most saved = math_round (times (quotient saved most) bar_width)

unfoldable pub filled_cell : ℕ
filled_cell = 9608

unfoldable pub empty_cell : ℕ
empty_cell = 9617

-- The bar, `none` where `repeat` throws since it is asked for a negative count.
unfoldable pub bar_of : ℕ → Option Text
unfolding filled_cell empty_cell
bar_of filled =
    if leb filled bar_width
    then some (repeat_unit filled_cell filled ++ repeat_unit empty_cell (bar_width - filled))
    else none

abbrev pub chart_text : ℕ → ℕ → StatsBreakdownRow → Text → Text
chart_text labels tokens r bar =
    pad_end labels r.label
    ++ (str "  "
        ++ (bar
            ++ (str "  "
                ++ (pad_start 32 tokens (format_token_count r.tokens_saved)
                    ++ (str "  ("
                        ++ (print_nat r.count ++ (str " " ++ (r.count_label ++ str ")"))))))))

unfoldable pub chart_line : ℕ → ℕ → ℕ → StatsBreakdownRow → Option Text
unfolding bar_of filled_cells pad_end pad_start format_token_count
chart_line most labels tokens r =
    bar_of (filled_cells most r.tokens_saved) >>= λ bar. some (chart_text labels tokens r bar)

unfoldable pub chart_lines : ℕ → ℕ → ℕ → List StatsBreakdownRow → Option (List Text)
unfolding chart_line
chart_lines most labels tokens [] = some []
chart_lines most labels tokens (r ∷ rows) = chart_line most labels tokens r >>= λ line.
    chart_lines most labels tokens rows >>= λ lines. some (line ∷ lines)

-- The chart, `none` where it throws.
unfoldable pub render_stats_bar_chart : List StatsBreakdownRow → Option (List Text)
unfolding chart_lines max_saved label_width token_width
render_stats_bar_chart rows =
    chart_lines (max_saved rows) (label_width rows) (token_width rows) rows
