-- ===== src/Report/Chart.antt =====
-- About the bar chart of a report (report.ts).
use ctxlite.Prelude.{
  ℕ, zero, suc, ◌-◌, ◌≤◌, ◌<◌, ◌≡◌, refl, ap, inl, inr, some, List, [], ◌∷◌, ◌++◌, arith, Text, str,
  All, length, length-append, leb, print_nat, math_round-times, math_round-times-whole,
  math_round-times-nothing,
}
use ctxlite.Report.{
  StatsBreakdownRow, repeat_unit, pad_end, pad_start, format_token_count, max_of, max_saved,
  label_width, token_width, filled_cells, filled_cell, empty_cell, bar_of, chart_text, chart_line,
  chart_lines, render_stats_bar_chart,
}
use ctxlite.Prelude.{Bool-cases}

length-repeat_unit : (c n : ℕ) → length (repeat_unit c n) ≡ n
length-repeat_unit c zero = refl
length-repeat_unit c (suc n) = ap suc (length-repeat_unit c n)

length-pad_end : (width : ℕ) (t : Text) → length t ≤ width → length (pad_end width t) ≡ width
unfolding pad_end
length-pad_end width t h =
    let n = width - length t in
    omega (arith, length-append t (repeat_unit 32 n), length-repeat_unit 32 n, h)

length-pad_start :
    (c width : ℕ) (t : Text) → length t ≤ width → length (pad_start c width t) ≡ width
unfolding pad_start
length-pad_start c width t h =
    let n = width - length t in
    omega (arith, length-append (repeat_unit c n) t, length-repeat_unit c n, h)

module _ (f : StatsBreakdownRow → ℕ) (least : ℕ) where
  max_of-least : (rows : List StatsBreakdownRow) → least ≤ max_of f least rows
  max_of-least [] = omega arith
  max_of-least (r ∷ rows) = omega (arith, max_of-least rows)

  max_of-All :
      (bound : ℕ) (rows : List StatsBreakdownRow)
      → max_of f least rows ≤ bound
      → All (λ r. f r ≤ bound) rows
  max_of-All bound [] h = tt
  max_of-All bound (r ∷ rows) h = (omega (arith, h), max_of-All bound rows (omega (arith, h)))

-- A line of the chart: the label of the row on so many columns, a bar of twenty cells, the tokens on so
-- many columns, and the count. The bar is full where the row has the most tokens and empty where it has
-- none.
pub record IsChartLine (most labels tokens : ℕ) (r : StatsBreakdownRow) (line : Text) : Type 0 where
  pub label : Text
  pub filled : ℕ
  pub saved : Text
  pub shown :
      line
      ≡ label
        ++ (str "  "
            ++ ((repeat_unit filled_cell filled ++ repeat_unit empty_cell (20 - filled))
                ++ (str "  "
                    ++ (saved
                        ++ (str "  ("
                            ++ (print_nat r.count ++ (str " " ++ (r.count_label ++ str ")"))))))))
  pub same_label : label ≡ pad_end labels r.label
  pub same_saved : saved ≡ pad_start 32 tokens (format_token_count r.tokens_saved)
  pub columns : (length label ≡ labels) × (length saved ≡ tokens) × (filled ≤ 20)
  pub full : r.tokens_saved ≡ most → filled ≡ 20
  pub empty : r.tokens_saved ≡ 0 → filled ≡ 0

-- Line by line.
abbrev pub AreChartLines : ℕ → ℕ → ℕ → List StatsBreakdownRow → List Text → Type 0
AreChartLines most labels tokens [] [] = Unit
AreChartLines most labels tokens [] (line ∷ lines) = ⊥
AreChartLines most labels tokens (r ∷ rows) [] = ⊥
AreChartLines most labels tokens (r ∷ rows) (line ∷ lines) =
    IsChartLine most labels tokens r line × AreChartLines most labels tokens rows lines

-- A row that fits into the columns, and has no more than the most tokens.
abbrev IsInside : ℕ → ℕ → ℕ → StatsBreakdownRow → Type 0
IsInside most labels tokens r =
    (r.tokens_saved ≤ most)
    × (length r.label ≤ labels)
    × (length (format_token_count r.tokens_saved) ≤ tokens)

filled_cells-le : (most saved : ℕ) → 0 < most → saved ≤ most → filled_cells most saved ≤ 20
unfolding filled_cells
filled_cells-le most saved pos h = math_round-times saved most 20 (omega arith) pos h

filled_cells-full : (most saved : ℕ) → 0 < most → saved ≡ most → filled_cells most saved ≡ 20
unfolding filled_cells
filled_cells-full most saved pos e = rw e (math_round-times-whole most pos)

filled_cells-empty : (most saved : ℕ) → 0 < most → saved ≡ 0 → filled_cells most saved ≡ 0
unfolding filled_cells
filled_cells-empty most saved pos e = rw e (math_round-times-nothing most pos)

bar_of-some :
    (n : ℕ)
    → n ≤ 20
    → bar_of n ≡ some (repeat_unit filled_cell n ++ repeat_unit empty_cell (20 - n))
unfolding bar_of
bar_of-some n h = elim (Bool-cases (leb n 20)) [
  | inl e ↦ rw e refl
  | inr e ↦ let no : ⊥ = ground (arith, e, h) in elim no [ ]
]

module _ (most labels tokens : ℕ) (pos : 0 < most) where
  chart_line-IsChartLine :
      (r : StatsBreakdownRow)
      → IsInside most labels tokens r
      → (line : Text) × (chart_line most labels tokens r ≡ some line)
        × IsChartLine most labels tokens r line
  unfolding chart_line
  chart_line-IsChartLine r (le, label, saved) =
      let n = filled_cells most r.tokens_saved in
      let cells = filled_cells-le most r.tokens_saved pos le in
      (
        chart_text labels tokens r (repeat_unit filled_cell n ++ repeat_unit empty_cell (20 - n)),
        rw (bar_of-some n cells) refl,
        record {
          label = pad_end labels r.label;
          filled = n;
          saved = pad_start 32 tokens (format_token_count r.tokens_saved);
          shown = refl;
          same_label = refl;
          same_saved = refl;
          columns = (
            length-pad_end labels r.label label,
            length-pad_start 32 tokens (format_token_count r.tokens_saved) saved,
            cells,
          );
          full = λ e. filled_cells-full most r.tokens_saved pos e;
          empty = λ e. filled_cells-empty most r.tokens_saved pos e;
        },
      )

  chart_lines-AreChartLines :
      (rows : List StatsBreakdownRow)
      → All (λ r. r.tokens_saved ≤ most) rows
      → All (λ r. length r.label ≤ labels) rows
      → All (λ r. length (format_token_count r.tokens_saved) ≤ tokens) rows
      → (lines : List Text) × (chart_lines most labels tokens rows ≡ some lines)
        × AreChartLines most labels tokens rows lines
  unfolding chart_lines
  chart_lines-AreChartLines [] h i j = ([], refl, tt)
  chart_lines-AreChartLines (r ∷ rows) (p, h) (q, i) (s, j) =
      let (line, e, is) = chart_line-IsChartLine r (p, q, s) in
      let (lines, f, are) = chart_lines-AreChartLines rows h i j in
      (line ∷ lines, rw (e, f) refl, (is, are))

-- The bar chart of any rows never throws, and has a line for each row, in their order: its label
-- and its tokens fill columns that are as wide on every line, and its bar has exactly twenty cells,
-- all of them filled where no row has more tokens, and none where the row has none.
pub render_stats_bar_chart-AreChartLines :
    (rows : List StatsBreakdownRow)
    → (lines : List Text) × (render_stats_bar_chart rows ≡ some lines)
      × AreChartLines (max_saved rows) (label_width rows) (token_width rows) rows lines
unfolding render_stats_bar_chart max_saved label_width token_width
render_stats_bar_chart-AreChartLines rows =
    chart_lines-AreChartLines (max_saved rows) (label_width rows) (token_width rows)
      (max_of-least (λ r. r.tokens_saved) 1 rows) rows
      (max_of-All (λ r. r.tokens_saved) 1 (max_saved rows) rows (omega arith))
      (max_of-All (λ r. length r.label) 0 (label_width rows) rows (omega arith))
      (max_of-All (λ r. length (format_token_count r.tokens_saved)) 0 (token_width rows) rows
        (omega arith))
