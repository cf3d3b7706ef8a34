-- ===== src/Cli/StatsCommand/Output.antt =====
-- About what `ctxlite stats` prints (stats-command.ts).
use ctxlite.Prelude.{
  ℕ, ◌≡◌, refl, ◌⊎◌, inl, inr, Bool, true, false, ◌&&◌, Option, some, List, [], ◌∷◌, Text, str,
  unlines, ◌==◌, if◌then◌else◌, ◌>>=◌, length,
}
use ctxlite.Stats.{Row}
use ctxlite.Stats.Summary.{Summary}
use ctxlite.Stats.Breakdown.{SessionRow}
use ctxlite.Report.{build_stats_breakdown, render_stats_bar_chart}
use ctxlite.Report.Chart.{render_stats_bar_chart-AreChartLines}
use ctxlite.Report.Sessions.{
  render_compact_summary, summaries_of, render_session_breakdown_detailed,
}
use ctxlite.Cli.Format.{format_text}
use ctxlite.Cli.StatsCommand.{Args, StatsMachine, Printed, text, stats_output}
use ctxlite.Cli.StatsCommand.{
  ended, period_to_timestamp, with_summaries, entries_json, summary_json,
}
use ctxlite.Prelude.{text_eq}
use ctxlite.Stats.Breakdown.{session_breakdown}
use ctxlite.Stats.Summary.{summary}
use ctxlite.Prelude.{arith, map, text_eq, text_eq_iff, if-either, ◌≢◌, ◌-◌}
use ctxlite.Cli.StatsCommand.{rows_json}
use ctxlite.Stats.Summary.{summary_for_session}
use ctxlite.Report.Sessions.{render_session_breakdown}

abbrev IsSome : {A : Type 0} → Option A → Type 0
IsSome {A} o = (a : A) × (o ≡ some a)

bind-IsSome :
    {A B : Type 0} (o : Option A) (f : A → Option B)
    → IsSome o
    → ((a : A) → IsSome (f a))
    → IsSome (o >>= f)
bind-IsSome o f (a, e) h = rw e (h a)

bind-holds :
    {A B : Type 0} (P : Option B → Type 0) (o : Option A) (f : A → Option B) (a : A)
    → o ≡ some a
    → P (f a)
    → P (o >>= f)
bind-holds P o f a e h = rw e h

if-IsSome :
    {A : Type 0} (b : Bool) (x y : Option A) → IsSome x → IsSome y → IsSome (if b then x else y)
if-IsSome true x y h k = h
if-IsSome false x y h k = k

chart-IsSome : (s : Summary) → IsSome (render_stats_bar_chart (build_stats_breakdown s))
chart-IsSome s =
    let (lines, e, are) = render_stats_bar_chart-AreChartLines (build_stats_breakdown s) in
    (lines, e)

render_compact_summary-IsSome : (s : Summary) → IsSome (render_compact_summary s)
unfolding render_compact_summary
render_compact_summary-IsSome s =
    if-IsSome (s.total_requests == 0) _ _ (_, refl)
      (bind-IsSome _ _ (chart-IsSome s) (λ lines. (_, refl)))

summaries_of-IsSome : (entries : List (SessionRow × Summary)) → IsSome (summaries_of entries)
unfolding summaries_of
summaries_of-IsSome [] = (_, refl)
summaries_of-IsSome ((row, s) ∷ entries) =
    bind-IsSome _ _ (render_compact_summary-IsSome s)
      (λ lines. bind-IsSome _ _ (summaries_of-IsSome entries) (λ rest. (_, refl)))

detailed-IsSome :
    (locale_time : ℕ → Text) (entries : List (SessionRow × Summary))
    → IsSome (render_session_breakdown_detailed locale_time entries)
unfolding render_session_breakdown_detailed
detailed-IsSome locale_time entries =
    if-IsSome (length entries == 0) _ _ (_, refl)
      (bind-IsSome _ _ (summaries_of-IsSome entries) (λ es. (_, refl)))

format_text-IsSome : (s : Summary) (host : Option Text) → IsSome (format_text s host)
unfolding format_text
format_text-IsSome s host =
    if-IsSome (s.total_requests == 0) _ _ (_, refl)
      (bind-IsSome _ _ (chart-IsSome s) (λ lines. (_, refl)))

abbrev pub is_json : Args → Bool
is_json args = text_eq args.export_format (str "json")

-- The rows count from here on: an hour, a week or a month before now, the beginning, or midnight.
abbrev pub IsStart : StatsMachine → Text → ℕ → Type 0
IsStart m last since =
    ((last ≡ str "session") × (since ≡ m.now - 3600))
    ⊎ ((last ≡ str "7d") × (since ≡ m.now - 604800))
    ⊎ ((last ≡ str "30d") × (since ≡ m.now - 2592000))
    ⊎ ((last ≡ str "all") × (since ≡ 0))
    ⊎ ((last ≢ str "session")
        × (last ≢ str "7d")
        × (last ≢ str "30d")
        × (last ≢ str "all")
        × (since ≡ m.midnight))

period-IsStart : (m : StatsMachine) (last : Text) → IsStart m last (period_to_timestamp m last)
unfolding period_to_timestamp
period-IsStart m last =
    let session = text_eq_iff last (str "session") in
    let week = text_eq_iff last (str "7d") in
    let month = text_eq_iff last (str "30d") in
    let ever = text_eq_iff last (str "all") in
    if-either (IsStart m last) (text_eq last (str "session")) _ _ (λ e. inl (session.0 e, refl))
      (λ e.
        if-either (IsStart m last) (text_eq last (str "7d")) _ _ (λ f. inr (inl (week.0 f, refl)))
          (λ f.
            if-either (IsStart m last) (text_eq last (str "30d")) _ _
              (λ g. inr (inr (inl (month.0 g, refl))))
              (λ g.
                if-either (IsStart m last) (text_eq last (str "all")) _ _
                  (λ h. inr (inr (inr (inl (ever.0 h, refl)))))
                  (λ h. inr (
                    inr (
                      inr (
                        inr (
                          (λ q. ground (arith, session.1 q, e)),
                          (λ q. ground (arith, week.1 q, f)),
                          (λ q. ground (arith, month.1 q, g)),
                          (λ q. ground (arith, ever.1 q, h)),
                          refl,
                        ))))))))

module _ (m : StatsMachine) (args : Args) (table : List Row) where
  abbrev pub rows_from : ℕ → List SessionRow
  rows_from since = session_breakdown since args.host table

  abbrev pub entries_from : ℕ → List (SessionRow × Summary)
  entries_from since =
      map (λ (r : SessionRow). (r, summary_for_session r.host r.session_id table)) (rows_from since)

  -- What is printed for the sessions that count: their rows with `--compact`, and otherwise each
  -- with the summary of its session; as JSON or as text.
  abbrev pub IsSessionOutput : ℕ → Printed → Type 0
  IsSessionOutput since p =
      ((args.compact ≡ true) × (is_json args ≡ true) × (p ≡ rows_json (rows_from since)))
      ⊎ ((args.compact ≡ true)
          × (is_json args ≡ false)
          × (p ≡ text (ended (unlines (render_session_breakdown m.locale_time (rows_from since))))))
      ⊎ ((args.compact ≡ false) × (is_json args ≡ true) × (p ≡ entries_json (entries_from since)))
      ⊎ ((args.compact ≡ false)
          × (is_json args ≡ false)
          × (lines : List Text) × (render_session_breakdown_detailed m.locale_time
                (entries_from since)
              ≡ some lines)
          × (p ≡ text (ended (unlines lines))))

  -- What is printed for all rows that count: their summary.
  abbrev pub IsSummaryOutput : ℕ → Printed → Type 0
  IsSummaryOutput since p =
      ((is_json args ≡ true) × (p ≡ summary_json (summary m.locale_date since args.host table)))
      ⊎ ((is_json args ≡ false)
          × (t : Text) × (format_text (summary m.locale_date since args.host table) args.host
              ≡ some t)
          × (p ≡ text (ended t)))

  -- What is printed, where no chart throws.
  abbrev pub IsPrinted : Printed → Type 0
  IsPrinted p =
      (since : ℕ) × IsStart m args.last since
      × (((args.by_session ≡ true) × IsSessionOutput since p)
          ⊎ ((args.by_session ≡ false) × IsSummaryOutput since p))

  abbrev pub IsOutput : Option Printed → Type 0
  IsOutput o = (p : Printed) × (o ≡ some p) × IsPrinted p

  abbrev since : ℕ
  since = period_to_timestamp m args.last

  of_sessions : (p : Printed) → args.by_session ≡ true → IsSessionOutput since p → IsOutput (some p)
  of_sessions p e o = (p, refl, (since, period-IsStart m args.last, inl (e, o)))

  of_summary : (p : Printed) → args.by_session ≡ false → IsSummaryOutput since p → IsOutput (some p)
  of_summary p e o = (p, refl, (since, period-IsStart m args.last, inr (e, o)))

  pub stats_output-IsOutput : IsOutput (stats_output m args table)
  unfolding stats_output with_summaries
  stats_output-IsOutput =
      let (lines, lines_e) = detailed-IsSome m.locale_time (entries_from since) in
      let all_of = summary m.locale_date since args.host table in
      let (t, t_e) = format_text-IsSome all_of args.host in
      if-either IsOutput (args.by_session && args.compact) _ _
        (λ e.
          let b : args.by_session ≡ true = ground (arith, e) in
          let c : args.compact ≡ true = ground (arith, e) in
          if-either IsOutput (is_json args) _ _ (λ j. of_sessions _ b (inl (c, j, refl)))
            (λ j. of_sessions _ b (inr (inl (c, j, refl)))))
        (λ e.
          if-either IsOutput args.by_session _ _
            (λ b.
              let c : args.compact ≡ false = ground (arith, e, b) in
              if-either IsOutput (is_json args) _ _
                (λ j. of_sessions _ b (inr (inr (inl (c, j, refl)))))
                (λ j.
                  bind-holds IsOutput _ _ lines lines_e
                    (of_sessions _ b (inr (inr (inr (c, j, lines, lines_e, refl)))))))
            (λ b.
              if-either IsOutput (is_json args) _ _ (λ j. of_summary _ b (inl (j, refl)))
                (λ j. bind-holds IsOutput _ _ t t_e (of_summary _ b (inr (j, t, t_e, refl))))))
