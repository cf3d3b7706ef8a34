-- ===== src/Cli/StatsCommand/Outcomes.antt =====
-- About the outcomes of `ctxlite stats` (stats-command.ts).
use ctxlite.Prelude.{
  ◌≡◌, refl, ◌⊎◌, inl, inr, Bool, true, false, ◌&&◌, Option, none, some, List, ◌++◌, Text, str,
  Bool-cases, Option-cases,
}
use ctxlite.Stats.{Row}
use ctxlite.Cli.StatsCommand.{
  Args, is_one_of, known_stats_hosts, valid_periods, valid_formats, invalid_arg, StatsMachine,
  Printed, StatsRun, failed_run, printed_run, run_on, run_stats,
}
use ctxlite.Cli.StatsCommand.Output.{IsPrinted, stats_output-IsOutput}

abbrev pub host_is_known : Option Text → Bool
host_is_known none = true
host_is_known (some host) = is_one_of known_stats_hosts host

-- What `ctxlite stats` allows.
abbrev pub is_allowed : Args → Bool
is_allowed args =
    is_one_of valid_periods args.last
    && is_one_of valid_formats args.export_format
    && host_is_known args.host

-- The outcomes: an argument is not allowed, and the table stays closed; the table does not open; or
-- the output is printed.
pub record IsRefused (m : StatsMachine) (args : Args) (r : StatsRun) : Type 0 where
  pub not_allowed : is_allowed args ≡ false
  pub message : Text
  pub result : r ≡ failed_run message
  pub closed : (n : StatsMachine) → run_stats n args ≡ r

abbrev pub IsOutcome : StatsMachine → Args → StatsRun → Type 0
IsOutcome m args r =
    IsRefused m args r
    ⊎ ((is_allowed args ≡ true)
        × (((m.open_table args.db ≡ none)
              × (r ≡ failed_run (str "Error: " ++ (m.open_message args.db ++ str "\n"))))
            ⊎ ((table : List Row) × (p : Printed) × (m.open_table args.db ≡ some table)
                × IsPrinted m args table p
                × (r ≡ printed_run p))))

-- The tests find a message exactly for arguments that are not allowed.
invalid_arg-allowed :
    (args : Args)
    → ((invalid_arg args ≡ none) × (is_allowed args ≡ true))
      ⊎ ((message : Text) × (invalid_arg args ≡ some message) × (is_allowed args ≡ false))
unfolding invalid_arg
invalid_arg-allowed args = elim (Bool-cases (is_one_of valid_periods args.last)) [
  | inr p ↦ rw p (inr (_, refl, refl))
  | inl p ↦ elim (Bool-cases (is_one_of valid_formats args.export_format)) [
    | inr q ↦ rw (p, q) (inr (_, refl, refl))
    | inl q ↦ elim (Option-cases args.host) [
      | inl n ↦ rw (p, q, n) (inl (refl, refl))
      | inr (host, e) ↦ elim (Bool-cases (is_one_of known_stats_hosts host)) [
        | inl k ↦ rw (p, q, e, k) (inl (refl, refl))
        | inr k ↦ rw (p, q, e, k) (inr (_, refl, refl))
      ]
    ]
  ]
]

run_on-cases :
    (m : StatsMachine) (args : Args) (o : Option (List Row))
    → ((o ≡ none)
        × (run_on m args o ≡ failed_run (str "Error: " ++ (m.open_message args.db ++ str "\n"))))
      ⊎ ((table : List Row) × (p : Printed) × (o ≡ some table)
          × IsPrinted m args table p
          × (run_on m args o ≡ printed_run p))
run_on-cases m args none = inl (refl, refl)
run_on-cases m args (some table) =
    let (p, e, printed) = stats_output-IsOutput m args table in
    inr (table, p, refl, printed, rw e refl)

-- Whatever its arguments, ctxlite stats ends in one of three ways: an argument that is not allowed
-- gives exit code 1, a message and no output, whatever the table holds, which is not opened; a
-- table that does not open gives exit code 1 and its message; and otherwise no chart throws, the
-- exit code is 0, nothing goes to the error output, and the output is what the arguments ask of the
-- rows of the host since the start of the period: with --by-session the sessions, as rows with
-- --compact and otherwise each with its summary, and the summary of all rows without, as JSON
-- values or as text.
pub run_stats-IsOutcome : (m : StatsMachine) (args : Args) → IsOutcome m args (run_stats m args)
unfolding run_stats
run_stats-IsOutcome m args = elim (invalid_arg-allowed args) [
  | inl (e, allowed) ↦ rw e (inr (allowed, run_on-cases m args (m.open_table args.db)))
  | inr (message, e, not_allowed) ↦ inl (record {
    not_allowed = not_allowed;
    message = message;
    result = rw e refl;
    closed = λ n. rw e refl;
  })
]
